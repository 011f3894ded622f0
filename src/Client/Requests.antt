-- ===== src/Client/Requests.antt =====
-- im/client/net/connection.py, class ServerConnection: the frames that its sending methods build. An id
-- and a time come with each.
use socket_to_ciphertext.Prelude.{ℕ, String, Bool, Option, none, some, List, [], ◌∷◌, map, ℤ, pos}
use socket_to_ciphertext.Prelude.Assoc.{Dict}
use socket_to_ciphertext.Wire.Value.{Value, bool, int, str, arr, obj, of_items, of_entries}
use socket_to_ciphertext.Wire.Frame.{Frame, MessageType}

-- A list of texts, as `json.dumps` takes it.
abbrev pub str_list : List String → Value
str_list names = arr (of_items (map str names))

-- `Frame(type=…, to=…, body=…, nonce=…, data=…)`
abbrev pub build :
    MessageType → Option String → Option String → Option String → Dict Value → String → ℤ → Frame
build type to body nonce payload id ts = record {
  type = type;
  sender = none;
  to = to;
  body = body;
  nonce = nonce;
  payload = payload;
  id = id;
  ts = ts;
  v = int (pos 1);
}

abbrev pub env_value : Dict (String × String) → Value
env_value d = obj (of_entries (map (λ e. (e.0, str_list (e.1.0 ∷ e.1.1 ∷ []))) d))

-- `{"env": envelopes} if envelopes else {}`; `None` is the empty dictionary.
abbrev pub env_payload : Dict (String × String) → Dict Value
env_payload [] = []
env_payload (e ∷ d) = ("env", env_value (e ∷ d)) ∷ []

unfoldable pub message :
    String → String → Option String → Dict (String × String) → String → ℤ → Frame
message to body nonce envelopes =
    build MessageType.msg (some to) (some body) nonce (env_payload envelopes)

abbrev pub ping : String → ℤ → Frame
ping = build MessageType.ping none none none []

abbrev pub typing : String → Bool → String → ℤ → Frame
typing to on = build MessageType.typing (some to) none none (("on", bool on) ∷ [])

abbrev pub receipt : String → String → String → String → ℤ → Frame
receipt to ref state =
    build MessageType.receipt (some to) none none (("ref", str ref) ∷ ("state", str state) ∷ [])

abbrev pub about_user : MessageType → String → String → ℤ → Frame
about_user type user = build type none none none (("user", str user) ∷ [])

abbrev pub get_key : String → String → ℤ → Frame
get_key = about_user MessageType.get_key

-- Without `before`, which the controller never gives.
abbrev pub history : String → ℕ → String → ℤ → Frame
history room limit =
    build MessageType.history (some room) none none
      (("room", str room) ∷ ("limit", int (pos limit)) ∷ [])

abbrev pub about_room : MessageType → String → Dict Value → String → ℤ → Frame
about_room type room more = build type none none none (("room", str room) ∷ more)

-- An empty list is left out.
abbrev pub members_payload : List String → Dict Value
members_payload [] = []
members_payload (n ∷ ns) = ("members", str_list (n ∷ ns)) ∷ []

abbrev pub create_room : String → List String → String → ℤ → Frame
create_room room members = about_room MessageType.create_room room (members_payload members)

abbrev pub add_contact : String → String → ℤ → Frame
add_contact = about_user MessageType.add_contact

abbrev pub remove_contact : String → String → ℤ → Frame
remove_contact = about_user MessageType.remove_contact

abbrev pub invite : String → List String → String → ℤ → Frame
invite room members = about_room MessageType.invite room (("members", str_list members) ∷ [])

abbrev pub join : String → String → ℤ → Frame
join room = about_room MessageType.join room []

abbrev pub leave : String → String → ℤ → Frame
leave room = about_room MessageType.leave room []
