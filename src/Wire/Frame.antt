-- ===== src/Wire/Frame.antt =====
-- im/common/frames.py: the frame, its JSON form and back. The field `data` is `payload` here.
pub mod RoundTrip
use socket_to_ciphertext.Prelude.{
  String, Bool, true, false, ◌||◌, Option, none, some, List, [], ◌∷◌, ◌++◌, ◌==◌, eqb, ℤ, pos,
  if◌then◌else◌, contains,
}
use socket_to_ciphertext.Prelude.Assoc.{Dict, get}
use socket_to_ciphertext.Wire.Value.{
  Value, null, bool, int, float, str, obj, entries, or_null, truthy,
}

pub data MessageType : Type 0 where
  register login get_key msg create_room join leave invite add_contact remove_contact : MessageType
  typing receipt history ping : MessageType
  ok error login_ok key ack room_state contacts history_result pong presence : MessageType

-- The value that travels on the wire.
unfoldable pub wire_name : MessageType → String
wire_name MessageType.register = "REGISTER"
wire_name MessageType.login = "LOGIN"
wire_name MessageType.get_key = "GET_KEY"
wire_name MessageType.msg = "MSG"
wire_name MessageType.create_room = "CREATE_ROOM"
wire_name MessageType.join = "JOIN"
wire_name MessageType.leave = "LEAVE"
wire_name MessageType.invite = "INVITE"
wire_name MessageType.add_contact = "ADD_CONTACT"
wire_name MessageType.remove_contact = "REMOVE_CONTACT"
wire_name MessageType.typing = "TYPING"
wire_name MessageType.receipt = "RECEIPT"
wire_name MessageType.history = "HISTORY"
wire_name MessageType.ping = "PING"
wire_name MessageType.ok = "OK"
wire_name MessageType.error = "ERROR"
wire_name MessageType.login_ok = "LOGIN_OK"
wire_name MessageType.key = "KEY"
wire_name MessageType.ack = "ACK"
wire_name MessageType.room_state = "ROOM_STATE"
wire_name MessageType.contacts = "CONTACTS"
wire_name MessageType.history_result = "HISTORY_RESULT"
wire_name MessageType.pong = "PONG"
wire_name MessageType.presence = "PRESENCE"

abbrev all_types : List MessageType
all_types =
    MessageType.register ∷ MessageType.login ∷ MessageType.get_key ∷ MessageType.msg
    ∷ MessageType.create_room ∷ MessageType.join ∷ MessageType.leave ∷ MessageType.invite
    ∷ MessageType.add_contact ∷ MessageType.remove_contact ∷ MessageType.typing
    ∷ MessageType.receipt ∷ MessageType.history ∷ MessageType.ping ∷ MessageType.ok
    ∷ MessageType.error ∷ MessageType.login_ok ∷ MessageType.key ∷ MessageType.ack
    ∷ MessageType.room_state ∷ MessageType.contacts ∷ MessageType.history_result ∷ MessageType.pong
    ∷ MessageType.presence ∷ []

find_type : List MessageType → String → Option MessageType
find_type [] name = none
find_type (t ∷ ts) name = if wire_name t == name then some t else find_type ts name

-- `MessageType(raw_type)`: the member with this value; no value but a text is one.
pub type_named : Value → Option MessageType
unfolding find_type wire_name
type_named (str name) = find_type all_types name
type_named v = none

-- `None` is `none`. `v` keeps the very value that compared equal to the version.
pub record Frame : Type 0 where
  pub type : MessageType
  pub sender : Option String
  pub to : Option String
  pub body : Option String
  pub nonce : Option String
  pub payload : Dict Value
  pub id : String
  pub ts : ℤ
  pub v : Value

abbrev pub reserved : List String
reserved = "v" ∷ "id" ∷ "type" ∷ "ts" ∷ "from" ∷ "to" ∷ "body" ∷ "n" ∷ []

abbrev pub is_reserved : String → Bool
is_reserved k = contains reserved k

-- What `ProtocolError` says; the last is the one of `to_dict`.
pub data ProtocolError : Type 0 where
  not_an_object no_type bad_ts : ProtocolError
  bad_version unknown_type : Value → ProtocolError
  collides : String → ProtocolError

pub data Encoded : Type 0 where
  wire : Dict Value → Encoded
  refused : ProtocolError → Encoded

abbrev optional : String → Option String → Dict Value → Dict Value
optional k none d = d
optional k (some s) d = (k, str s) ∷ d

-- The loop over `data.items()`; keys are distinct, so each assignment appends.
pub copy_payload : Dict Value → Dict Value → Encoded
copy_payload [] out = wire out
copy_payload ((k, x) ∷ rest) out =
    let next = copy_payload rest (out ++ (k, x) ∷ []) in
    if is_reserved k then refused (collides k) else next

pub head_entries : Frame → Dict Value
head_entries f =
    ("v", f.v)
    ∷ ("id", str f.id)
    ∷ ("type", str (wire_name f.type))
    ∷ ("ts", int f.ts)
    ∷ optional "from" f.sender
        (optional "to" f.to (optional "body" f.body (optional "n" f.nonce [])))

unfoldable pub to_dict : Frame → Encoded
unfolding copy_payload head_entries wire_name
to_dict f = copy_payload f.payload (head_entries f)

-- `version == 1`: also true of `True` and of 1.0.
abbrev pub is_version : Value → Bool
is_version (int (pos n)) = eqb n 1
is_version (bool b) = b
is_version (float bits) = eqb bits 4607182418800017408
is_version v = false

-- `untyped`: a named field holds a value that its annotation excludes. The code does not look, and
-- builds the frame all the same; such frames are outside of this model.
pub data Decoded : Type 0 where
  frame : Frame → Decoded
  malformed : ProtocolError → Decoded
  untyped : Decoded

-- `raw.get(key)` where the annotation says `str | None`.
pub data Field : Type 0 where
  absent wrong : Field
  present : String → Field

abbrev pub read_field : Value → Field
read_field null = Field.absent
read_field (str s) = Field.present s
read_field v = Field.wrong

abbrev to_option : Field → Option String
to_option (Field.present s) = some s
to_option x = none

abbrev is_wrong : Field → Bool
is_wrong Field.wrong = true
is_wrong x = false

-- `raw.get("id") or new_id()`
abbrev id_or_new : Value → String → Field
id_or_new (str s) new = Field.present (if s == "" then new else s)
id_or_new v new = if truthy v then Field.wrong else Field.present new

-- `ts`: an int, and not a bool; a missing key reads the clock.
abbrev read_ts : Option Value → ℤ → Option ℤ
read_ts none now = some now
read_ts (some (int n)) now = some n
read_ts (some v) now = none

-- `{k: v for k, v in raw.items() if k not in _RESERVED}`
abbrev pub unreserved : Dict Value → Dict Value
unreserved [] = []
unreserved ((k, x) ∷ d) = if is_reserved k then unreserved d else (k, x) ∷ unreserved d

abbrev text_of : Field → String
text_of (Field.present s) = s
text_of x = ""

pub build : Dict Value → Value → MessageType → ℤ → String → Decoded
build raw version type ts new =
    let sender = read_field (or_null (get raw "from")) in
    let to = read_field (or_null (get raw "to")) in
    let body = read_field (or_null (get raw "body")) in
    let nonce = read_field (or_null (get raw "n")) in
    let id = id_or_new (or_null (get raw "id")) new in
    if is_wrong sender || is_wrong to || is_wrong body || is_wrong nonce || is_wrong id
    then untyped
    else frame (record {
      type = type;
      sender = to_option sender;
      to = to_option to;
      body = to_option body;
      nonce = to_option nonce;
      payload = unreserved raw;
      id = text_of id;
      ts = ts;
      v = version;
    })

-- The version that a missing key stands for.
abbrev or_version : Option Value → Value
or_version none = int (pos 1)
or_version (some v) = v

abbrev type_error : Value → ProtocolError
type_error null = no_type
type_error v = unknown_type v

pub from_entries : Dict Value → String → ℤ → Decoded
unfolding build type_named
from_entries raw new now =
    let version = or_version (get raw "v") in
    let raw_type = or_null (get raw "type") in
    if is_version version
    then elim (type_named raw_type) [
      | none ↦ malformed (type_error raw_type)
      | some type ↦ elim (read_ts (get raw "ts") now) [
        | none ↦ malformed bad_ts
        | some ts ↦ build raw version type ts new
      ]
    ]
    else malformed (bad_version version)

-- `Frame.from_dict(raw)`, with what `new_id()` and `now_ms()` answer if they are called.
unfoldable pub from_dict : Value → String → ℤ → Decoded
unfolding from_entries
from_dict (obj fs) new now = from_entries (entries fs) new now
from_dict v new now = malformed not_an_object
