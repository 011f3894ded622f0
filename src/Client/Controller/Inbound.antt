-- ===== src/Client/Controller/Inbound.antt =====
-- ChatController: what the server sends, turned into changes of the model.
use socket_to_ciphertext.Prelude.{
  suc, String, Bool, false, not, ◌&&◌, ◌||◌, Option, none, some, List, [], ◌∷◌, ◌++◌, ◌==◌, ℤ, pos,
  keep_if, contains, eqb, map, if◌then◌else◌,
}
use socket_to_ciphertext.Prelude.Assoc.{Dict, get, has, put, pop, keys}
use socket_to_ciphertext.Wire.Value.{Value, str, arr, obj, items, entries, truthy, or_null}
use socket_to_ciphertext.Wire.Frame.{Frame}
use socket_to_ciphertext.Server.Env.{py_str}
use socket_to_ciphertext.Crypto.Envelope.{Body, plain, decryption_failed, not_utf8, bad_key}
use socket_to_ciphertext.Crypto.Keyring.{Keyring, knows, remember, missing_keys, open_from}
use socket_to_ciphertext.Client.Chat
use socket_to_ciphertext.Client.Requests
use socket_to_ciphertext.Client.Controller.{
  Outside, Controller, Action, ◌>>=◌, ◌>>◌, return, raise, skip, when, attempt, each, update,
  submit, request,
}
use socket_to_ciphertext.Client.Controller.Gestures.{
  is_room, listed, or_else, with_keyring, is_named, is_empty, ask_key, others, release, select,
}

abbrev pub undecryptable : String
undecryptable = "[could not decrypt this message]"

abbrev pub filled : Option String → Bool
filled none = false
filled (some s) = not (s == "")

abbrev pub text_or : Option String → String
text_or s = or_else s ""

-- `… or []`, then a loop over it.
abbrev pub list_of : Value → Option (List Value)
list_of (arr vs) = some (items vs)
list_of v = if truthy v then none else some []

abbrev pub each_result : {A B : Type 0} → (A → Action B) → List A → Action (List B)
each_result f [] = return []
each_result f (a ∷ as') = f a >>= λ b. each_result f as' >>= λ bs. return (b ∷ bs)

-- What is no list raises.
abbrev pub with_list : {A : Type 0} → Option (List Value) → (List Value → Action A) → Action A
with_list none f = raise
with_list (some vs) f = f vs

-- The conversation that a frame belongs to: the room, or the other person.
abbrev pub room_or : String → String → String
room_or target person = if is_room target then target else person

-- `peer == self.model.username`, `self.model.username in names`
abbrev pub is_member : List String → Option String → Bool
is_member names none = false
is_member names (some me) = contains names me

module _ (o : Outside) where
  -- `now_ms()`
  abbrev pub read_clock : Action ℤ
  read_clock c = (record c { calls = suc c.calls }, some (pos (o.env.now_ms c.calls)))

  -- What `open` answers: DecryptionFailed is shown in place, any other exception goes on.
  abbrev pub readable : Controller → Keyring × Body → Controller × Option String
  readable c (r, plain s) = (with_keyring c r, some s)
  readable c (r, decryption_failed) = (with_keyring c r, some undecryptable)
  readable c (r, not_utf8) = (with_keyring c r, none)
  readable c (r, bad_key) = (with_keyring c r, none)

  abbrev pub open_by : Option Keyring → String → String → String → String → Action String
  open_by none peer body nonce author c = (c, some body)
  open_by (some r) peer body nonce author c =
      if nonce == ""
      then (c, some body)
      else readable c (open_from o.primitives r peer body nonce author)

  -- `_plaintext`
  unfoldable pub plaintext : Frame → String → Action String
  unfolding open_from
  plaintext f peer c =
      open_by c.keyring peer (text_or f.body) (text_or f.nonce) (text_or f.sender) c

  abbrev pub ts_or_now : ℤ → Action ℤ
  ts_or_now (pos n) = if eqb n 0 then read_clock else return (pos n)
  ts_or_now ts = return ts

  -- `_file`
  unfoldable pub file : Frame → String → Action (Unit {0})
  unfolding plaintext submit
  file f key =
      when (filled f.sender && not (is_room key))
        (attempt (request o (Requests.receipt (text_or f.sender) f.id "DELIVERED")))
      >> plaintext f (or_else f.sender key)
      >>= λ body. ts_or_now f.ts >>= λ ts. update (λ m. Chat.add_message m key (record {
        id = f.id;
        sender = or_else f.sender "?";
        body = body;
        ts = ts;
        mine = false;
        state = "SENT";
      }))

  abbrev pub lacks_key : Option Keyring → String → Bool
  lacks_key none peer = false
  lacks_key (some r) peer = not (knows r peer)

  -- An encrypted frame of somebody whose key is not here waits for it.
  unfoldable pub await_key : String → Frame → Action (Unit {0})
  unfolding submit
  await_key peer f c =
      let first = not (has c.awaiting peer) in
      let waiting = listed (get c.awaiting peer) ++ f ∷ [] in
      when first (ask_key o peer) (record c { awaiting = put c.awaiting peer waiting })

  unfoldable pub incoming_message : Frame → Action (Unit {0})
  unfolding file await_key
  incoming_message f c =
      let key = room_or (text_or f.to) (or_else f.sender (text_or f.to)) in
      let peer = or_else f.sender key in
      if key == ""
      then (c, some tt)
      else if filled f.nonce && not (is_named c.model.username peer) && lacks_key c.keyring peer
      then await_key peer f c
      else file f key c

  -- `_deliver_awaiting`
  unfoldable pub deliver_awaiting : String → Action (Unit {0})
  unfolding file
  deliver_awaiting user c =
      each (λ (f : Frame). file f (room_or (text_or f.to) user)) (listed (get c.awaiting user))
        (record c { awaiting = pop c.awaiting user })

  -- `name != self.model.username`
  abbrev pub others_than : List String → Option String → List String
  others_than names none = names
  others_than names (some me) = others o names me

  abbrev pub all_known : Controller → String → Option Keyring → Bool
  all_known c room none = false
  all_known c room (some r) =
      is_empty (missing_keys r (others_than (Chat.room_members c.model room) c.model.username))

  unfoldable pub release_room : String → Action (Unit {0})
  unfolding release missing_keys
  release_room room c = when (all_known c room c.keyring) (release o room) c

  abbrev pub release_rooms : Action (Unit {0})
  release_rooms c = each release_room (keep_if is_room (keys c.held)) c

  abbrev pub learn : String → String → Option Keyring → Action (Unit {0})
  learn user pubkey none c = (c, some tt)
  learn user pubkey (some r) c =
      (release o user >> deliver_awaiting user >> release_rooms)
        (with_keyring c (remember r user pubkey))

  -- `_key`
  unfoldable pub key : Dict Value → Action (Unit {0})
  unfolding release deliver_awaiting release_room remember
  key payload c =
      let user = or_null (get payload "user") in
      let pubkey = or_null (get payload "pubkey") in
      if truthy user && truthy pubkey
      then learn (py_str o.env user) (py_str o.env pubkey) c.keyring c
      else (c, some tt)

  -- `_receipt`
  unfoldable pub receipt : Frame → Action (Unit {0})
  receipt f =
      let ref = or_null (get f.payload "ref") in
      let state = or_null (get f.payload "state") in
      when (truthy ref && truthy state && filled f.sender) (
        update (λ m. Chat.set_receipt m (text_or f.sender) (py_str o.env ref) (py_str o.env state)))

  abbrev pub is_text : Value → String → Bool
  is_text (str s) t = s == t
  is_text v t = false

  -- `_presence`
  unfoldable pub presence : Dict Value → Action (Unit {0})
  presence payload =
      let user = or_null (get payload "user") in
      when (truthy user) (
        update (λ m.
          Chat.set_presence m (py_str o.env user)
            (is_text (or_null (get payload "state")) "ONLINE")))

  -- `_typing`
  unfoldable pub typing : Frame → Action (Unit {0})
  typing f =
      let sender = text_or f.sender in
      when (filled f.sender) (
        update (λ m.
          Chat.set_typing m (room_or (text_or f.to) sender) sender
            (truthy (or_null (get f.payload "on")))))

  -- One entry of the comprehension in `replace_contacts`: no user, no entry.
  abbrev pub read_contact : Dict Value → Dict Bool → Dict Bool
  read_contact entry d =
      let user = or_null (get entry "user") in
      if truthy user then put d (py_str o.env user) (truthy (or_null (get entry "online"))) else d

  -- The comprehension; an entry that is no dictionary raises.
  abbrev pub read_contacts : List Value → Dict Bool → Option (Dict Bool)
  read_contacts [] d = some d
  read_contacts (obj fs ∷ vs) d = read_contacts vs (read_contact (entries fs) d)
  read_contacts (v ∷ vs) d = none

  abbrev pub set_contacts : Option (Dict Bool) → Action (Unit {0})
  set_contacts none = raise
  set_contacts (some fresh) = update (λ m. Chat.replace_contacts m fresh)

  unfoldable pub replace_contacts : Dict Value → Action (Unit {0})
  replace_contacts payload =
      with_list (list_of (or_null (get payload "contacts")))
        (λ vs. set_contacts (read_contacts vs []))

  abbrev pub open_pending : Option String → Action (Unit {0})
  open_pending none c = (c, some tt)
  open_pending (some user) c =
      if has c.model.contacts user
      then select o user (record c { pending_user = none })
      else (c, some tt)

  -- `_open_pending_user`
  unfoldable pub open_pending_user : Action (Unit {0})
  unfolding select
  open_pending_user c = open_pending c.pending_user c

  abbrev pub expects : Option (String × List String) → String → Bool
  expects none room = false
  expects (some (asked, members)) room = asked == room

  -- `frame.data.get("room") or frame.to`
  abbrev pub room_of : Frame → String
  room_of f =
      let room = or_null (get f.payload "room") in
      if truthy room then py_str o.env room else text_or f.to

  unfoldable pub show_room : String → Action (Unit {0})
  unfolding select
  show_room room c =
      if expects c.pending_room room && is_member (Chat.room_members c.model room) c.model.username
      then select o room (record c { pending_room = none })
      else (c, some tt)

  -- `_room_state`
  unfoldable pub room_state : Frame → Action (Unit {0})
  unfolding show_room
  room_state f =
      let room = room_of f in
      if room == ""
      then skip
      else with_list (list_of (or_null (get f.payload "members"))) (λ names.
        update (λ m. Chat.set_room_members m room (map (py_str o.env) names)) >> show_room room)

  abbrev pub join_instead : Option (String × List String) → Action (Unit {0})
  join_instead none = skip
  join_instead (some (room, members)) =
      request o (Requests.join room)
      >> when (not (is_empty members)) (request o (Requests.invite room members))

  -- `_on_error`
  unfoldable pub on_error : String → Action (Unit {0})
  unfolding submit
  on_error code c =
      if code == "NO_SUCH_USER"
      then (record c { pending_user = none }, some tt)
      else if code == "ROOM_EXISTS"
      then join_instead c.pending_room c
      else if code == "NO_SUCH_ROOM" || code == "BAD_ROOM"
      then (record c { pending_room = none }, some tt)
      else (c, some tt)

  -- `str(frame.data.get(key, missing))`
  abbrev pub text_at : Dict Value → String → String → String
  text_at payload name missing = elim (get payload name) [
    | none ↦ missing
    | some v ↦ py_str o.env v
  ]

  -- `str(row.get(key) or "")`
  abbrev pub text_if : Dict Value → String → String
  text_if row name = let v = or_null (get row name) in if truthy v then py_str o.env v else ""

  unfoldable pub error : Dict Value → Action (Unit {0})
  unfolding on_error
  error payload =
      let code = text_at payload "code" "ERROR" in
      on_error code >> update (λ m. Chat.raise_error m code (text_at payload "message" ""))

  -- `_logged_in`
  unfoldable pub logged_in : Dict Value → Action (Unit {0})
  unfolding replace_contacts
  logged_in payload =
      let username = or_null (get payload "user") in
      when (truthy username) (update (λ m. Chat.set_identity m (py_str o.env username)))
      >> with_list (list_of (or_null (get payload "roster")))
          (λ names. update (λ m. Chat.replace_roster m (map (py_str o.env) names)))
      >> replace_contacts payload
