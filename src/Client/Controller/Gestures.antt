-- ===== src/Client/Controller/Gestures.antt =====
-- ChatController: what the user asks for, and what is held until a key arrives.
use socket_to_ciphertext.Prelude.{
  ℕ, String, Bool, true, false, not, ◌||◌, Option, none, some, List, [], ◌∷◌, ◌++◌, ◌==◌, keep_if,
  starts_with, eqb, is_blank, strip, if◌then◌else◌,
}
use socket_to_ciphertext.Prelude.Assoc.{Dict, get, has, put, pop}
use socket_to_ciphertext.Wire.Frame.{Frame}
use socket_to_ciphertext.Crypto.Keyring.{
  Keyring, Sealed, sealed, no_key, sealing_failed, Envelopes, envelopes, incomplete, failed,
  missing_keys, seal_for, seal_for_members,
}
use socket_to_ciphertext.Client.Conversation.{Message}
use socket_to_ciphertext.Client.Chat
use socket_to_ciphertext.Client.Requests
use socket_to_ciphertext.Client.Controller.{
  Outside, Controller, Action, ◌>>=◌, ◌>>◌, return, skip, when, attempt, each, update, submit,
  request,
}

-- ROOM_PREFIX
abbrev pub is_room : String → Bool
is_room key = starts_with key "#"

abbrev pub listed {ℓ} : {A : Type ℓ} → Option (List A) → List A
listed none = []
listed (some xs) = xs

-- `name or s`
abbrev pub or_else : Option String → String → String
or_else none s = s
or_else (some t) s = if t == "" then s else t

-- The keyring that an operation has changed is the one that the controller holds.
abbrev pub with_keyring : Controller → Keyring → Controller
with_keyring c r = record c { keyring = some r }

abbrev pub is_named : Option String → String → Bool
is_named none name = false
is_named (some me) name = name == me

abbrev pub is_empty {ℓ} : {A : Type ℓ} → List A → Bool
is_empty [] = true
is_empty (x ∷ xs) = false

module _ (o : Outside) where
  abbrev pub ask_key : String → Action (Unit {0})
  ask_key user = request o (Requests.get_key user)

  -- `_hold`; `fetch` is `[target]` where the source gives None.
  unfoldable pub hold : String → String → List String → Action (Unit {0})
  unfolding submit
  hold target text fetch c =
      let first = not (has c.held target) in
      let waiting = listed (get c.held target) ++ text ∷ [] in
      when first (each ask_key fetch) (record c { held = put c.held target waiting })

  -- The message that is shown for a frame of one's own.
  abbrev pub own_message : String → String → Frame → Message
  own_message me text f = record {
    id = f.id;
    sender = me;
    body = text;
    ts = f.ts;
    mine = true;
    state = "SENT";
  }

  -- What was typed goes into the model; no frame, no message.
  abbrev pub shown : String → String → String → Option Frame → Action (Option Message)
  shown target me text none = return none
  shown target me text (some f) =
      update (λ m. Chat.add_message m target (own_message me text f))
      >> return (some (own_message me text f))

  abbrev pub post : String → String → Option String → Dict (String × String) → Action (Option Frame)
  post target body nonce envs =
      submit o (Requests.message target body nonce envs) >>= λ f. return (some f)

  abbrev pub held_back : String → String → List String → Action (Option Frame)
  held_back target text fetch = hold target text fetch >> return none

  -- `_send_to_room`, once every key is there.
  abbrev pub room_sealed :
      String → List String → String → Keyring × Envelopes → Action (Option Frame)
  room_sealed room members text (r, envelopes d) c = post room "" none d (with_keyring c r)
  room_sealed room members text (r, incomplete) c = held_back room text members (with_keyring c r)
  room_sealed room members text (r, failed) c = (with_keyring c r, none)

  abbrev pub others : List String → String → List String
  others members me = keep_if (λ name. not (name == me)) members

  unfoldable pub send_to_room : Keyring → String → String → String → Action (Option Frame)
  unfolding hold submit missing_keys seal_for_members
  send_to_room r room text me c =
      let members = Chat.room_members c.model room in
      let missing = missing_keys r (others members me) in
      if is_empty missing
      then room_sealed room members text (seal_for_members o.primitives r members text me) c
      else held_back room text missing c

  -- The other branch: one person.
  abbrev pub person_sealed : String → String → Keyring × Sealed → Action (Option Frame)
  person_sealed target text (r, sealed body n) c = post target body (some n) [] (with_keyring c r)
  person_sealed target text (r, no_key) c = held_back target text (target ∷ []) (with_keyring c r)
  person_sealed target text (r, sealing_failed) c = (with_keyring c r, none)

  unfoldable pub send_to_person : Keyring → String → String → String → Action (Option Frame)
  unfolding hold submit seal_for
  send_to_person r target text me =
      person_sealed target text (seal_for o.primitives r target text me)

  abbrev pub send_by : Option Keyring → String → String → String → Action (Option Frame)
  send_by none target text me = post target text none []
  send_by (some r) target text me =
      if is_room target then send_to_room r target text me else send_to_person r target text me

  abbrev pub send_on : Option String → String → Action (Option Message)
  send_on none text c = (c, some none)
  send_on (some target) text c =
      let me = or_else c.model.username "me" in
      if is_blank text
      then (c, some none)
      else (send_by c.keyring target text me >>= shown target me text) c

  unfoldable pub send : String → Action (Option Message)
  unfolding send_to_room send_to_person submit
  send text c = send_on c.model.active text c

  -- `finally`: the conversation on screen is put back, whatever was raised.
  abbrev pub put_back :
      Option String → Controller × Option (Unit {0}) → Controller × Option (Unit {0})
  put_back previous (c, r) = (record c { model = record (c.model) { active = previous } }, r)

  abbrev pub send_all : List String → Action (Unit {0})
  send_all = each (λ text. send text >> skip)

  unfoldable pub release : String → Action (Unit {0})
  unfolding send
  release user c =
      let waiting = listed (get c.held user) in
      let rest = record c { held = pop c.held user } in
      if is_empty waiting
      then (rest, some tt)
      else put_back rest.model.active
          (send_all waiting (record rest { model = record (rest.model) { active = some user } }))

  abbrev pub not_mine : Chat.ChatModel → String → List Message
  not_mine m key =
      let conversation = Chat.conversation m key in
      if eqb conversation.unread 0
      then []
      else keep_if (λ (x : Message). not x.mine) conversation.messages

  abbrev pub read_receipt : Message → Action (Unit {0})
  read_receipt m = attempt (request o (Requests.receipt m.sender m.id "READ"))

  unfoldable pub select : String → Action (Unit {0})
  unfolding submit
  select key c =
      let unread = not_mine c.model key in
      (update (λ m. Chat.select (Chat.keep m key (Chat.conversation m key)) (some key))
          >> when (not (is_room key)) (each read_receipt unread))
        c

  abbrev pub ping : Action (Unit {0})
  ping = request o Requests.ping

  abbrev pub typing_on : Option String → Bool → Action (Unit {0})
  typing_on none on = skip
  typing_on (some key) on = request o (Requests.typing key on)

  unfoldable pub typing : Bool → Action (Unit {0})
  unfolding submit
  typing on c = typing_on c.model.active on c

  abbrev pub request_history_of : Option String → ℕ → Action Bool
  request_history_of none limit = return false
  request_history_of (some target) limit = request o (Requests.history target limit) >> return true

  -- `key or self.model.active`
  abbrev pub chosen : Option String → Option String → Option String
  chosen none active = active
  chosen (some key) active = if key == "" then active else some key

  unfoldable pub request_history : Option String → ℕ → Action Bool
  unfolding submit
  request_history key limit c = request_history_of (chosen key c.model.active) limit c

  unfoldable pub open_room : String → List String → Action (Unit {0})
  unfolding submit
  open_room room members c =
      let asked = record c { pending_room = some (room, members) } in
      if has c.model.rooms room
      then (request o (Requests.join room)
            >> when (not (is_empty members)) (request o (Requests.invite room members)))
          asked
      else request o (Requests.create_room room members) asked

  abbrev pub open_person : String → Action (Unit {0})
  open_person user c =
      if is_named c.model.username user
      then update (λ m. Chat.raise_error m "BAD_CONTACT" "you cannot message yourself") c
      else if has c.model.contacts user || has c.model.roster user
      then select user c
      else request o (Requests.add_contact user) (record c { pending_user = some user })

  unfoldable pub open_conversation : String → Action (Unit {0})
  unfolding open_room select submit
  open_conversation typed =
      let user = strip typed in
      if user == "" then skip else if is_room user then open_room user [] else open_person user
