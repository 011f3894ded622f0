-- ===== src/Client/Controller/Guarded/Sending.antt =====
-- ChatController: sending, and the gestures, keep the keyring and send no body in the clear.
use socket_to_ciphertext.Prelude.{
  ℕ, String, refl, Bool, true, false, not, ◌||◌, Option, none, some, List, [], ◌==◌, strip,
  is_blank, if◌then◌else◌,
}
use socket_to_ciphertext.Prelude.Assoc.{get, has, pop}
use socket_to_ciphertext.Wire.Frame.{Frame}
use socket_to_ciphertext.Crypto.Primitives.{Bytes}
use socket_to_ciphertext.Crypto.Keyring.{Keyring}
use socket_to_ciphertext.Client.Conversation.{Message}
use socket_to_ciphertext.Client.Chat
use socket_to_ciphertext.Client.Requests
use socket_to_ciphertext.Client.Controller.{
  Outside, Controller, Action, ◌>>=◌, ◌>>◌, return, skip, when, each, request,
}
use socket_to_ciphertext.Client.Controller.Gestures.{
  is_room, listed, or_else, is_named, is_empty, shown, send_to_room, send_to_person, send_by,
  send_on, send, put_back, send_all, release, read_receipt, not_mine, select, typing_on, typing,
  request_history_of, chosen, request_history, open_room, open_person, open_conversation,
}
use socket_to_ciphertext.Client.Controller.Guarded.{
  HasRing, Guarded, Preserves, bind-Preserves, then-Preserves, when-Preserves, attempt-Preserves,
  each-Preserves, request-Preserves,
}
use socket_to_ciphertext.Client.Controller.Guarded.Gestures.{
  send_to_room-Preserves, send_to_person-Preserves,
}

module _ (o : Outside) (i : Bytes) where
  -- Two operations, one of which runs.
  pub if-Guarded :
      {A : Type 0} (b : Bool) (x y : Controller × Option A)
      → Guarded o i x.0
      → Guarded o i y.0
      → Guarded o i (if b then x else y).0
  if-Guarded true x y g h = g
  if-Guarded false x y g h = h

  pub if-Preserves :
      {A : Type 0} (b : Bool) (m n : Action A)
      → Preserves o i m
      → Preserves o i n
      → Preserves o i (if b then m else n)
  if-Preserves true m n h k c g = h c g
  if-Preserves false m n h k c g = k c g

  shown-Preserves :
      (target me text : String) (f : Option Frame) → Preserves o i (shown o target me text f)
  shown-Preserves target me text none c g = g
  shown-Preserves target me text (some f) c g = g

  send_by-Preserves :
      (k : Option Keyring) (target text me : String)
      → HasRing o i k
      → Preserves o i (send_by o k target text me)
  send_by-Preserves none target text me ring c g = absurd (let e = ring.present in cc)
  send_by-Preserves (some r) target text me ring c g =
      if-Preserves (is_room target) (send_to_room o r target text me)
        (send_to_person o r target text me) (send_to_room-Preserves o i r target text me ring)
        (send_to_person-Preserves o i r target text me ring) c g

  pub send-Preserves : (text : String) → Preserves o i (send o text)
  unfolding send
  send-Preserves text c g = by_active c.model.active
    where
      by_active : (target : Option String) → Guarded o i (send_on o target text c).0
      by_active none = g
      by_active (some target) =
          let me = or_else c.model.username "me" in
          if-Guarded (is_blank text) (c, some none)
            ((send_by o c.keyring target text me >>= shown o target me text) c) g
            (bind-Preserves o i (send_by o c.keyring target text me) (shown o target me text)
              (send_by-Preserves c.keyring target text me g.0) (shown-Preserves target me text) c g)

  put_back-Guarded :
      (previous : Option String) (x : Controller × Option (Unit {0}))
      → Guarded o i x.0
      → Guarded o i (put_back o previous x).0
  put_back-Guarded previous (c, r) g = g

  pub release-Preserves : (user : String) → Preserves o i (release o user)
  unfolding release
  release-Preserves user c g =
      let waiting = listed (get c.held user) in
      let rest : Controller = record c { held = pop c.held user } in
      let on : Controller = record rest { model = record (rest.model) { active = some user } } in
      if-Guarded (is_empty waiting) (rest, some tt)
        (put_back o rest.model.active (send_all o waiting on)) g
        (put_back-Guarded rest.model.active (send_all o waiting on) (
          each-Preserves o i (λ text. send o text >> skip) waiting
            (λ text. then-Preserves o i (send o text) skip (send-Preserves text) (λ d h. h)) on g))

  read_receipt-Preserves : (m : Message) → Preserves o i (read_receipt o m)
  read_receipt-Preserves m =
      attempt-Preserves o i (request o (Requests.receipt m.sender m.id "READ"))
        (request-Preserves o i (Requests.receipt m.sender m.id "READ") (λ id ts. refl))

  pub select-Preserves : (key : String) → Preserves o i (select o key)
  unfolding select
  select-Preserves key c g =
      let unread = not_mine o c.model key in
      let now = Chat.select (Chat.keep c.model key (Chat.conversation c.model key)) (some key) in
      when-Preserves o i (not (is_room key)) (each (read_receipt o) unread)
        (each-Preserves o i (read_receipt o) unread read_receipt-Preserves)
        (record c { model = now }) g

  pub typing-Preserves : (on : Bool) → Preserves o i (typing o on)
  unfolding typing
  typing-Preserves on c g = by_active c.model.active
    where
      by_active : (k : Option String) → Guarded o i (typing_on o k on c).0
      by_active none = g
      by_active (some k) = request-Preserves o i (Requests.typing k on) (λ id ts. refl) c g

  pub request_history-Preserves :
      (key : Option String) (limit : ℕ) → Preserves o i (request_history o key limit)
  unfolding request_history
  request_history-Preserves key limit c g = by_target (chosen o key c.model.active)
    where
      by_target : (k : Option String) → Guarded o i (request_history_of o k limit c).0
      by_target none = g
      by_target (some k) =
          then-Preserves o i (request o (Requests.history k limit)) (return true)
            (request-Preserves o i (Requests.history k limit) (λ id ts. refl)) (λ d h. h) c g

  -- JOIN, and an INVITE if there is somebody to invite.
  pub join_and_invite-Preserves :
      (room : String) (members : List String)
      → Preserves o i (
          request o (Requests.join room)
          >> when (not (is_empty members)) (request o (Requests.invite room members)))
  join_and_invite-Preserves room members =
      then-Preserves o i (request o (Requests.join room))
        (when (not (is_empty members)) (request o (Requests.invite room members)))
        (request-Preserves o i (Requests.join room) (λ id ts. refl))
        (when-Preserves o i (not (is_empty members)) (request o (Requests.invite room members))
          (request-Preserves o i (Requests.invite room members) (λ id ts. refl)))

  pub open_room-Preserves :
      (room : String) (members : List String) → Preserves o i (open_room o room members)
  unfolding open_room
  open_room-Preserves room members c g =
      let asked : Controller = record c { pending_room = some (room, members) } in
      if-Guarded (has c.model.rooms room)
        ((request o (Requests.join room)
            >> when (not (is_empty members)) (request o (Requests.invite room members)))
          asked)
        (request o (Requests.create_room room members) asked)
        (join_and_invite-Preserves room members asked g)
        (request-Preserves o i (Requests.create_room room members) (λ id ts. refl) asked g)

  open_person-Preserves : (user : String) → Preserves o i (open_person o user)
  open_person-Preserves user c g =
      let told : Controller = record c {
        model = Chat.raise_error c.model "BAD_CONTACT" "you cannot message yourself";
      } in
      let asked : Controller = record c { pending_user = some user } in
      let later = request o (Requests.add_contact user) asked in
      if-Guarded (is_named c.model.username user) (told, some tt)
        (if has c.model.contacts user || has c.model.roster user then select o user c else later) g
        (if-Guarded (has c.model.contacts user || has c.model.roster user) (select o user c) later
          (select-Preserves user c g)
          (request-Preserves o i (Requests.add_contact user) (λ id ts. refl) asked g))

  pub open_conversation-Preserves : (typed : String) → Preserves o i (open_conversation o typed)
  unfolding open_conversation
  open_conversation-Preserves typed c g = by_name (strip typed == "") (is_room (strip typed))
    where
      user : String
      user = strip typed

      by_name :
          (b r : Bool)
          → Guarded o i
              ((if◌then◌else◌ {A = Action (Unit {0})} b skip
                  (if r then open_room o user [] else open_person o user))
                c).0
      by_name true r = g
      by_name false true = open_room-Preserves user [] c g
      by_name false false = open_person-Preserves user c g
