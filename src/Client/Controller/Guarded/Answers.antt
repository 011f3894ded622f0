-- ===== src/Client/Controller/Guarded/Answers.antt =====
-- ChatController: what answers a request keeps the keyring and sends no body in the clear.
use socket_to_ciphertext.Prelude.{
  ℤ, pos, negsuc, String, Bool, true, false, ◌&&◌, ◌||◌, Option, none, some, List, [], ◌==◌, map,
  eqb, if◌then◌else◌,
}
use socket_to_ciphertext.Prelude.Assoc.{Dict, get, has}
use socket_to_ciphertext.Wire.Value.{Value, bool, int, obj, entries, truthy, or_null}
use socket_to_ciphertext.Wire.Frame.{Frame}
use socket_to_ciphertext.Server.Env.{py_str}
use socket_to_ciphertext.Crypto.Primitives.{Bytes}
use socket_to_ciphertext.Client.Conversation.{Message}
use socket_to_ciphertext.Client.Chat
use socket_to_ciphertext.Client.Controller.{
  Outside, Controller, Action, ◌>>=◌, ◌>>◌, return, raise, skip, when, update,
}
use socket_to_ciphertext.Client.Controller.Gestures.{or_else, select}
use socket_to_ciphertext.Client.Controller.Inbound
use socket_to_ciphertext.Client.Controller.Inbound.{
  list_of, with_list, each_result, read_clock, open_by, is_member, set_contacts, read_contacts,
  replace_contacts, open_pending, open_pending_user, expects, show_room, room_of, room_state,
  join_instead, on_error, error, text_at, text_if, logged_in, presence,
}
use socket_to_ciphertext.Client.Controller.History.{
  peer_of, stored_plaintext, stored_ts, stored_row, history_result, is_author,
}
use socket_to_ciphertext.Client.Controller.Guarded.{
  Guarded, Preserves, bind-Preserves, then-Preserves, when-Preserves,
}
use socket_to_ciphertext.Client.Controller.Guarded.Sending.{
  if-Guarded, if-Preserves, select-Preserves, join_and_invite-Preserves,
}
use socket_to_ciphertext.Client.Controller.Guarded.Inbound.{
  each_result-Preserves, with_list-Preserves, open_by-Preserves,
}

module _ (o : Outside) (i : Bytes) where
  set_contacts-Preserves : (d : Option (Dict Bool)) → Preserves o i (set_contacts o d)
  set_contacts-Preserves none c g = g
  set_contacts-Preserves (some d) c g = g

  pub replace_contacts-Preserves :
      (payload : Dict Value) → Preserves o i (replace_contacts o payload)
  unfolding replace_contacts
  replace_contacts-Preserves payload =
      with_list-Preserves o i (list_of (or_null (get payload "contacts")))
        (λ vs. set_contacts o (read_contacts o vs []))
        (λ vs. set_contacts-Preserves (read_contacts o vs []))

  pub open_pending_user-Preserves : Preserves o i (open_pending_user o)
  unfolding open_pending_user
  open_pending_user-Preserves c g = by_pending c.pending_user
    where
      by_pending : (user : Option String) → Guarded o i (open_pending o user c).0
      by_pending none = g
      by_pending (some user) =
          let asked : Controller = record c { pending_user = none } in
          if-Guarded o i (has c.model.contacts user) (select o user asked) (c, some tt)
            (select-Preserves o i user asked g) g

  show_room-Preserves : (room : String) → Preserves o i (show_room o room)
  unfolding show_room
  show_room-Preserves room c g =
      let asked : Controller = record c { pending_room = none } in
      if-Guarded o i
        (expects o c.pending_room room
          && is_member (Chat.room_members c.model room) c.model.username)
        (select o room asked) (c, some tt) (select-Preserves o i room asked g) g

  pub room_state-Preserves : (f : Frame) → Preserves o i (room_state o f)
  unfolding room_state
  room_state-Preserves f =
      if-Preserves o i (room_of o f == "") skip (with_list l next) (λ c g. g)
        (with_list-Preserves o i l next (λ names.
          then-Preserves o i (notes names) (show_room o (room_of o f)) (λ c g. g)
            (show_room-Preserves (room_of o f))))
    where
      l : Option (List Value)
      l = list_of (or_null (get f.payload "members"))

      notes : List Value → Action (Unit {0})
      notes names = update (λ m. Chat.set_room_members m (room_of o f) (map (py_str o.env) names))

      next : List Value → Action (Unit {0})
      next names = notes names >> show_room o (room_of o f)

  join_instead-Preserves :
      (asked : Option (String × List String)) → Preserves o i (join_instead o asked)
  join_instead-Preserves none c g = g
  join_instead-Preserves (some (room, members)) c g = join_and_invite-Preserves o i room members c g

  on_error-Preserves : (code : String) → Preserves o i (on_error o code)
  unfolding on_error
  on_error-Preserves code c g =
      by_code (code == "NO_SUCH_USER") (code == "ROOM_EXISTS")
        (code == "NO_SUCH_ROOM" || code == "BAD_ROOM")
    where
      by_code :
          (a b d : Bool)
          → Guarded o i
              (if◌then◌else◌ {A = Controller × Option (Unit {0})} a
                (record c { pending_user = none }, some tt)
                (if◌then◌else◌ {A = Controller × Option (Unit {0})} b
                  (join_instead o c.pending_room c)
                  (if d then (record c { pending_room = none }, some tt) else (c, some tt)))).0
      by_code true b d = g
      by_code false true d = join_instead-Preserves c.pending_room c g
      by_code false false true = g
      by_code false false false = g

  pub error-Preserves : (payload : Dict Value) → Preserves o i (error o payload)
  unfolding error
  error-Preserves payload =
      let code = text_at o payload "code" "ERROR" in
      then-Preserves o i (on_error o code)
        (update (λ m. Chat.raise_error m code (text_at o payload "message" "")))
        (on_error-Preserves code) (λ c g. g)

  pub logged_in-Preserves : (payload : Dict Value) → Preserves o i (logged_in o payload)
  unfolding logged_in
  logged_in-Preserves payload =
      then-Preserves o i (knows_me >> with_list l notes) (replace_contacts o payload)
        (then-Preserves o i knows_me (with_list l notes)
          (when-Preserves o i (truthy username) (update named) (λ c g. g))
          (with_list-Preserves o i l notes (λ names c g. g)))
        (replace_contacts-Preserves payload)
    where
      username : Value
      username = or_null (get payload "user")

      named : Chat.ChatModel → Chat.ChatModel
      named m = Chat.set_identity m (py_str o.env username)

      knows_me : Action (Unit {0})
      knows_me = when (truthy username) (update named)

      l : Option (List Value)
      l = list_of (or_null (get payload "roster"))

      notes : List Value → Action (Unit {0})
      notes names = update (λ m. Chat.replace_roster m (map (py_str o.env) names))

  pub presence-Preserves : (payload : Dict Value) → Preserves o i (presence o payload)
  unfolding presence
  presence-Preserves payload =
      when-Preserves o i (truthy (or_null (get payload "user"))) _ (λ c g. g)

  pub typing-Preserves : (f : Frame) → Preserves o i (Inbound.typing o f)
  unfolding Inbound.typing
  typing-Preserves f = when-Preserves o i (Inbound.filled f.sender) _ (λ c g. g)

  pub receipt-Preserves : (f : Frame) → Preserves o i (Inbound.receipt o f)
  unfolding Inbound.receipt
  receipt-Preserves f =
      when-Preserves o i
        (truthy (or_null (get f.payload "ref"))
          && truthy (or_null (get f.payload "state"))
          && Inbound.filled f.sender)
        _ (λ c g. g)

  stored_plaintext-Preserves :
      (row : Dict Value) (key me : String) → Preserves o i (stored_plaintext o row key me)
  unfolding stored_plaintext
  stored_plaintext-Preserves row key me c g =
      let author = text_if o row "from" in
      open_by-Preserves o i c.keyring (peer_of o author key me) (text_if o row "body")
        (text_if o row "n") author g.0 c g

  now_or-Preserves :
      (b : Bool) (m : Action ℤ) → Preserves o i m → Preserves o i (if b then read_clock o else m)
  now_or-Preserves b m h = if-Preserves o i b (read_clock o) m (λ c g. g) h

  stored_ts-Preserves : (v : Value) → Preserves o i (stored_ts o v)
  stored_ts-Preserves (int (pos n)) = now_or-Preserves (eqb n 0) (return (pos n)) (λ c g. g)
  stored_ts-Preserves (int (negsuc n)) = λ c g. g
  stored_ts-Preserves (bool true) = λ c g. g
  stored_ts-Preserves v = if-Preserves o i (truthy v) raise (read_clock o) (λ c g. g) (λ c g. g)

  stored_row-Preserves : (key : String) (v : Value) → Preserves o i (stored_row o key v)
  unfolding stored_row
  stored_row-Preserves key (obj fs) c g =
      bind-Preserves o i (stored_plaintext o row key me)
        (λ body. stored_ts o (or_null (get row "ts")) >>= λ ts. made body ts)
        (stored_plaintext-Preserves row key me)
        (λ body.
          bind-Preserves o i (stored_ts o (or_null (get row "ts"))) (made body)
            (stored_ts-Preserves (or_null (get row "ts"))) (λ ts d h. h))
        c g
    where
      row : Dict Value
      row = entries fs

      me : String
      me = or_else c.model.username ""

      made : String → ℤ → Action Message
      made body ts = return (record {
        id = text_at o row "id" "";
        sender = text_at o row "from" "?";
        body = body;
        ts = ts;
        mine = is_author (or_null (get row "from")) c.model.username;
        state = "SENT";
      })
  stored_row-Preserves key v c g = g

  pub history_result-Preserves : (f : Frame) → Preserves o i (history_result o f)
  unfolding history_result
  history_result-Preserves f =
      if-Preserves o i (key == "") skip (with_list l next) (λ c g. g)
        (with_list-Preserves o i l next (λ rows.
          bind-Preserves o i (each_result (stored_row o key) rows)
            (λ ms. update (λ m. Chat.load_history m key ms))
            (each_result-Preserves o i (stored_row o key) rows (stored_row-Preserves key))
            (λ ms c g. g)))
    where
      key : String
      key = room_of o f

      l : Option (List Value)
      l = list_of (or_null (get f.payload "messages"))

      next : List Value → Action (Unit {0})
      next rows =
          each_result (stored_row o key) rows >>= λ ms. update (λ m. Chat.load_history m key ms)
