-- ===== src/Server/Router/Sending/Dispatch.antt =====
-- The handlers for history, receipts, typing hints and keys, and the dispatch, by the rules of
-- `Sends`.
use socket_to_ciphertext.Prelude.{String, refl, not, Option, none, some, List, ◌==◌, inr, contains}
use socket_to_ciphertext.Prelude.Assoc.{get}
use socket_to_ciphertext.Wire.Value.{Value, or_null, truthy}
use socket_to_ciphertext.Wire.Frame.{Frame, MessageType}
use socket_to_ciphertext.Server.Env.{Env, py_str}
use socket_to_ciphertext.Server.Registry.{Conn}
use socket_to_ciphertext.Server.Store.Users
use socket_to_ciphertext.Server.Store.Rooms
use socket_to_ciphertext.Server.Store.Messages
use socket_to_ciphertext.Server.Store.Messages.{direct_conversation}
use socket_to_ciphertext.Server.Router.World.{World, world, is_room, tick}
use socket_to_ciphertext.Server.Router.Contacts.{or_empty}
use socket_to_ciphertext.Server.Router.Accounts.{get_key, key_reply}
use socket_to_ciphertext.Server.Router.History.{
  send_history, answer_history, history, history_target, notify_sender, receipt, typing_recipients,
  typing, receipt_state, read_before, read_limit,
}
use socket_to_ciphertext.Server.Router.Handle.{dispatch}
use socket_to_ciphertext.Server.Router.Rows.{history_entries}
use socket_to_ciphertext.Server.Router.Sending.{
  Sends, Sends-none, Sends-refl, Sends-trans, Sends-send_to, Sends-send_each, Sends-if,
  Sends-option,
}
use socket_to_ciphertext.Server.Router.Sending.Handlers.{
  Attributed, refuse-Sends, post-Sends, add_contact-Sends, remove_contact-Sends,
}
use socket_to_ciphertext.Server.Router.Sending.Rooms.{
  create_room-Sends, invite-Sends, join-Sends, leave-Sends,
}
use socket_to_ciphertext.Server.Router.Sending.Messages.{
  message-Sends, Sends-world-if, Sends-world-option,
}

module _ (env : Env) (me : String) where
  send_history-Sends :
      (w : World) (c : Conn) (target : String) (es : Option (List Value))
      → Sends (Attributed me) w (world (send_history env w c target es))
  send_history-Sends w c target none = Sends-refl w
  send_history-Sends w c target (some es) = post-Sends env me w c _ _ _

  answer_history-Sends :
      (w : World) (c : Conn) (t : Messages.Messages) (target conversation : String) (frame : Frame)
      → Sends (Attributed me) w (world (answer_history env w c t me target conversation frame))
  unfolding answer_history
  answer_history-Sends w c t target conversation frame =
      Sends-world-option env me (read_before env (or_null (get frame.payload "before"))) w _ _
        (λ _. Sends-refl w)
        λ before _.
          Sends-world-option env me (read_limit env (or_null (get frame.payload "limit"))) w _ _
            (λ _. Sends-refl w)
            λ limit _.
              Sends-world-option env me (Messages.history t conversation before limit) w _ _
                (λ _. Sends-refl w)
                λ rows _. send_history-Sends w c target (history_entries env rows me)

  history-Sends :
      (w : World) (c : Conn) (frame : Frame)
      → Sends (Attributed me) w (world (history env w c me frame))
  unfolding history
  history-Sends w c frame =
      Sends-world-option env me w.messages w _ _ (λ _. refuse-Sends env me w c _ _)
        λ t _.
          let target : String = py_str env (history_target env frame) in
          Sends-world-if env me (not (truthy (history_target env frame))) w _ _
            (λ _. refuse-Sends env me w c _ _)
            λ _.
              Sends-world-if env me (is_room target) w _ _
                (λ _.
                  Sends-world-if env me (contains (Rooms.members w.rooms target) me) w _ _
                    (λ _. answer_history-Sends w c t target target frame)
                    (λ _. refuse-Sends env me w c _ _))
                (λ _. answer_history-Sends w c t target (direct_conversation me target) frame)

  notify_sender-Sends :
      (w : World) (o : Option String) (ref state : Value)
      → Sends (Attributed me) w (notify_sender env w me o ref state)
  unfolding Attributed
  notify_sender-Sends w none ref state = Sends-refl w
  notify_sender-Sends w (some sender) ref state =
      Sends-if (sender == me) w _ _ (λ _. Sends-refl w)
        λ _.
          Sends-option (get w.sessions sender) w _ _ (λ _. Sends-refl w)
            λ theirs _.
              Sends-trans (Sends-none w (tick env w) refl refl refl refl)
                (Sends-send_to (tick env w) sender _ (λ c _. inr refl))

  receipt-Sends :
      (w : World) (c : Conn) (frame : Frame) → Sends (Attributed me) w (receipt env w c me frame)
  unfolding receipt
  receipt-Sends w c frame =
      Sends-option w.messages w _ _ (λ _. Sends-refl w)
        λ t _.
          let ref : Value = or_null (get frame.payload "ref") in
          let state : Value = or_null (get frame.payload "state") in
          Sends-option (receipt_state state) w _ _ (λ _. refuse-Sends env me w c _ _)
            λ s _.
              let (t', sender) = Messages.mark t (py_str env ref) s (env.now_ms w.calls) in
              let x : World = tick env (record w { messages = some t' }) in
              Sends-if (not (truthy ref)) w _ _ (λ _. refuse-Sends env me w c _ _)
                λ _.
                  Sends-trans (Sends-none w x refl refl refl refl)
                    (notify_sender-Sends x sender ref state)

  typing-Sends :
      (w : World) (c : Conn) (frame : Frame) → Sends (Attributed me) w (typing env w c me frame)
  unfolding typing Attributed
  typing-Sends w c frame =
      let target : String = or_empty frame.to in
      Sends-if (target == "") w _ _ (λ _. Sends-refl w)
        λ _.
          Sends-option (typing_recipients env w me target) w _ _
            (λ _. Sends-none w (tick env w) refl refl refl refl)
            λ names _.
              Sends-trans (Sends-none w (tick env w) refl refl refl refl)
                (Sends-send_each (tick env w) names _ (λ c. inr refl))

  key_reply-Sends :
      (w : World) (c : Conn) (user : String) (key : Option String)
      → Sends (Attributed me) w (key_reply env w c user key)
  key_reply-Sends w c user none = refuse-Sends env me w c _ _
  key_reply-Sends w c user (some pubkey) = post-Sends env me w c _ _ _

  get_key-Sends :
      (w : World) (c : Conn) (frame : Frame) → Sends (Attributed me) w (get_key env w c frame)
  unfolding get_key
  get_key-Sends w c frame =
      let user : Value = or_null (get frame.payload "user") in
      Sends-if (not (truthy user)) w _ _ (λ _. refuse-Sends env me w c _ _)
        λ _. key_reply-Sends w c (py_str env user) (Users.pubkey w.users (py_str env user))

  -- Whatever a logged-in connection sends, nobody is logged in or out by it, no account changes, and
  -- every frame that goes out on account of it names no sender or the user of that connection.
  pub dispatch-Sends :
      (w : World) (c : Conn) (type : MessageType) (frame : Frame)
      → Sends (Attributed me) w (world (dispatch env w c me type frame))
  unfolding dispatch
  dispatch-Sends w c MessageType.msg frame = message-Sends env me w c frame
  dispatch-Sends w c MessageType.create_room frame = create_room-Sends env me w c frame
  dispatch-Sends w c MessageType.join frame = join-Sends env me w c frame
  dispatch-Sends w c MessageType.leave frame = leave-Sends env me w c frame
  dispatch-Sends w c MessageType.invite frame = invite-Sends env me w c frame
  dispatch-Sends w c MessageType.add_contact frame = add_contact-Sends env me w c frame
  dispatch-Sends w c MessageType.remove_contact frame = remove_contact-Sends env me w c frame
  dispatch-Sends w c MessageType.typing frame = typing-Sends w c frame
  dispatch-Sends w c MessageType.receipt frame = receipt-Sends w c frame
  dispatch-Sends w c MessageType.history frame = history-Sends w c frame
  dispatch-Sends w c MessageType.get_key frame = get_key-Sends w c frame
  dispatch-Sends w c _ frame = refuse-Sends env me w c _ _
