-- ===== src/Server/Router/Sending/Rooms.antt =====
-- The handlers for rooms, messages, history, receipts and typing hints, and the dispatch.
use socket_to_ciphertext.Prelude.{
  String, ◌≡◌, refl, not, List, [], ◌∷◌, if◌then◌else◌, inl, contains, map, take,
}
use socket_to_ciphertext.Prelude.Assoc.{get}
use socket_to_ciphertext.Prelude.Sort.{sorted}
use socket_to_ciphertext.Wire.Value.{Value, or_null}
use socket_to_ciphertext.Wire.Frame.{Frame}
use socket_to_ciphertext.Server.Env.{Env, py_str}
use socket_to_ciphertext.Server.Registry.{Conn}
use socket_to_ciphertext.Server.Store.Rooms
use socket_to_ciphertext.Server.Router.World.{World, send, tick, refuse}
use socket_to_ciphertext.Server.Router.Membership.{
  RoomName, valid, invalid, room_name, list_of, join_room, may_be_added, add_names, add_members,
  room_state, broadcast_room_state, create_room, missing, report_missing, announce_added, invite_to,
  invite, join, leave,
}
use socket_to_ciphertext.Server.Router.Delivery.{message}
use socket_to_ciphertext.Server.Router.Sending.{
  Sends, Sends-none, Sends-refl, Sends-trans, Sends-send, Sends-send_each, Sends-if,
}
use socket_to_ciphertext.Server.Router.Sending.Handlers.{Attributed, refuse-Sends}

module _ (env : Env) (me : String) where
  add_names-Sends :
      (w : World) (room : String) (vs : List Value)
      → Sends (Attributed me) w (add_names env w room vs).0
  unfolding add_names
  add_names-Sends w room [] = Sends-refl w
  add_names-Sends w room (v ∷ vs) =
      Sends-trans
        (Sends-if (may_be_added env w (py_str env v)) w _ _
          (λ _. Sends-none w (join_room env w room (py_str env v)) refl refl refl refl)
          (λ _. Sends-refl w))
        (add_names-Sends
          (if may_be_added env w (py_str env v) then join_room env w room (py_str env v) else w)
          room vs)

  pub add_members-Sends :
      (w : World) (room : String) (wanted : Value)
      → Sends (Attributed me) w (add_members env w room wanted).0
  unfolding add_members
  add_members-Sends w room wanted = add_names-Sends w room (take 64 (list_of wanted))

  pub broadcast-Sends :
      (w : World) (room : String) → Sends (Attributed me) w (broadcast_room_state env w room)
  unfolding broadcast_room_state room_state Attributed
  broadcast-Sends w room = Sends-trans (Sends-none w (tick env w) refl refl refl refl) (
      Sends-send_each _ (sorted (Rooms.members w.rooms room)) (room_state env w room)
        (λ c. inl refl))

  -- The common start of the room handlers.
  named_room-Sends :
      (r : RoomName) (w : World) (c : Conn) (f : String → World)
      → ((room : String) → r ≡ valid room → Sends (Attributed me) w (f room))
      → Sends
          (Attributed me)
          w
          (elim r [ invalid message ↦ refuse env w c "BAD_ROOM" message | valid room ↦ f room ])
  named_room-Sends (valid room) w c f h = h room refl
  named_room-Sends (invalid message) w c f h = refuse-Sends env me w c _ message

  pub create_room-Sends :
      (w : World) (c : Conn) (frame : Frame)
      → Sends (Attributed me) w (create_room env w c me frame)
  unfolding create_room
  create_room-Sends w c frame = named_room-Sends (room_name frame) w c _ λ room _.
      let (rooms, made) = Rooms.create w.rooms room (env.now_ms w.calls) in
      let mine : World = join_room env (tick env (record w { rooms = rooms })) room me in
      let wanted : Value = or_null (get frame.payload "members") in
      Sends-if (not made) w _ _ (λ _. refuse-Sends env me w c _ _)
        λ _.
          Sends-trans
            (Sends-trans (Sends-none w mine refl refl refl refl)
              (add_members-Sends mine room wanted))
            (broadcast-Sends (add_members env mine room wanted).0 room)

  report_missing-Sends :
      (w : World) (c : Conn) (names : List String)
      → Sends (Attributed me) w (report_missing env w c names)
  unfolding report_missing
  report_missing-Sends w c [] = Sends-refl w
  report_missing-Sends w c (n ∷ ns) = refuse-Sends env me w c _ _

  announce_added-Sends :
      (w : World) (room : String) (names : List String)
      → Sends (Attributed me) w (announce_added env w room names)
  announce_added-Sends w room [] = Sends-refl w
  announce_added-Sends w room (n ∷ ns) = broadcast-Sends w room

  invite_to-Sends :
      (w : World) (c : Conn) (room : String) (wanted : Value)
      → Sends (Attributed me) w (invite_to env w c room wanted)
  unfolding invite_to
  invite_to-Sends w c room wanted =
      let (x, added) = add_members env w room wanted in
      let names : List String = missing env x room added (map (py_str env) (list_of wanted)) in
      Sends-trans (add_members-Sends w room wanted) (
        Sends-trans (report_missing-Sends x c names)
          (announce_added-Sends (report_missing env x c names) room added))

  pub invite-Sends :
      (w : World) (c : Conn) (frame : Frame) → Sends (Attributed me) w (invite env w c me frame)
  unfolding invite
  invite-Sends w c frame = named_room-Sends (room_name frame) w c _ λ room _.
      Sends-if (not (Rooms.exists w.rooms room)) w _ _ (λ _. refuse-Sends env me w c _ _)
        λ _.
          Sends-if (not (contains (Rooms.members w.rooms room) me)) w _ _
            (λ _. refuse-Sends env me w c _ _)
            λ _. invite_to-Sends w c room (or_null (get frame.payload "members"))

  pub join-Sends :
      (w : World) (c : Conn) (frame : Frame) → Sends (Attributed me) w (join env w c me frame)
  unfolding join
  join-Sends w c frame = named_room-Sends (room_name frame) w c _ λ room _.
      let x : World = join_room env w room me in
      Sends-if (not (Rooms.exists w.rooms room)) w _ _ (λ _. refuse-Sends env me w c _ _)
        λ _. Sends-trans (Sends-none w x refl refl refl refl) (broadcast-Sends x room)

  room_state-Attributed :
      (w : World) (c : Conn) (room : String) → Attributed me (c, room_state env w room)
  unfolding room_state Attributed
  room_state-Attributed w c room = inl refl

  pub leave-Sends :
      (w : World) (c : Conn) (frame : Frame) → Sends (Attributed me) w (leave env w c me frame)
  unfolding leave
  leave-Sends w c frame = named_room-Sends (room_name frame) w c _ λ room _.
      let x : World = record w { rooms = Rooms.leave w.rooms room me } in
      let y : World = broadcast_room_state env x room in
      let z : World = send y c (room_state env y room) in
      Sends-if (not (contains (Rooms.members w.rooms room) me)) w _ _
        (λ _. refuse-Sends env me w c _ _)
        λ _.
          Sends-trans (Sends-trans (Sends-none w x refl refl refl refl) (broadcast-Sends x room)) (
            Sends-trans (Sends-send y c (room_state env y room) (room_state-Attributed y c room))
              (Sends-none z (tick env z) refl refl refl refl))
