-- ===== src/Server/Router/Membership.antt =====
-- im/server/router.py: rooms.
pub mod Invited
use socket_to_ciphertext.Prelude.{
  String, Bool, not, ◌||◌, ◌&&◌, none, some, List, [], ◌∷◌, map, ◌==◌, any, keep_if, contains,
  distinct, take, length, codes, is_space, ltb, concat, join_texts, if◌then◌else◌,
}
use socket_to_ciphertext.Prelude.Assoc.{get}
use socket_to_ciphertext.Prelude.Sort.{sorted}
use socket_to_ciphertext.Wire.Value.{Value, str, arr, items, of_items, or_null}
use socket_to_ciphertext.Wire.Frame.{Frame, MessageType}
use socket_to_ciphertext.Server.Env.{Env, py_str}
use socket_to_ciphertext.Server.Registry.{Conn}
use socket_to_ciphertext.Server.Store.Users
use socket_to_ciphertext.Server.Store.Rooms
use socket_to_ciphertext.Server.Router.World.{
  World, is_room, room_prefix, send, send_each, make, tick, refuse,
}
use socket_to_ciphertext.Server.Router.Contacts.{name?}

-- The `room` field: a name, or what the BAD_ROOM error says.
pub data RoomName : Type 0 where
  valid invalid : String → RoomName

unfoldable pub check_name : String → RoomName
check_name room =
    if not (is_room room)
    then invalid (concat ("a room name must start with " ∷ room_prefix ∷ []))
    else if ltb (length (codes room)) 2 || ltb 32 (length (codes room)) || any is_space (codes room)
    then invalid "a room name is 2-32 characters and has no spaces"
    else valid room

unfoldable pub room_name : Frame → RoomName
unfolding check_name
room_name frame = elim (name? (or_null (get frame.payload "room"))) [
  | none ↦ invalid "a room name is required"
  | some room ↦ check_name room
]

-- `isinstance(members, list)`, and its elements.
abbrev pub list_of : Value → List Value
list_of (arr vs) = items vs
list_of v = []

module _ (env : Env) where
  -- `rooms.join`, which reads the clock.
  abbrev pub join_room : World → String → String → World
  join_room w room name =
      tick env (record w { rooms = Rooms.join w.rooms room name (env.now_ms w.calls) })

  abbrev pub may_be_added : World → String → Bool
  may_be_added w name = not (name == "") && not (is_room name) && Users.exists w.users name

  -- The loop over the names, with those that were added.
  unfoldable pub add_names : World → String → List Value → World × List String
  unfolding Rooms.join
  add_names w room [] = (w, [])
  add_names w room (v ∷ vs) =
      let name = py_str env v in
      let fits = may_be_added w name in
      let (w', added) = add_names (if fits then join_room w room name else w) room vs in
      (w', if fits then name ∷ added else added)

  -- No more than 64 names are looked at.
  unfoldable pub add_members : World → String → Value → World × List String
  unfolding add_names
  add_members w room wanted = add_names w room (take 64 (list_of wanted))

  abbrev pub state_payload : World → String → List String → Frame
  state_payload w room names =
      make env w.calls MessageType.room_state none (some room)
        (("room", str room) ∷ ("members", arr (of_items (map str names))) ∷ [])

  unfoldable pub room_state : World → String → Frame
  unfolding sorted Rooms.members
  room_state w room = state_payload w room (sorted (Rooms.members w.rooms room))

  -- Tell every member who is in the room now: one frame, to whoever of them is connected.
  unfoldable pub broadcast_room_state : World → String → World
  unfolding room_state send_each
  broadcast_room_state w room =
      send_each (tick env w) (sorted (Rooms.members w.rooms room)) (room_state w room)

  unfoldable pub create_room : World → Conn → String → Frame → World
  unfolding room_name refuse Rooms.create add_members broadcast_room_state
  create_room w c me frame = elim (room_name frame) [
    | invalid message ↦ refuse env w c "BAD_ROOM" message
    | valid room ↦
        let (rooms, made) = Rooms.create w.rooms room (env.now_ms w.calls) in
        let mine = join_room (tick env (record w { rooms = rooms })) room me in
        if not made
        then refuse env w c "ROOM_EXISTS"
            (concat (room ∷ " already exists -- JOIN it instead" ∷ []))
        else broadcast_room_state (add_members mine room (or_null (get frame.payload "members"))).0
            room
  ]

  abbrev pub missing : World → String → List String → List String → List String
  missing w room added names =
      keep_if (λ n. not (contains added n) && not (contains (Rooms.members w.rooms room) n)) names

  -- Name the ones that did not work.
  unfoldable pub report_missing : World → Conn → List String → World
  unfolding refuse sorted
  report_missing w c [] = w
  report_missing w c (n ∷ ns) =
      refuse env w c "NO_SUCH_USER"
        (concat ("not registered: " ∷ join_texts ", " (sorted (distinct (n ∷ ns))) ∷ []))

  abbrev pub announce_added : World → String → List String → World
  announce_added w room [] = w
  announce_added w room (n ∷ ns) = broadcast_room_state w room

  unfoldable pub invite_to : World → Conn → String → Value → World
  unfolding add_members report_missing broadcast_room_state
  invite_to w c room wanted =
      let (w', added) = add_members w room wanted in
      announce_added
        (report_missing w' c (missing w' room added (map (py_str env) (list_of wanted)))) room added

  unfoldable pub invite : World → Conn → String → Frame → World
  unfolding room_name refuse invite_to
  invite w c me frame = elim (room_name frame) [
    | invalid message ↦ refuse env w c "BAD_ROOM" message
    | valid room ↦
        if not (Rooms.exists w.rooms room)
        then refuse env w c "NO_SUCH_ROOM" (concat (room ∷ " does not exist" ∷ []))
        else if not (contains (Rooms.members w.rooms room) me)
        then refuse env w c "NOT_A_MEMBER"
            (concat ("join " ∷ room ∷ " before inviting anyone to it" ∷ []))
        else invite_to w c room (or_null (get frame.payload "members"))
  ]

  unfoldable pub join : World → Conn → String → Frame → World
  unfolding room_name refuse broadcast_room_state Rooms.join
  join w c me frame = elim (room_name frame) [
    | invalid message ↦ refuse env w c "BAD_ROOM" message
    | valid room ↦
        if not (Rooms.exists w.rooms room)
        then refuse env w c "NO_SUCH_ROOM"
            (concat (room ∷ " does not exist -- CREATE_ROOM first" ∷ []))
        else broadcast_room_state (join_room w room me) room
  ]

  unfoldable pub leave : World → Conn → String → Frame → World
  unfolding room_name refuse broadcast_room_state Rooms.leave send
  leave w c me frame = elim (room_name frame) [
    | invalid message ↦ refuse env w c "BAD_ROOM" message
    | valid room ↦
        let left = broadcast_room_state (record w { rooms = Rooms.leave w.rooms room me }) room in
        if not (contains (Rooms.members w.rooms room) me)
        then refuse env w c "NOT_A_MEMBER" (concat ("you are not in " ∷ room ∷ []))
        else tick env (send left c (room_state left room))
  ]
