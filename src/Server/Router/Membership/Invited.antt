-- ===== src/Server/Router/Membership/Invited.antt =====
-- MessageRouter._invite: who can bring whom into a room.
use socket_to_ciphertext.Prelude.{
  String, ◌≡◌, refl, sym, ap, subst, ◌∙◌, ◌⊎◌, inl, inr, Bool, true, false, not, ◌&&◌, ◌||◌, Option,
  none, some, List, [], ◌∷◌, ◌==◌, eq_iff, arith, contains, map, take, concat, if◌then◌else◌,
  Bool-cases,
}
use socket_to_ciphertext.Prelude.Assoc.{get}
use socket_to_ciphertext.Prelude.Sort.{sorted}
use socket_to_ciphertext.Wire.Value.{Value, or_null}
use socket_to_ciphertext.Wire.Frame.{Frame}
use socket_to_ciphertext.Server.Env.{Env, py_str}
use socket_to_ciphertext.Server.Registry.{Conn}
use socket_to_ciphertext.Server.Store.Users
use socket_to_ciphertext.Server.Store.Rooms
use socket_to_ciphertext.Server.Store.Rooms.{is_member}
use socket_to_ciphertext.Server.Store.Rooms.Operations.{Operation}
use socket_to_ciphertext.Server.Store.Rooms.OnDisk.{disk-member}
use socket_to_ciphertext.Server.Router.World.{
  World, is_room, send, send_to, send_each, tick, post, refuse,
}
use socket_to_ciphertext.Server.Router.Membership.{
  RoomName, valid, invalid, room_name, list_of, join_room, may_be_added, add_names, add_members,
  room_state, broadcast_room_state, missing, report_missing, announce_added, invite_to, invite,
}

send_to-rooms : (w : World) (name : String) (f : Frame) → (send_to w name f).rooms ≡ w.rooms
unfolding send_to send
send_to-rooms w name f = go (get w.sessions name)
  where
    go :
        (o : Option Conn)
        → (elim o as (λ _. World) [ none ↦ w | some c ↦ send w c f ]).rooms ≡ w.rooms
    go none = refl
    go (some c) = refl

send_each-rooms :
    (w : World) (names : List String) (f : Frame) → (send_each w names f).rooms ≡ w.rooms
unfolding send_each
send_each-rooms w [] f = refl
send_each-rooms w (name ∷ names) f =
    send_each-rooms (send_to w name f) names f ∙ send_to-rooms w name f

module _ (env : Env) where
  refuse-rooms :
      (w : World) (c : Conn) (code message : String) → (refuse env w c code message).rooms ≡ w.rooms
  unfolding refuse post send
  refuse-rooms w c code message = refl

  report_missing-rooms :
      (w : World) (c : Conn) (names : List String) → (report_missing env w c names).rooms ≡ w.rooms
  unfolding report_missing refuse post send
  report_missing-rooms w c [] = refl
  report_missing-rooms w c (n ∷ ns) = refl

  announce_added-rooms :
      (w : World) (room : String) (names : List String)
      → (announce_added env w room names).rooms ≡ w.rooms
  unfolding broadcast_room_state
  announce_added-rooms w room [] = refl
  announce_added-rooms w room (n ∷ ns) =
      send_each-rooms (tick env w) (sorted (Rooms.members w.rooms room)) (room_state env w room)

  -- Whoever is in a room in `x` was in it in `w`, or has an account and a name that is no room's, and
  -- came into `room`.
  pub record Added (room : String) (w x : World) : Type 0 where
    pub users : x.users ≡ w.users
    pub member :
        (r v : String)
        → is_member x.rooms r v ≡ true
        → (is_member w.rooms r v ≡ true)
          ⊎ ((room ≡ r) × (Users.exists w.users v ≡ true) × (is_room v ≡ false))

  Added-refl : (room : String) (w : World) → Added room w w
  Added-refl room w = record { users = refl; member = λ r v h. inl h }

  Added-trans : {room : String} {w x y : World} → Added room w x → Added room x y → Added room w y
  Added-trans {room} {w} {x} {y} a b = record {
    users = b.users ∙ a.users;
    member = λ r v h. elim (b.member r v h) [
      | inl k ↦ a.member r v k
      | inr (e, k, n) ↦ inr (e, ap (λ u. Users.exists u v) (sym a.users) ∙ k, n)
    ];
  }

  join-Added :
      (w : World) (room name : String)
      → may_be_added env w name ≡ true
      → Added room w (join_room env w room name)
  join-Added w room name fits = record {
    users = refl;
    member = λ r v h.
        let e = disk-member w.rooms (Operation.join room name (env.now_ms w.calls)) r v in
        let split : ((room == r && name == v) || is_member w.rooms r v) ≡ true = sym e ∙ h in
        elim (Bool-cases (is_member w.rooms r v)) [
          | inl old ↦ inl old
          | inr new ↦ inr (
            ground (arith, eq_iff room r),
            ground (arith, eq_iff name v),
            ground (arith, eq_iff name v),
          )
        ];
  }

  add_names-Added :
      (w : World) (room : String) (vs : List Value) → Added room w (add_names env w room vs).0
  unfolding add_names
  add_names-Added w room [] = Added-refl room w
  add_names-Added w room (v ∷ vs) = elim (Bool-cases (may_be_added env w (py_str env v))) [
    | inl fits ↦ rw fits (
        Added-trans (join-Added w room (py_str env v) fits)
          (add_names-Added (join_room env w room (py_str env v)) room vs))
    | inr skipped ↦ rw skipped (add_names-Added w room vs)
  ]

  -- What the theorem says of one person in one room.
  abbrev Entered : World → String → String → String → Type 0
  Entered w me r v =
      (is_member w.rooms r v ≡ true)
      ⊎ ((contains (Rooms.members w.rooms r) me ≡ true)
          × (Users.exists w.users v ≡ true)
          × (is_room v ≡ false))

  invite_to-Entered :
      (w : World) (c : Conn) (me room r v : String) (wanted : Value)
      → contains (Rooms.members w.rooms room) me ≡ true
      → is_member (invite_to env w c room wanted).rooms r v ≡ true
      → Entered w me r v
  unfolding invite_to add_members
  invite_to-Entered w c me room r v wanted mine h =
      let names : List Value = take 64 (list_of wanted) in
      let x : World = (add_names env w room names).0 in
      let added : List String = (add_names env w room names).1 in
      let absent : List String = missing env x room added (map (py_str env) (list_of wanted)) in
      let told : World = report_missing env x c absent in
      let same = announce_added-rooms told room added ∙ report_missing-rooms x c absent in
      elim ((add_names-Added w room names).member r v
        (ap (λ (t : Rooms.Rooms). is_member t r v) (sym same) ∙ h)) [
          | inl old ↦ inl old
          | inr (e, k, n) ↦
              inr (subst (λ s. contains (Rooms.members w.rooms s) me ≡ true) e mine, k, n)
        ]

  -- Whoever is in a room after an INVITE was in it before, or the one who invites is a member of that
  -- room and the person has an account, under a name that is no room's.
  pub invite_members :
      (w : World) (c : Conn) (me r v : String) (frame : Frame)
      → is_member (invite env w c me frame).rooms r v ≡ true
      → (is_member w.rooms r v ≡ true)
        ⊎ ((contains (Rooms.members w.rooms r) me ≡ true)
            × (Users.exists w.users v ≡ true)
            × (is_room v ≡ false))
  unfolding invite refuse post send
  invite_members w c me r v frame = by_name (room_name frame)
    where
      by_member :
          (room : String) (b : Bool) (x : World)
          → contains (Rooms.members w.rooms room) me ≡ b
          → x.rooms ≡ w.rooms
          → is_member
              (if not b
                then x
                else invite_to env w c room (or_null (get frame.payload "members"))).rooms
              r
              v
            ≡ true
          → Entered w me r v
      by_member room true x mine s h =
          invite_to-Entered w c me room r v (or_null (get frame.payload "members")) mine h
      by_member room false x other s h = inl (ap (λ (t : Rooms.Rooms). is_member t r v) (sym s) ∙ h)

      by_room :
          (b : Bool) (x y : World)
          → x.rooms ≡ w.rooms
          → (is_member y.rooms r v ≡ true → Entered w me r v)
          → is_member (if not b then x else y).rooms r v ≡ true
          → Entered w me r v
      by_room true x y s k h = k h
      by_room false x y s k h = inl (ap (λ (t : Rooms.Rooms). is_member t r v) (sym s) ∙ h)

      by_name :
          (n : RoomName)
          → is_member
              (elim n as (λ _. World) [
                | invalid message ↦ refuse env w c "BAD_ROOM" message
                | valid room ↦
                    if not (Rooms.exists w.rooms room)
                    then refuse env w c "NO_SUCH_ROOM" (concat (room ∷ " does not exist" ∷ []))
                    else if not (contains (Rooms.members w.rooms room) me)
                    then refuse env w c "NOT_A_MEMBER"
                        (concat ("join " ∷ room ∷ " before inviting anyone to it" ∷ []))
                    else invite_to env w c room (or_null (get frame.payload "members"))
              ]).rooms
              r
              v
            ≡ true
          → Entered w me r v
      by_name (invalid message) h = inl h
      by_name (valid room) h =
          by_room (Rooms.exists w.rooms room) _ _ refl
            (by_member room (contains (Rooms.members w.rooms room) me)
              (refuse env w c "NOT_A_MEMBER"
                (concat ("join " ∷ room ∷ " before inviting anyone to it" ∷ [])))
              refl refl)
            h
