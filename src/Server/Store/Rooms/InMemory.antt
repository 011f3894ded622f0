-- ===== src/Server/Store/Rooms/InMemory.antt =====
-- RoomRegistry: what each operation does to rooms and members.
use socket_to_ciphertext.Prelude.{
  String, ◌≡◌, refl, not, ◌&&◌, ◌||◌, Option, none, some, List, [], ◌∷◌, ◌++◌, ◌==◌, eq_iff, arith,
  map, contains, if◌then◌else◌, Bool-cases, Option-cases, inl, inr,
}
use socket_to_ciphertext.Prelude.Assoc.{
  get, has, put, get-put, has-put, get-none_of_has, has_of_get,
}
use socket_to_ciphertext.Server.Registry.RoomRegistry as Memory
use socket_to_ciphertext.Server.Registry.RoomRegistry.{RoomRegistry, set_add, discard}
use socket_to_ciphertext.Server.Store.Rooms.Operations.{
  Operation, in_memory, exists_after, member_after,
}

contains-append :
    (l : List String) (u v : String) → contains (l ++ u ∷ []) v ≡ (u == v || contains l v)
contains-append [] u v = refl
contains-append (w ∷ l) u v = ground (arith, contains-append l u v)

contains-discard :
    (l : List String) (u v : String) → contains (discard l u) v ≡ (not (u == v) && contains l v)
contains-discard [] u v = ground arith
contains-discard (w ∷ l) u v =
    ground (arith, contains-discard l u v, eq_iff u v, eq_iff w u, eq_iff w v)

contains-set_add :
    (l : List String) (u v : String) → contains (set_add l u) v ≡ (u == v || contains l v)
contains-set_add l u v = ground (arith, contains-append l u v, eq_iff u v)

abbrev listed : Option (List String) → List String
listed none = []
listed (some s) = s

members-listed : (m : RoomRegistry) (r : String) → Memory.members m r ≡ listed (get m r)
unfolding Memory.members
members-listed m r = elim (Option-cases (get m r)) [
  | inl e ↦ rw (e, Memory.members) refl
  | inr (s, e) ↦ rw (e, Memory.members) refl
]

join-put :
    (m : RoomRegistry) (room u : String)
    → Memory.join m room u ≡ put m room (set_add (listed (get m room)) u)
unfolding Memory.join
join-put m room u = elim (Option-cases (get m room)) [
  | inl e ↦ rw (e, Memory.join) refl
  | inr (s, e) ↦ rw (e, Memory.join) refl
]

get-forget :
    (m : RoomRegistry) (u r : String)
    → listed (get (map (λ (e : String × List String). (e.0, discard e.1 u)) m) r)
      ≡ discard (listed (get m r)) u
get-forget [] u r = refl
get-forget ((s, l) ∷ m) u r = ground (arith, get-forget m u r)

has-forget :
    (m : RoomRegistry) (u r : String)
    → has (map (λ (e : String × List String). (e.0, discard e.1 u)) m) r ≡ has m r
has-forget [] u r = refl
has-forget ((s, l) ∷ m) u r = ground (arith, has-forget m u r)

pub memory-exists :
    (m : RoomRegistry) (o : Operation) (r : String)
    → Memory.exists (in_memory m o) r ≡ exists_after o r (Memory.exists m r)
unfolding Memory.create Memory.leave Memory.forget
memory-exists m (Operation.create room at) r = ground (arith, has-put m room r [], eq_iff room r)
memory-exists m (Operation.join room u at) r =
    rw (join-put m room u) (has-put m room r (set_add (listed (get m room)) u))
memory-exists m (Operation.leave room u) r = elim (Option-cases (get m room)) [
  | inl e ↦ rw (e, Memory.leave) refl
  | inr (s, e) ↦
      rw (e, Memory.leave)
        (ground (arith, has-put m room r (discard s u), has_of_get m room s e, eq_iff room r))
]
memory-exists m (Operation.forget u) r = has-forget m u r

create-listed :
    (m : RoomRegistry) (room r : String)
    → listed (get (Memory.create m room).0 r) ≡ listed (get m r)
unfolding Memory.create
create-listed m room r = elim (Bool-cases (has m room)) [
  | inl e ↦ rw (Memory.create, e) refl
  | inr e ↦
      rw (Memory.create, e, get-put m room r [])
        (ground (arith, eq_iff room r, get-none_of_has m room e))
]

leave-listed :
    (m : RoomRegistry) (room u r : String)
    → listed (get (Memory.leave m room u) r)
      ≡ (if room == r then discard (listed (get m r)) u else listed (get m r))
unfolding Memory.leave
leave-listed m room u r = elim (Option-cases (get m room)) [
  | inl e ↦ rw (Memory.leave, e) (ground (arith, eq_iff room r, e))
  | inr (s, e) ↦
      rw (Memory.leave, e, get-put m room r (discard s u)) (ground (arith, eq_iff room r, e))
]

forget-listed :
    (m : RoomRegistry) (u r : String)
    → listed (get (Memory.forget m u) r) ≡ discard (listed (get m r)) u
unfolding Memory.forget
forget-listed m u r = get-forget m u r

pub memory-member :
    (m : RoomRegistry) (o : Operation) (r v : String)
    → contains (Memory.members (in_memory m o) r) v
      ≡ member_after o r v (contains (Memory.members m r) v)
memory-member m (Operation.create room at) r v =
    rw (members-listed (Memory.create m room).0 r, members-listed m r, create-listed m room r) refl
memory-member m (Operation.join room u at) r v =
    rw
      (
        join-put m room u,
        members-listed (put m room (set_add (listed (get m room)) u)) r,
        members-listed m r,
        get-put m room r (set_add (listed (get m room)) u),
      )
      (ground (arith, eq_iff room r, contains-set_add (listed (get m room)) u v))
memory-member m (Operation.leave room u) r v =
    rw (members-listed (Memory.leave m room u) r, members-listed m r, leave-listed m room u r)
      (ground (arith, contains-discard (listed (get m r)) u v))
memory-member m (Operation.forget u) r v =
    rw (members-listed (Memory.forget m u) r, members-listed m r, forget-listed m u r)
      (contains-discard (listed (get m r)) u v)
