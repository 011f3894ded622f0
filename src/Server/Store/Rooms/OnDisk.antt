-- ===== src/Server/Store/Rooms/OnDisk.antt =====
-- SqliteRooms: what each operation does to rooms and members.
use socket_to_ciphertext.Prelude.{
  String, ◌≡◌, refl, not, ◌&&◌, ◌||◌, List, [], ◌∷◌, ◌++◌, ◌==◌, eq_iff, arith, map, any, keep_if,
  contains, if◌then◌else◌, Bool-cases, inl, inr,
}
use socket_to_ciphertext.Prelude.Assoc.{has, has-put}
use socket_to_ciphertext.Server.Store.Rooms as Disk
use socket_to_ciphertext.Server.Store.Rooms.{Rooms, is_membership, is_member}
use socket_to_ciphertext.Server.Store.Rooms.Operations.{
  Operation, on_disk, exists_after, member_after,
}

members-is_member :
    (r v : String) (l : List (String × String))
    → contains (map (λ m. m.1) (keep_if (λ m. m.0 == r) l)) v ≡ any (is_membership r v) l
members-is_member r v [] = refl
members-is_member r v ((s, u) ∷ l) = ground (arith, members-is_member r v l)

any-append :
    (r v : String) (l : List (String × String)) (s u : String)
    → any (is_membership r v) (l ++ (s, u) ∷ []) ≡ ((s == r && u == v) || any (is_membership r v) l)
any-append r v [] s u = refl
any-append r v ((i, w) ∷ l) s u = ground (arith, any-append r v l s u)

any-leave :
    (r v : String) (l : List (String × String)) (s u : String)
    → any (is_membership r v) (keep_if (λ m. not (is_membership s u m)) l)
      ≡ (not (s == r && u == v) && any (is_membership r v) l)
any-leave r v [] s u = ground arith
any-leave r v ((i, w) ∷ l) s u = ground (
  arith,
  any-leave r v l s u,
  eq_iff s r,
  eq_iff u v,
  eq_iff i s,
  eq_iff w u,
  eq_iff i r,
  eq_iff w v,
)

any-forget :
    (r v : String) (l : List (String × String)) (u : String)
    → any (is_membership r v) (keep_if (λ m. not (m.1 == u)) l)
      ≡ (not (u == v) && any (is_membership r v) l)
any-forget r v [] u = ground arith
any-forget r v ((i, w) ∷ l) u =
    ground (arith, any-forget r v l u, eq_iff u v, eq_iff w u, eq_iff w v)

any-join :
    (r v : String) (l : List (String × String)) (s u : String)
    → any (is_membership r v) (if any (is_membership s u) l then l else l ++ (s, u) ∷ [])
      ≡ ((s == r && u == v) || any (is_membership r v) l)
any-join r v l s u = ground (arith, any-append r v l s u, eq_iff s r, eq_iff u v)

pub disk-exists :
    (t : Rooms) (o : Operation) (r : String)
    → Disk.exists (on_disk t o) r ≡ exists_after o r (Disk.exists t r)
unfolding Disk.create Disk.join Disk.leave Disk.forget
disk-exists t (Operation.create room at) r =
    ground (arith, has-put t.rooms room r at, eq_iff room r)
disk-exists t (Operation.join room u at) r =
    ground (arith, has-put t.rooms room r at, eq_iff room r)
disk-exists t (Operation.leave room u) r = refl
disk-exists t (Operation.forget u) r = refl

pub disk-member :
    (t : Rooms) (o : Operation) (r v : String)
    → is_member (on_disk t o) r v ≡ member_after o r v (is_member t r v)
unfolding Disk.create Disk.join Disk.leave Disk.forget
disk-member t (Operation.create room at) r v = elim (Bool-cases (has t.rooms room)) [
  | inl e ↦ rw (on_disk, Disk.create, e) refl
  | inr e ↦ rw (on_disk, Disk.create, e) refl
]
disk-member t (Operation.join room u at) r v = any-join r v t.memberships room u
disk-member t (Operation.leave room u) r v = any-leave r v t.memberships room u
disk-member t (Operation.forget u) r v = any-forget r v t.memberships u

pub Disk-members : (t : Rooms) (r v : String) → contains (Disk.members t r) v ≡ is_member t r v
unfolding Disk.members
Disk-members t r v = members-is_member r v t.memberships
