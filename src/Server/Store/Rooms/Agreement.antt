-- ===== src/Server/Store/Rooms/Agreement.antt =====
-- SqliteRooms and RoomRegistry, the two stores of rooms, answer alike.
use socket_to_ciphertext.Prelude.{String, ◌≡◌, refl, sym, ap, ◌∙◌, List, [], ◌∷◌, contains}
use socket_to_ciphertext.Server.Registry.RoomRegistry as Memory
use socket_to_ciphertext.Server.Store.Rooms as Disk
use socket_to_ciphertext.Server.Store.Rooms.{Rooms, is_membership, is_member}
use socket_to_ciphertext.Server.Registry.RoomRegistry.{RoomRegistry, set_add, discard}
use socket_to_ciphertext.Server.Store.Rooms.Operations.{
  Operation, in_memory, on_disk, run_memory, run_disk, exists_after, member_after,
}
use socket_to_ciphertext.Server.Store.Rooms.OnDisk.{disk-exists, disk-member, Disk-members}
use socket_to_ciphertext.Server.Store.Rooms.InMemory.{memory-exists, memory-member}

-- The same rooms exist and the same people are in them.
pub record Agree (m : RoomRegistry) (t : Rooms) : Type 0 where
  pub exists : (r : String) → Memory.exists m r ≡ Disk.exists t r
  pub members : (r v : String) → contains (Memory.members m r) v ≡ contains (Disk.members t r) v

operation-Agree :
    (m : RoomRegistry) (t : Rooms) (o : Operation) → Agree m t → Agree (in_memory m o) (on_disk t o)
operation-Agree m t o a = record {
  exists = λ r. memory-exists m o r ∙ ap (exists_after o r) (a.exists r) ∙ sym (disk-exists t o r);
  members = λ r v.
      memory-member m o r v
      ∙ ap (member_after o r v) (a.members r v ∙ Disk-members t r v)
      ∙ sym (disk-member t o r v)
      ∙ sym (Disk-members (on_disk t o) r v);
}

-- The rooms on disk and the rooms in memory cannot be told apart: after any sequence of operations on
-- both, starting from stores that agree, the same rooms exist and the same people are in each.
pub run-Agree :
    (m : RoomRegistry) (t : Rooms) (os : List Operation)
    → Agree m t
    → Agree (run_memory m os) (run_disk t os)
run-Agree m t [] a = a
run-Agree m t (o ∷ os) a = run-Agree (in_memory m o) (on_disk t o) os (operation-Agree m t o a)

pub empty-Agree : Agree [] Disk.empty
unfolding Memory.members Disk.members
empty-Agree = record { exists = λ r. refl; members = λ r v. refl }
