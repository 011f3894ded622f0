-- ===== src/Server/Store/Rooms/Operations.antt =====
-- What a router asks of a store of rooms, for SqliteRooms and RoomRegistry alike.
use socket_to_ciphertext.Prelude.{
  ℕ, String, Bool, true, not, ◌&&◌, ◌||◌, List, [], ◌∷◌, ◌==◌, if◌then◌else◌,
}
use socket_to_ciphertext.Server.Registry.RoomRegistry as Memory
use socket_to_ciphertext.Server.Store.Rooms as Disk
use socket_to_ciphertext.Server.Store.Rooms.{Rooms, is_membership, is_member}
use socket_to_ciphertext.Server.Registry.RoomRegistry.{RoomRegistry, set_add, discard}

-- One operation, with the time at which it asks.
pub data Operation : Type 0 where
  create : String → ℕ → Operation
  join : String → String → ℕ → Operation
  leave : String → String → Operation
  forget : String → Operation

abbrev pub in_memory : RoomRegistry → Operation → RoomRegistry
in_memory r (Operation.create room at) = (Memory.create r room).0
in_memory r (Operation.join room u at) = Memory.join r room u
in_memory r (Operation.leave room u) = Memory.leave r room u
in_memory r (Operation.forget u) = Memory.forget r u

abbrev pub on_disk : Rooms → Operation → Rooms
on_disk t (Operation.create room at) = (Disk.create t room at).0
on_disk t (Operation.join room u at) = Disk.join t room u at
on_disk t (Operation.leave room u) = Disk.leave t room u
on_disk t (Operation.forget u) = Disk.forget t u

abbrev pub run_memory : RoomRegistry → List Operation → RoomRegistry
run_memory r [] = r
run_memory r (o ∷ os) = run_memory (in_memory r o) os

abbrev pub run_disk : Rooms → List Operation → Rooms
run_disk t [] = t
run_disk t (o ∷ os) = run_disk (on_disk t o) os

-- What an operation makes of the existing rooms and of who is in which.
abbrev pub exists_after : Operation → String → Bool → Bool
exists_after (Operation.create room at) r b = if room == r then true else b
exists_after (Operation.join room u at) r b = if room == r then true else b
exists_after o r b = b

abbrev pub member_after : Operation → String → String → Bool → Bool
member_after (Operation.create room at) r v b = b
member_after (Operation.join room u at) r v b = (room == r && u == v) || b
member_after (Operation.leave room u) r v b = not (room == r && u == v) && b
member_after (Operation.forget u) r v b = not (u == v) && b
