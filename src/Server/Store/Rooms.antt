-- ===== src/Server/Store/Rooms.antt =====
-- im/server/store/rooms.py, class SqliteRooms: rooms and their membership, on disk.
pub mod Operations
pub mod OnDisk
pub mod InMemory
pub mod Agreement
use socket_to_ciphertext.Prelude.{
  ℕ, String, Bool, true, false, not, ◌&&◌, List, [], ◌∷◌, ◌++◌, ◌==◌, map, any, keep_if,
  if◌then◌else◌,
}
use socket_to_ciphertext.Prelude.Assoc.{Dict, has, put}
use socket_to_ciphertext.Prelude.Sort.{sorted}

-- The tables `rooms` (name and time of creation) and `memberships` (room and username).
pub record Rooms : Type 0 where
  pub rooms : Dict ℕ
  pub memberships : List (String × String)

abbrev pub empty : Rooms
empty = record { rooms = []; memberships = [] }

abbrev pub is_membership : String → String → String × String → Bool
is_membership room username m = m.0 == room && m.1 == username

abbrev pub is_member : Rooms → String → String → Bool
is_member t room username = any (is_membership room username) t.memberships

abbrev pub exists : Rooms → String → Bool
exists t room = has t.rooms room

unfoldable pub create : Rooms → String → ℕ → Rooms × Bool
create t room at =
    if exists t room then (t, false) else (record t { rooms = put t.rooms room at }, true)

-- INSERT OR IGNORE, twice.
unfoldable pub join : Rooms → String → String → ℕ → Rooms
join t room username at = record {
  rooms = if exists t room then t.rooms else put t.rooms room at;
  memberships =
      if is_member t room username then t.memberships else t.memberships ++ (room, username) ∷ [];
}

unfoldable pub leave : Rooms → String → String → Rooms
leave t room username = record t {
  memberships = keep_if (λ m. not (is_membership room username m)) t.memberships;
}

-- The set of members, as a list without repetitions.
unfoldable pub members : Rooms → String → List String
members t room = map (λ m. m.1) (keep_if (λ m. m.0 == room) t.memberships)

unfoldable pub rooms_of : Rooms → String → List String
unfolding sorted
rooms_of t username = sorted (map (λ m. m.0) (keep_if (λ m. m.1 == username) t.memberships))

unfoldable pub forget : Rooms → String → Rooms
forget t username = record t { memberships = keep_if (λ m. not (m.1 == username)) t.memberships }
