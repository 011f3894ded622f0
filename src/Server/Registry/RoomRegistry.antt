-- ===== src/Server/Registry/RoomRegistry.antt =====
-- im/server/registries.py, class RoomRegistry: rooms in memory, a set of members for each.
use socket_to_ciphertext.Prelude.{
  String, Bool, true, false, not, none, some, List, [], ◌∷◌, ◌++◌, ◌==◌, map, keep_if, contains,
  if◌then◌else◌,
}
use socket_to_ciphertext.Prelude.Assoc.{Dict, get, has, put, keys}
use socket_to_ciphertext.Prelude.Sort.{sorted}

-- A set is a list without repetitions, in order of insertion.
abbrev pub RoomRegistry : Type 0
RoomRegistry = Dict (List String)

abbrev pub set_add : List String → String → List String
set_add s a = if contains s a then s else s ++ a ∷ []

abbrev pub discard : List String → String → List String
discard s a = keep_if (λ b. not (b == a)) s

unfoldable pub create : RoomRegistry → String → RoomRegistry × Bool
create r room = if has r room then (r, false) else (put r room [], true)

-- `setdefault(room, set()).add(username)`
unfoldable pub join : RoomRegistry → String → String → RoomRegistry
join r room username = elim (get r room) [
  | none ↦ put r room (username ∷ [])
  | some s ↦ put r room (set_add s username)
]

unfoldable pub leave : RoomRegistry → String → String → RoomRegistry
leave r room username = elim (get r room) [ none ↦ r | some s ↦ put r room (discard s username) ]

unfoldable pub members : RoomRegistry → String → List String
members r room = elim (get r room) [ none ↦ [] | some s ↦ s ]

abbrev pub exists : RoomRegistry → String → Bool
exists r room = has r room

unfoldable pub rooms_of : RoomRegistry → String → List String
unfolding sorted
rooms_of r username = sorted (keys (keep_if (λ e. contains e.1 username) r))

unfoldable pub forget : RoomRegistry → String → RoomRegistry
forget r username = map (λ e. (e.0, discard e.1 username)) r
