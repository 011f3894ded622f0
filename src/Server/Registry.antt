-- ===== src/Server/Registry.antt =====
-- im/server/registries.py: who is connected, and who is in which room, in memory. Each method runs
-- under the registry's lock, so it is a function of the whole registry.
pub mod RoomRegistry
use socket_to_ciphertext.Prelude.{
  ℕ, String, Bool, true, false, not, List, [], ◌∷◌, ◌==◌, map, keep_if, length,
}
use socket_to_ciphertext.Prelude.Assoc.{Dict, has, put, pop, keys}
use socket_to_ciphertext.Prelude.Sort.{sorted}

-- A connection: the identity of a Session object.
abbrev pub Conn : Type 0
Conn = ℕ

abbrev pub SessionRegistry : Type 0
SessionRegistry = Dict Conn

unfoldable pub login : SessionRegistry → String → Conn → SessionRegistry × Bool
login s username session = elim (has s username) [
  | true ↦ (s, false)
  | false ↦ (put s username session, true)
]

abbrev pub logout : SessionRegistry → String → SessionRegistry
logout s username = pop s username

abbrev pub is_online : SessionRegistry → String → Bool
is_online s username = has s username

unfoldable pub usernames : SessionRegistry → List String
unfolding sorted
usernames s = sorted (keys s)

-- Every session except this user's own.
unfoldable pub others : SessionRegistry → String → List Conn
others s username = map (λ e. e.1) (keep_if (λ e. not (e.0 == username)) s)

abbrev pub size : SessionRegistry → ℕ
size s = length s
