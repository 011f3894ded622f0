-- ===== src/Server/Store/Users.antt =====
-- im/server/store/users.py, class SqliteUsers: accounts with salted, derived digests.
pub mod Passwords
use socket_to_ciphertext.Prelude.{
  ℕ, String, ◌≡◌, refl, Bool, true, false, Option, none, some, List, [], ◌∷◌, eqb, ◌&&◌, length,
}
use socket_to_ciphertext.Prelude.Assoc.{Dict, get, has, put}
use socket_to_ciphertext.Server.Env.{Env}

pub record Account : Type 0 where
  pub salt : List ℕ
  pub digest : List ℕ
  pub pubkey : Option String
  pub created_at : ℕ

-- The table `users`, by its primary key.
abbrev pub Users : Type 0
Users = Dict Account

-- `hmac.compare_digest`
abbrev pub same_bytes : List ℕ → List ℕ → Bool
same_bytes [] [] = true
same_bytes (a ∷ as') (b ∷ bs) = eqb a b && same_bytes as' bs
same_bytes as' bs = false

-- `call` numbers the readings of the salt and of the clock.
unfoldable pub register : Env → ℕ → Users → String → String → Option String → Users × Bool
register env call users username pass_hash pubkey = elim (has users username) [
  | true ↦ (users, false)
  | false ↦ (
    put users username (record {
      salt = env.token_bytes call;
      digest = env.scrypt pass_hash (env.token_bytes call);
      pubkey = pubkey;
      created_at = env.now_ms call;
    }),
    true,
  )
]

-- The derivation for an unknown user, done for its time alone, has no result.
unfoldable pub verify : Env → Users → String → String → Bool
verify env users username pass_hash = elim (get users username) [
  | none ↦ false
  | some a ↦ same_bytes a.digest (env.scrypt pass_hash a.salt)
]

abbrev pub exists : Users → String → Bool
exists users username = has users username

unfoldable pub set_pubkey : Users → String → String → Users
set_pubkey users username pubkey = elim (get users username) [
  | none ↦ users
  | some a ↦ put users username (record a { pubkey = some pubkey })
]

unfoldable pub pubkey : Users → String → Option String
pubkey users username = elim (get users username) [ none ↦ none | some a ↦ a.pubkey ]

abbrev pub size : Users → ℕ
size users = length users
