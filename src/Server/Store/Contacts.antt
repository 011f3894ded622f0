-- ===== src/Server/Store/Contacts.antt =====
-- im/server/store/users.py, class SqliteContacts: one row for each direction.
pub mod Lists
use socket_to_ciphertext.Prelude.{
  ℕ, String, Bool, true, false, not, ◌&&◌, ◌||◌, List, [], ◌∷◌, ◌++◌, ◌==◌, map, any, keep_if,
  if◌then◌else◌,
}
use socket_to_ciphertext.Prelude.Sort.{sorted}

pub record Contact : Type 0 where
  pub owner : String
  pub contact : String
  pub added_at : ℕ

-- The table `contacts`.
abbrev pub Contacts : Type 0
Contacts = List Contact

abbrev pub is_pair : String → String → Contact → Bool
is_pair owner contact r = r.owner == owner && r.contact == contact

abbrev pub known : Contacts → String → String → Bool
known t owner contact = any (is_pair owner contact) t

-- With the answer whether a row was added.
unfoldable pub add : Contacts → String → String → ℕ → Contacts × Bool
add t owner contact at =
    if owner == "" || contact == "" || owner == contact || known t owner contact
    then (t, false)
    else (t ++ record { owner = owner; contact = contact; added_at = at } ∷ [], true)

unfoldable pub remove : Contacts → String → String → Contacts × Bool
remove t owner contact = (keep_if (λ r. not (is_pair owner contact r)) t, known t owner contact)

-- This person's contacts, alphabetically.
unfoldable pub of : Contacts → String → List String
unfolding sorted
of t owner = sorted (map (λ (r : Contact). r.contact) (keep_if (λ r. r.owner == owner) t))
