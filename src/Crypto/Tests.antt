-- ===== src/Crypto/Tests.antt =====
-- The theorems on keyrings at concrete inputs.
use socket_to_ciphertext.Prelude.{ℕ, String, ◌≡◌, refl, some, List, [], ◌∷◌, All}
use socket_to_ciphertext.Prelude.Sort.{sorted}
use socket_to_ciphertext.Prelude.Assoc.{Dict, get, keys}
use socket_to_ciphertext.Crypto.Envelope.{plain, public_b64, key_for}
use socket_to_ciphertext.Crypto.Keyring.{
  Keyring, fresh, self_key, envelopes, seal_for_members, everyone, open_from,
}
use socket_to_ciphertext.Crypto.Keyring.Cache.{Coherent}
use socket_to_ciphertext.Crypto.Keyring.Uses.{
  Operation, remembers, seals, act_all, act_all-Coherent,
}
use socket_to_ciphertext.Crypto.Keyring.Uses.{owned}
use socket_to_ciphertext.Crypto.Keyring.Rooms.{Usable, seal_for_members-envelopes}
use socket_to_ciphertext.Crypto.Toy.{toy, toy-IsLawful, alice, bob, alice-bob}

fresh-Coherent : (identity : List ℕ) (me : String) → Coherent toy (fresh identity me)
fresh-Coherent identity me = record { source = λ u k h. absurd (cc) }

-- A key is learnt, used, and then replaced by another.
abbrev day : List Operation
day =
    remembers "bob" (public_b64 toy bob)
    ∷ seals "bob" "hello" "alice"
    ∷ remembers "bob" (public_b64 toy alice)
    ∷ seals "bob" "hello again" "alice"
    ∷ []

act_all-Coherent_example : Coherent toy (act_all toy (fresh alice "alice") day)
act_all-Coherent_example =
    act_all-Coherent toy (fresh alice "alice") day (fresh-Coherent alice "alice")

abbrev pub writer : Keyring
writer = record (fresh alice "alice") { pubkeys = ("bob", public_b64 toy bob) ∷ [] }

abbrev pub reader : Keyring
reader = record (fresh bob "bob") { pubkeys = ("alice", public_b64 toy alice) ∷ [] }

pub writer-Coherent : Coherent toy writer
writer-Coherent = record { source = λ u k h. absurd (cc) }

pub reader-Coherent : Coherent toy reader
reader-Coherent = record { source = λ u k h. absurd (cc) }

All-Usable : All (Usable toy (owned toy writer "alice")) (everyone ("bob" ∷ []) "alice")
unfolding everyone sorted self_key toy key_for
All-Usable =
    ((public_b64 toy alice, 2 ∷ [], refl, refl), ((public_b64 toy bob, 3 ∷ [], refl, refl), tt))

seal_for_members-envelopes_example :
    (d : Dict (String × String)) × ((seal_for_members toy writer ("bob" ∷ []) "hi" "alice").1
      ≡ envelopes d)
    × (keys d ≡ everyone ("bob" ∷ []) "alice")
    × ((c : String) × (n : String) × (get d "bob" ≡ some (c, n))
        × ((open_from toy reader "alice" c n "alice").1 ≡ plain "hi"))
seal_for_members-envelopes_example =
    seal_for_members-envelopes toy toy-IsLawful writer reader ("bob" ∷ []) "alice" "bob" "hi"
      alice-bob writer-Coherent reader-Coherent All-Usable refl refl refl
