-- ===== src/Crypto/Envelope.antt =====
-- im/crypto/identity.py and im/crypto/envelope.py: deriving a key, sealing and opening a body.
use socket_to_ciphertext.Prelude.{ℕ, String, ◌≡◌, refl, Option, none, some, [], ◌∷◌}
use socket_to_ciphertext.Crypto.Primitives.{Bytes, Primitives, IsLawful, Agree}

-- INFO: "semaphore/v1/message"
abbrev pub info : Bytes
info =
    115 ∷ 101 ∷ 109 ∷ 97 ∷ 112 ∷ 104 ∷ 111 ∷ 114 ∷ 101 ∷ 47 ∷ 118 ∷ 49 ∷ 47 ∷ 109 ∷ 101 ∷ 115 ∷ 115
    ∷ 97 ∷ 103 ∷ 101 ∷ []

-- What `open_` ends with: `not_utf8` is the decoding error after a successful decryption, which no
-- handler of DecryptionFailed catches.
pub data Body : Type 0 where
  plain : String → Body
  decryption_failed not_utf8 bad_key : Body

module _ (p : Primitives) where
  -- An identity is its private key.
  abbrev pub public_b64 : Bytes → String
  public_b64 identity = p.b64 (p.public_bytes identity)

  -- `Identity.exchange`
  abbrev pub exchange_with : Bytes → String → Option Bytes
  exchange_with identity peer = elim (p.unb64 peer) [
    | none ↦ none
    | some raw ↦ p.exchange identity raw
  ]

  abbrev pub derive_key : Bytes → Bytes
  derive_key secret = p.hkdf secret info

  -- `none`: the peer's key is no base64, no key, or one that the exchange refuses.
  unfoldable pub key_for : Bytes → String → Option Bytes
  key_for identity peer = elim (exchange_with identity peer) [
    | none ↦ none
    | some secret ↦ some (derive_key secret)
  ]

  -- The ciphertext and the nonce, both base64.
  unfoldable pub seal : ℕ → Bytes → String → String → String × String
  seal call key text associated = (
    p.b64 (p.encrypt key (p.urandom call) (p.utf8 text) (p.utf8 associated)),
    p.b64 (p.urandom call),
  )

  abbrev pub read_text : Option String → Body
  read_text none = not_utf8
  read_text (some s) = plain s

  abbrev pub decrypted : Option Bytes → Body
  decrypted none = decryption_failed
  decrypted (some raw) = read_text (p.from_utf8 raw)

  unfoldable pub open_body : Bytes → String → String → String → Body
  open_body key ciphertext nonce associated = elim (p.unb64 nonce) [
    | none ↦ decryption_failed
    | some n ↦ elim (p.unb64 ciphertext) [
      | none ↦ decryption_failed
      | some c ↦ decrypted (p.decrypt key n c (p.utf8 associated))
    ]
  ]

  -- Both sides derive the same key.
  pub key_for-Agree :
      IsLawful p
      → (a b : Bytes) (s : Agree p a b)
      → (key_for a (public_b64 b) ≡ some (derive_key s.secret))
        × (key_for b (public_b64 a) ≡ some (derive_key s.secret))
  unfolding key_for
  key_for-Agree law a b s = (
    rw (key_for, law.unb64-b64 (p.public_bytes b), s.forth) refl,
    rw (key_for, law.unb64-b64 (p.public_bytes a), s.back) refl,
  )

  -- What was sealed under a derived key is opened by it.
  pub open_body-seal :
      IsLawful p
      → (call : ℕ) (secret : Bytes) (text associated : String)
      → (let (c, n) = seal call (derive_key secret) text associated in
          open_body (derive_key secret) c n associated)
        ≡ plain text
  unfolding open_body seal
  open_body-seal law call secret text associated =
      rw
        (
          seal,
          open_body,
          law.unb64-b64 (p.urandom call),
          law.unb64-b64
              (p.encrypt (derive_key secret) (p.urandom call) (p.utf8 text) (p.utf8 associated)),
          law.decrypt-encrypt secret info (p.utf8 text) (p.utf8 associated) call,
          law.from_utf8-utf8 text,
        )
        refl
