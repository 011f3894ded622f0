-- ===== src/Crypto/Keyring/Delivery.antt =====
-- Keyring: what one client seals, the client it is sealed for opens.
use socket_to_ciphertext.Prelude.{ℕ, String, ◌≡◌, refl, sym, ap, ◌∙◌, Option, none, some}
use socket_to_ciphertext.Prelude.Assoc.{get}
use socket_to_ciphertext.Crypto.Primitives.{Bytes, Primitives, IsLawful, Agree}
use socket_to_ciphertext.Crypto.Envelope.{
  plain, public_b64, derive_key, key_for, seal, open_body, key_for-Agree, open_body-seal,
}
use socket_to_ciphertext.Crypto.Keyring.{
  Keyring, Key, held, unknown, invalid, sealed, own_first, derive, derive_from, cached, key,
  seal_with, seal_for, open_with, open_from,
}
use socket_to_ciphertext.Crypto.Keyring.Cache.{Coherent, own_first-Kept}

module _ (p : Primitives) where
  -- With a coherent cache, `_key` answers what is derived from the public key.
  pub key-held :
      (r : Keyring) (u pk : String) (k : Bytes)
      → Coherent p r
      → get r.pubkeys u ≡ some pk
      → key_for p r.identity pk ≡ some k
      → (key p r u).1 ≡ held k
  unfolding key
  key-held r u pk k c known made = by_cache (get own.derived u) refl
    where
      own : Keyring
      own = own_first p r u

      here : get own.pubkeys u ≡ some pk
      here = (own_first-Kept p r u).holds u pk known

      made_here : key_for p own.identity pk ≡ some k
      made_here = ap (λ (i : Bytes). key_for p i pk) (own_first-Kept p r u).identity ∙ made

      by_cache : (o : Option Bytes) → get own.derived u ≡ o → (cached p own u o).1 ≡ held k
      by_cache (some j) e =
          let (q, f, g) = ((own_first-Kept p r u).coherent c).source u j e in
          let s : some q ≡ some pk = sym f ∙ here in
          let t : q ≡ pk = cc in
          let v : some j ≡ some k =
            sym g ∙ ap (λ (x : String). key_for p own.identity x) t ∙ made_here in
          cc
      by_cache none e =
          ap (λ (o : Option String). (derive_from p own u o).1) here
          ∙ ap (λ (o : Option Bytes). (derive p own u o).1) made_here

  seal_with-held :
      (text sender : String) (x : Keyring × Key) (k : Bytes)
      → x.1 ≡ held k
      → (seal_with p text sender x).1
        ≡ sealed (seal p x.0.calls k text sender).0 (seal p x.0.calls k text sender).1
  seal_with-held text sender (r, held j) k h = let same : j ≡ k = cc in rw same refl
  seal_with-held text sender (r, unknown) k h = absurd (cc)
  seal_with-held text sender (r, invalid) k h = absurd (cc)

  open_with-held :
      (c n sender : String) (x : Keyring × Key) (k : Bytes)
      → x.1 ≡ held k
      → (open_with p c n sender x).1 ≡ open_body p k c n sender
  open_with-held c n sender (r, held j) k h = let same : j ≡ k = cc in rw same refl
  open_with-held c n sender (r, unknown) k h = absurd (cc)
  open_with-held c n sender (r, invalid) k h = absurd (cc)

  -- What is sealed for one person under the held key, by the number of the nonce.
  pub seal_for-held :
      (r : Keyring) (u text sender : String) (k : Bytes)
      → (key p r u).1 ≡ held k
      → (call : ℕ) × ((seal_for p r u text sender).1
          ≡ sealed (seal p call k text sender).0 (seal p call k text sender).1)
  unfolding seal_for
  seal_for-held r u text sender k h =
      ((key p r u).0.calls, seal_with-held text sender (key p r u) k h)

  -- A reader who holds the author's public key opens what was sealed with the shared secret.
  module _ (law : IsLawful p) (reader : Keyring) (a : Bytes) (author : String)
      (s : Agree p a reader.identity) where
    pub open_from-shared :
        (call : ℕ) (text : String)
        → Coherent p reader
        → get reader.pubkeys author ≡ some (public_b64 p a)
        → (let (c, n) = seal p call (derive_key p s.secret) text author in
            (open_from p reader author c n author).1)
          ≡ plain text
    unfolding open_from
    open_from-shared call text coherent known =
        open_with-held _ _ author (key p reader author) (derive_key p s.secret) (
          key-held reader author (public_b64 p a) (derive_key p s.secret) coherent known
            (key_for-Agree p law a reader.identity s).1)
        ∙ open_body-seal p law call s.secret text author

  -- Two clients that hold each other's public key: what one seals for the other, the other opens and
  -- reads as it was written, where both caches are coherent and the primitives keep their promises.
  open_from-seal_for :
      (law : IsLawful p)
      → (writer reader : Keyring) (author friend text : String)
      → Agree p writer.identity reader.identity
      → Coherent p writer
      → Coherent p reader
      → get writer.pubkeys friend ≡ some (public_b64 p reader.identity)
      → get reader.pubkeys author ≡ some (public_b64 p writer.identity)
      → (c n : String) × ((seal_for p writer friend text author).1 ≡ sealed c n)
        × ((open_from p reader author c n author).1 ≡ plain text)
  open_from-seal_for law writer reader author friend text s cw cr known_w known_r =
      let k = derive_key p s.secret in
      let made = (key_for-Agree p law writer.identity reader.identity s).0 in
      let (call, e) =
        seal_for-held writer friend text author k
          (key-held writer friend (public_b64 p reader.identity) k cw known_w made) in
      (
        (seal p call k text author).0,
        (seal p call k text author).1,
        e,
        open_from-shared law reader writer.identity author s call text cr known_r,
      )
