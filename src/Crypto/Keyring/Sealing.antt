-- ===== src/Crypto/Keyring/Sealing.antt =====
-- Keyring: whatever is sealed is sealed under a key that this identity shares with a public key.
use socket_to_ciphertext.Prelude.{
  ℕ, String, ◌≡◌, refl, sym, ap, subst, ◌∙◌, Option, none, some, List, [], ◌∷◌, All,
}
use socket_to_ciphertext.Prelude.Assoc.{Dict, get, keys}
use socket_to_ciphertext.Crypto.Primitives.{Bytes, Primitives}
use socket_to_ciphertext.Crypto.Envelope.{key_for, seal}
use socket_to_ciphertext.Crypto.Keyring.{
  Keyring, Key, held, unknown, invalid, Checked, sealed, envelopes, own_first, derive, derive_from,
  cached, key, seal_with, seal_for, check_keys, seal_each, seal_for_members, everyone,
}
use socket_to_ciphertext.Crypto.Keyring.Cache.{Coherent, Kept, Kept-trans, own_first-Kept}
use socket_to_ciphertext.Crypto.Keyring.Uses.{seal_for-Kept, check_keys-Kept, owned, owned-Kept}
use socket_to_ciphertext.Crypto.Keyring.Members.{
  with_entry-Entry, seal_each-keys, seal_checked-seal_each,
}

module _ (p : Primitives) where
  -- The pair is a ciphertext and its nonce under a key that the identity derives from a public key.
  abbrev pub SealedBy : Bytes → String → String → String × String → Type 0
  SealedBy identity text sender x =
      (call : ℕ) × (k : Bytes) × (pk : String) × (key_for p identity pk ≡ some k)
      × (x ≡ seal p call k text sender)

  key-source :
      (r : Keyring) (u : String) (k : Bytes)
      → Coherent p r
      → (key p r u).1 ≡ held k
      → (pk : String) × (key_for p r.identity pk ≡ some k)
  unfolding key
  key-source r u k coherent h = by_cache (get own.derived u) refl h
    where
      own : Keyring
      own = own_first p r u

      Source : Bytes → Type 0
      Source j = (pk : String) × (key_for p r.identity pk ≡ some j)

      same : own.identity ≡ r.identity
      same = (own_first-Kept p r u).identity

      here : (pk : String) (j : Bytes) → key_for p own.identity pk ≡ some j → Source j
      here pk j e = (pk, ap (λ (i : Bytes). key_for p i pk) (sym same) ∙ e)

      by_key :
          (pk : String) (o : Option Bytes)
          → key_for p own.identity pk ≡ o
          → (derive p own u o).1 ≡ held k
          → Source k
      by_key pk none e f = absurd (cc)
      by_key pk (some j) e f = let q : j ≡ k = cc in subst Source q (here pk j e)

      by_pubkey : (o : Option String) → (derive_from p own u o).1 ≡ held k → Source k
      by_pubkey none f = absurd (cc)
      by_pubkey (some pk) f = by_key pk (key_for p own.identity pk) refl f

      by_cache :
          (o : Option Bytes) → get own.derived u ≡ o → (cached p own u o).1 ≡ held k → Source k
      by_cache (some j) e f =
          let (pk, g, i) = ((own_first-Kept p r u).coherent coherent).source u j e in
          let q : j ≡ k = cc in subst Source q (here pk j i)
      by_cache none e f = by_pubkey (get own.pubkeys u) f

  seal_with-SealedBy :
      (identity : Bytes) (text sender : String) (x : Keyring × Key) (c n : String)
      → ((k : Bytes) → x.1 ≡ held k → (pk : String) × (key_for p identity pk ≡ some k))
      → (seal_with p text sender x).1 ≡ sealed c n
      → SealedBy identity text sender (c, n)
  seal_with-SealedBy identity text sender (r, held k) c n source h =
      let (pk, e) = source k refl in
      let f : (seal p r.calls k text sender).0 ≡ c = cc in
      let g : (seal p r.calls k text sender).1 ≡ n = cc in
      (
        r.calls,
        k,
        pk,
        e,
        ap (λ (x : String). (x, n)) (sym f)
            ∙ ap (λ (x : String). ((seal p r.calls k text sender).0, x)) (sym g),
      )
  seal_with-SealedBy identity text sender (r, unknown) c n source h = absurd (cc)
  seal_with-SealedBy identity text sender (r, invalid) c n source h = absurd (cc)

  pub seal_for-SealedBy :
      (r : Keyring) (u text sender c n : String)
      → Coherent p r
      → (seal_for p r u text sender).1 ≡ sealed c n
      → SealedBy r.identity text sender (c, n)
  unfolding seal_for
  seal_for-SealedBy r u text sender c n coherent h =
      seal_with-SealedBy r.identity text sender (key p r u) c n (λ k e. key-source r u k coherent e)
        h

  seal_each-SealedBy :
      (r : Keyring) (names : List String) (text sender : String) (d : Dict (String × String))
      → Coherent p r
      → (seal_each p r names text sender).1 ≡ envelopes d
      → All (λ (e : String × (String × String)). SealedBy r.identity text sender e.1) d
  unfolding seal_each
  seal_each-SealedBy r [] text sender d coherent h =
      let e : [] ≡ d = cc in
      subst (All (λ (e : String × (String × String)). SealedBy r.identity text sender e.1)) e tt
  seal_each-SealedBy r (name ∷ names) text sender d coherent h =
      let next : Keyring = (seal_for p r name text sender).0 in
      let kept : Kept p r next = seal_for-Kept p r name text sender in
      let e =
        with_entry-Entry p name (seal_for p r name text sender).1
          (seal_each p next names text sender) d h in
      let rest =
        seal_each-SealedBy next names text sender e.rest (kept.coherent coherent) e.from_rest in
      subst (All (λ (e : String × (String × String)). SealedBy r.identity text sender e.1)) e.whole
        (
          seal_for-SealedBy r name text sender e.c e.n coherent e.from_seal,
          subst
              (λ (i : Bytes).
                All (λ (e : String × (String × String)). SealedBy i text sender e.1) e.rest)
              kept.identity rest,
        )

  pub seal_for_members-SealedBy :
      (r : Keyring) (members : List String) (text sender : String) (d : Dict (String × String))
      → Coherent p r
      → (seal_for_members p r members text sender).1 ≡ envelopes d
      → All (λ (e : String × (String × String)). SealedBy r.identity text sender e.1) d
        × (keys d ≡ everyone members sender)
  unfolding seal_for_members
  seal_for_members-SealedBy r members text sender d coherent h = (
    subst (λ (i : Bytes). All (λ (e : String × (String × String)). SealedBy i text sender e.1) d)
        kept.identity (seal_each-SealedBy x.0 names text sender d (kept.coherent coherent) each),
    seal_each-keys p x.0 names text sender d each,
  )
    where
      names : List String
      names = everyone members sender

      x : Keyring × Checked
      x = check_keys p (owned p r sender) names

      kept : Kept p r x.0
      kept = Kept-trans p (owned-Kept p r sender) (check_keys-Kept p (owned p r sender) names)

      each : (seal_each p x.0 names text sender).1 ≡ envelopes d
      each = seal_checked-seal_each p names text sender x d h
