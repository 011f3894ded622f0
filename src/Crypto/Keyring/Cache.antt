-- ===== src/Crypto/Keyring/Cache.antt =====
-- Keyring: a cached key is always the one derived from the public key that is held now.
use socket_to_ciphertext.Prelude.{
  String, ◌≡◌, refl, ap, subst, ◌∙◌, Bool, true, false, not, ◌&&◌, Option, none, some, ◌==◌, eq_iff,
  arith, if◌then◌else◌, Bool-cases, inl, inr,
}
use socket_to_ciphertext.Prelude.Assoc.{get, has, put, get-put, get-none_of_has}
use socket_to_ciphertext.Crypto.Primitives.{Bytes, Primitives}
use socket_to_ciphertext.Crypto.Envelope.{public_b64, key_for}
use socket_to_ciphertext.Crypto.Keyring.{
  Keyring, self_key, own_first, derive, derive_from, cached, key,
}

module _ (p : Primitives) where
  pub record Coherent (r : Keyring) : Type 0 where
    pub source :
        (u : String) (k : Bytes)
        → get r.derived u ≡ some k
        → (pk : String) × (get r.pubkeys u ≡ some pk) × (key_for p r.identity pk ≡ some k)

  -- From `r` to `x` no public key that is held changes, and a coherent cache stays coherent.
  pub record Kept (r x : Keyring) : Type 0 where
    pub identity : x.identity ≡ r.identity
    pub holds : (u pk : String) → get r.pubkeys u ≡ some pk → get x.pubkeys u ≡ some pk
    pub coherent : Coherent r → Coherent x

  pub Kept-refl : (r : Keyring) → Kept r r
  Kept-refl r = record { identity = refl; holds = λ u pk h. h; coherent = λ c. c }

  pub Kept-trans : {r x y : Keyring} → Kept r x → Kept x y → Kept r y
  Kept-trans a b = record {
    identity = b.identity ∙ a.identity;
    holds = λ u pk h. b.holds u pk (a.holds u pk h);
    coherent = λ c. b.coherent (a.coherent c);
  }

  -- The public key of the owner is added where there is none.
  add_own-Kept :
      (r : Keyring) (pk : String)
      → has r.pubkeys r.me ≡ false
      → Kept r (record r { pubkeys = put r.pubkeys r.me pk })
  add_own-Kept r pk free = record {
    identity = refl;
    holds = holds;
    coherent =
        λ c. record { source = λ u k h. let (q, e, f) = c.source u k h in (q, holds u q e, f) };
  }
    where
      holds : (u q : String) → get r.pubkeys u ≡ some q → get (put r.pubkeys r.me pk) u ≡ some q
      holds u q h =
          ground
            (arith, get-put r.pubkeys r.me u pk, eq_iff r.me u, get-none_of_has r.pubkeys r.me free)

  pub self_key-Kept : (r : Keyring) → Kept r (self_key p r)
  unfolding self_key
  self_key-Kept r = elim (Bool-cases (has r.pubkeys r.me)) [
    | inl there ↦ rw (self_key, there) (Kept-refl r)
    | inr free ↦ rw (self_key, free) (add_own-Kept r (public_b64 p r.identity) free)
  ]

  pub own_first-Kept : (r : Keyring) (u : String) → Kept r (own_first p r u)
  own_first-Kept r u = go (not (u == "") && u == r.me)
    where
      go : (b : Bool) → Kept r (if b then self_key p r else r)
      go true = self_key-Kept r
      go false = Kept-refl r

  derive-Kept :
      (r : Keyring) (u pk : String) (k : Bytes)
      → get r.pubkeys u ≡ some pk
      → key_for p r.identity pk ≡ some k
      → Kept r (record r { derived = put r.derived u k })
  derive-Kept r u pk k known made = record {
    identity = refl;
    holds = λ v q h. h;
    coherent = λ c. record { source = λ v j h. by_name c v j (u == v) refl h };
  }
    where
      by_name :
          Coherent r
          → (v : String) (j : Bytes) (b : Bool) → (u == v) ≡ b
          → get (put r.derived u k) v ≡ some j
          → (q : String) × (get r.pubkeys v ≡ some q) × (key_for p r.identity q ≡ some j)
      by_name c v j true e h =
          let same : u ≡ v = (eq_iff u v).0 e in
          let h' : some k ≡ some j = ground (arith, get-put r.derived u v k) in
          let k' : k ≡ j = cc in
          (
            pk,
            subst (λ x. get r.pubkeys x ≡ some pk) same known,
            made ∙ ap (λ (x : Bytes). some x) k',
          )
      by_name c v j false e h = c.source v j (ground (arith, get-put r.derived u v k))

  pub key-Kept : (r : Keyring) (u : String) → Kept r (key p r u).0
  unfolding key
  key-Kept r u = Kept-trans (own_first-Kept r u) (by_cache (get own.derived u))
    where
      own : Keyring
      own = own_first p r u

      by_key :
          (pk : String) (o : Option Bytes)
          → get own.pubkeys u ≡ some pk
          → key_for p own.identity pk ≡ o
          → Kept own (derive p own u o).0
      by_key pk none e f = Kept-refl own
      by_key pk (some k) e f = derive-Kept own u pk k e f

      by_pubkey : (o : Option String) → get own.pubkeys u ≡ o → Kept own (derive_from p own u o).0
      by_pubkey none e = Kept-refl own
      by_pubkey (some pk) e = by_key pk (key_for p own.identity pk) e refl

      by_cache : (o : Option Bytes) → Kept own (cached p own u o).0
      by_cache (some k) = Kept-refl own
      by_cache none = by_pubkey (get own.pubkeys u) refl
