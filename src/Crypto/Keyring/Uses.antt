-- ===== src/Crypto/Keyring/Uses.antt =====
-- Keyring: every operation keeps the cache of derived keys coherent.
use socket_to_ciphertext.Prelude.{
  String, ◌≡◌, refl, sym, subst, some, List, [], ◌∷◌, arith, Bool-cases, inl, inr,
}
use socket_to_ciphertext.Prelude.Assoc.{get, get-put, get-pop}
use socket_to_ciphertext.Crypto.Primitives.{Primitives}
use socket_to_ciphertext.Crypto.Keyring.{
  Keyring, remember, is_same, forget, Key, held, unknown, invalid, Checked, all_held, one_missing,
  one_invalid, Sealed, sealed, no_key, sealing_failed, Envelopes, envelopes, incomplete, failed,
  self_key, key, draw, seal_with, seal_for, check_keys, with_entry, seal_each, seal_checked,
  seal_for_members, everyone, open_with, open_from,
}
use socket_to_ciphertext.Crypto.Keyring.Cache.{
  Coherent, Kept, Kept-refl, Kept-trans, self_key-Kept, key-Kept,
}

-- What a client asks of its keyring.
pub data Operation : Type 0 where
  remembers : String → String → Operation
  forgets : String → Operation
  seals : String → String → String → Operation
  seals_for : List String → String → String → Operation
  opens : String → String → String → String → Operation

module _ (p : Primitives) where
  -- Drawing a nonce changes neither the keys nor the cache.
  draw-Kept : (r : Keyring) → Kept p r (draw p r)
  draw-Kept r = record {
    identity = refl;
    holds = λ u pk h. h;
    coherent = λ c. record { source = c.source };
  }

  name-Kept : (r : Keyring) (me : String) → Kept p r (record r { me = me })
  name-Kept r me = record {
    identity = refl;
    holds = λ u pk h. h;
    coherent = λ c. record { source = c.source };
  }

  seal_with-Kept :
      (text sender : String) (x : Keyring × Key) → Kept p x.0 (seal_with p text sender x).0
  seal_with-Kept text sender (r, held k) = draw-Kept r
  seal_with-Kept text sender (r, unknown) = Kept-refl p r
  seal_with-Kept text sender (r, invalid) = Kept-refl p r

  pub seal_for-Kept :
      (r : Keyring) (u text sender : String) → Kept p r (seal_for p r u text sender).0
  unfolding seal_for
  seal_for-Kept r u text sender =
      Kept-trans p (key-Kept p r u) (seal_with-Kept text sender (key p r u))

  pub check_keys-Kept : (r : Keyring) (names : List String) → Kept p r (check_keys p r names).0
  unfolding check_keys
  check_keys-Kept r [] = Kept-refl p r
  check_keys-Kept r (name ∷ names) = go (key p r name).1 (check_keys-Kept (key p r name).0 names)
    where
      go :
          (k : Key)
          → Kept p (key p r name).0 (check_keys p (key p r name).0 names).0
          → Kept p r
              (elim k as (λ _. Keyring × Checked) [
                | held j ↦ check_keys p (key p r name).0 names
                | unknown ↦ ((key p r name).0, one_missing)
                | invalid ↦ ((key p r name).0, one_invalid)
              ]).0
      go (held j) rest = Kept-trans p (key-Kept p r name) rest
      go unknown rest = key-Kept p r name
      go invalid rest = key-Kept p r name

  with_entry-ring :
      (name : String) (s : Sealed) (x : Keyring × Envelopes) → (with_entry p name s x).0 ≡ x.0
  with_entry-ring name (sealed c n) (r, envelopes d) = refl
  with_entry-ring name (sealed c n) (r, incomplete) = refl
  with_entry-ring name (sealed c n) (r, failed) = refl
  with_entry-ring name no_key (r, e) = refl
  with_entry-ring name sealing_failed (r, e) = refl

  pub seal_each-Kept :
      (r : Keyring) (names : List String) (text sender : String)
      → Kept p r (seal_each p r names text sender).0
  unfolding seal_each
  seal_each-Kept r [] text sender = Kept-refl p r
  seal_each-Kept r (name ∷ names) text sender =
      let next : Keyring = (seal_for p r name text sender).0 in
      subst (Kept p r)
        (sym (
          with_entry-ring name (seal_for p r name text sender).1
            (seal_each p next names text sender)))
        (Kept-trans p (seal_for-Kept r name text sender) (seal_each-Kept next names text sender))

  seal_checked-Kept :
      (names : List String) (text sender : String) (x : Keyring × Checked)
      → Kept p x.0 (seal_checked p names text sender x).0
  seal_checked-Kept names text sender (r, all_held) = seal_each-Kept r names text sender
  seal_checked-Kept names text sender (r, one_missing) = Kept-refl p r
  seal_checked-Kept names text sender (r, one_invalid) = Kept-refl p r

  -- The ring after `self._me = sender` and `_self_key`.
  abbrev pub owned : Keyring → String → Keyring
  owned r sender = self_key p (record r { me = sender })

  pub owned-Kept : (r : Keyring) (sender : String) → Kept p r (owned r sender)
  owned-Kept r sender =
      Kept-trans p (name-Kept r sender) (self_key-Kept p (record r { me = sender }))

  pub seal_for_members-Kept :
      (r : Keyring) (members : List String) (text sender : String)
      → Kept p r (seal_for_members p r members text sender).0
  unfolding seal_for_members
  seal_for_members-Kept r members text sender =
      let names : List String = everyone members sender in
      let x : Keyring × Checked = check_keys p (owned r sender) names in
      Kept-trans p (owned-Kept r sender) (
        Kept-trans p (check_keys-Kept (owned r sender) names)
          (seal_checked-Kept names text sender x))

  open_with-ring : (c n sender : String) (x : Keyring × Key) → (open_with p c n sender x).0 ≡ x.0
  open_with-ring c n sender (r, held k) = refl
  open_with-ring c n sender (r, unknown) = refl
  open_with-ring c n sender (r, invalid) = refl

  pub open_from-Kept :
      (r : Keyring) (u c n sender : String) → Kept p r (open_from p r u c n sender).0
  unfolding open_from
  open_from-Kept r u c n sender =
      subst (Kept p r) (sym (open_with-ring c n sender (key p r u))) (key-Kept p r u)

  -- A public key that changes or goes takes the derived key with it.
  pub remember-Coherent :
      (r : Keyring) (u pk : String) → Coherent p r → Coherent p (remember r u pk)
  unfolding remember
  remember-Coherent r u pk c = elim (Bool-cases (is_same (get r.pubkeys u) pk)) [
    | inl same ↦ rw (remember, same) c
    | inr other ↦
        rw (remember, other)
          (record {
            source = λ v k h.
                let h' : get r.derived v ≡ some k = ground (arith, get-pop r.derived u v) in
                let (q, e, f) = c.source v k h' in
                (q, ground (arith, get-pop r.derived u v, get-put r.pubkeys u v pk), f);
          })
  ]

  pub forget-Coherent : (r : Keyring) (u : String) → Coherent p r → Coherent p (forget r u)
  unfolding forget
  forget-Coherent r u c = record {
    source = λ v k h.
        let h' : get r.derived v ≡ some k = ground (arith, get-pop r.derived u v) in
        let (q, e, f) = c.source v k h' in
        (q, ground (arith, get-pop r.derived u v, get-pop r.pubkeys u v), f);
  }

  abbrev pub act : Keyring → Operation → Keyring
  act r (remembers u pk) = remember r u pk
  act r (forgets u) = forget r u
  act r (seals u text sender) = (seal_for p r u text sender).0
  act r (seals_for members text sender) = (seal_for_members p r members text sender).0
  act r (opens u c n sender) = (open_from p r u c n sender).0

  pub act_all : Keyring → List Operation → Keyring
  act_all r [] = r
  act_all r (o ∷ os) = act_all (act r o) os

  act-Coherent : (r : Keyring) (o : Operation) → Coherent p r → Coherent p (act r o)
  act-Coherent r (remembers u pk) c = remember-Coherent r u pk c
  act-Coherent r (forgets u) c = forget-Coherent r u c
  act-Coherent r (seals u text sender) c = (seal_for-Kept r u text sender).coherent c
  act-Coherent r (seals_for members text sender) c =
      (seal_for_members-Kept r members text sender).coherent c
  act-Coherent r (opens u k n sender) c = (open_from-Kept r u k n sender).coherent c

  -- After any sequence of operations that starts with a coherent cache, each cached key is the one that
  -- is derived from the public key held now for that person.
  pub act_all-Coherent :
      (r : Keyring) (os : List Operation) → Coherent p r → Coherent p (act_all r os)
  unfolding act_all
  act_all-Coherent r [] c = c
  act_all-Coherent r (o ∷ os) c = act_all-Coherent (act r o) os (act-Coherent r o c)
