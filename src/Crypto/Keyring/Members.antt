-- ===== src/Crypto/Keyring/Members.antt =====
-- Keyring.seal_for_members: all or nothing, and each member opens the entry under their name.
use socket_to_ciphertext.Prelude.{
  ℕ, String, ◌≡◌, refl, sym, ap, subst, ◌∙◌, true, ◌||◌, some, List, [], ◌∷◌, ◌==◌, eq_iff,
  contains, distinct, contains-distinct, if◌then◌else◌, Bool-cases, inl, inr,
}
use socket_to_ciphertext.Prelude.Sort.{contains-sorted}
use socket_to_ciphertext.Prelude.Assoc.{Dict, get, keys}
use socket_to_ciphertext.Crypto.Primitives.{Bytes, Primitives, IsLawful, Agree}
use socket_to_ciphertext.Crypto.Envelope.{
  plain, public_b64, derive_key, key_for, seal, key_for-Agree,
}
use socket_to_ciphertext.Crypto.Keyring.{
  Keyring, Checked, all_held, one_missing, one_invalid, Sealed, sealed, no_key, sealing_failed,
  Envelopes, envelopes, incomplete, failed, seal_for, check_keys, with_entry, seal_each,
  seal_checked, seal_for_members, everyone, open_from,
}
use socket_to_ciphertext.Crypto.Keyring.Cache.{Coherent, Kept, Kept-trans}
use socket_to_ciphertext.Crypto.Keyring.Uses.{seal_for-Kept, check_keys-Kept, owned, owned-Kept}
use socket_to_ciphertext.Crypto.Keyring.Delivery.{key-held, seal_for-held, open_from-shared}

module _ (p : Primitives) where
  -- An entry was added: what was sealed, and the entries behind it.
  pub record Entry (name : String) (s : Sealed) (e : Envelopes) (d : Dict (String × String))
      : Type 0 where
    pub c : String
    pub n : String
    pub rest : Dict (String × String)
    pub from_seal : s ≡ sealed c n
    pub from_rest : e ≡ envelopes rest
    pub whole : (name, (c, n)) ∷ rest ≡ d

  pub with_entry-Entry :
      (name : String) (s : Sealed) (x : Keyring × Envelopes) (d : Dict (String × String))
      → (with_entry p name s x).1 ≡ envelopes d
      → Entry name s x.1 d
  with_entry-Entry name (sealed c n) (r, envelopes rest) d h = record {
    c = c;
    n = n;
    rest = rest;
    from_seal = refl;
    from_rest = refl;
    whole = cc;
  }
  with_entry-Entry name (sealed c n) (r, incomplete) d h = absurd (cc)
  with_entry-Entry name (sealed c n) (r, failed) d h = absurd (cc)
  with_entry-Entry name no_key (r, e) d h = absurd (cc)
  with_entry-Entry name sealing_failed (r, e) d h = absurd (cc)

  -- The entry of a person whose derived key is `k`.
  SealedFor : Dict (String × String) → String → Bytes → String → String → Type 0
  SealedFor d name k text sender = (call : ℕ) × (get d name ≡ some (seal p call k text sender))

  pub seal_each-keys :
      (r : Keyring) (names : List String) (text sender : String) (d : Dict (String × String))
      → (seal_each p r names text sender).1 ≡ envelopes d
      → keys d ≡ names
  unfolding seal_each
  seal_each-keys r [] text sender d h = let e : [] ≡ d = cc in rw (sym e) refl
  seal_each-keys r (name ∷ names) text sender d h =
      let next : Keyring = (seal_for p r name text sender).0 in
      let e =
        with_entry-Entry name (seal_for p r name text sender).1 (seal_each p next names text sender)
          d h in
      ap keys (sym e.whole)
      ∙ ap (λ (l : List String). name ∷ l)
          (seal_each-keys next names text sender e.rest e.from_rest)

  seal_each-SealedFor :
      (r : Keyring) (names : List String) (text sender : String) (d : Dict (String × String))
      (member pk : String) (k : Bytes)
      → (seal_each p r names text sender).1 ≡ envelopes d
      → Coherent p r
      → get r.pubkeys member ≡ some pk
      → key_for p r.identity pk ≡ some k
      → contains names member ≡ true
      → SealedFor d member k text sender
  unfolding seal_each SealedFor
  seal_each-SealedFor r [] text sender d member pk k h coherent known made inside = absurd (cc)
  seal_each-SealedFor r (name ∷ names) text sender d member pk k h coherent known made inside =
      elim (Bool-cases (name == member)) [
        | inl same ↦
            let is : name ≡ member = (eq_iff name member).0 same in
            let (call, f) = seal_for-held p r name text sender k (
              key-held p r name pk k coherent
                (subst (λ u. get r.pubkeys u ≡ some pk) (sym is) known) made) in
            (call, first_entry (e.c) (e.n) call same (sym e.from_seal ∙ f))
        | inr other ↦
            let (call, f) =
              seal_each-SealedFor next names text sender e.rest member pk k e.from_rest
                (kept.coherent coherent) (kept.holds member pk known)
                (ap (λ (i : Bytes). key_for p i pk) kept.identity ∙ made)
                (sym (ap (λ b. b || contains names member) other) ∙ inside) in
            (
              call,
              ap (λ (l : Dict (String × String)). get l member) (sym e.whole)
                  ∙ ap (λ b. if b then some (e.c, e.n) else get e.rest member) other
                  ∙ f,
            )
      ]
    where
      next : Keyring
      next = (seal_for p r name text sender).0

      kept : Kept p r next
      kept = seal_for-Kept p r name text sender

      e : Entry name (seal_for p r name text sender).1 (seal_each p next names text sender).1 d
      e =
          with_entry-Entry name (seal_for p r name text sender).1
            (seal_each p next names text sender) d h

      first_entry :
          (c n : String) (call : ℕ)
          → (name == member) ≡ true
          → sealed e.c e.n ≡ sealed (seal p call k text sender).0 (seal p call k text sender).1
          → get d member ≡ some (seal p call k text sender)
      first_entry c n call same f =
          let g : e.c ≡ (seal p call k text sender).0 = cc in
          let i : e.n ≡ (seal p call k text sender).1 = cc in
          ap (λ (l : Dict (String × String)). get l member) (sym e.whole)
          ∙ ap (λ b. if b then some (e.c, e.n) else get e.rest member) same
          ∙ ap (λ (x : String). some (x, e.n)) g
          ∙ ap (λ (x : String). some ((seal p call k text sender).0, x)) i

  pub seal_checked-seal_each :
      (names : List String) (text sender : String) (x : Keyring × Checked)
      (d : Dict (String × String))
      → (seal_checked p names text sender x).1 ≡ envelopes d
      → (seal_each p x.0 names text sender).1 ≡ envelopes d
  seal_checked-seal_each names text sender (r, all_held) d h = h
  seal_checked-seal_each names text sender (r, one_missing) d h = absurd (cc)
  seal_checked-seal_each names text sender (r, one_invalid) d h = absurd (cc)

  pub contains-everyone :
      (members : List String) (sender a : String)
      → contains (everyone members sender) a ≡ (sender == a || contains members a)
  unfolding everyone
  contains-everyone members sender a =
      contains-sorted (distinct (sender ∷ members)) a ∙ contains-distinct (sender ∷ members) a

  -- What `seal_for_members` makes has one entry for each member and one for the sender, in order, and
  -- each member who holds the sender's key, and whose own key the sender holds, opens the entry under
  -- their name and reads the text as it was written; both caches are coherent and the primitives keep
  -- their promises.
  pub seal_for_members-open_from :
      (law : IsLawful p)
      → (writer reader : Keyring) (members : List String) (author member text : String)
      → (d : Dict (String × String)) → Agree p writer.identity reader.identity
      → Coherent p writer
      → Coherent p reader
      → get writer.pubkeys member ≡ some (public_b64 p reader.identity)
      → get reader.pubkeys author ≡ some (public_b64 p writer.identity)
      → contains (author ∷ members) member ≡ true
      → (seal_for_members p writer members text author).1 ≡ envelopes d
      → (keys d ≡ everyone members author)
        × ((c : String) × (n : String) × (get d member ≡ some (c, n))
            × ((open_from p reader author c n author).1 ≡ plain text))
  unfolding seal_for_members SealedFor
  seal_for_members-open_from law writer reader members author member text d s cw cr known_w known_r
        inside h =
      let (call, e) =
        seal_each-SealedFor x.0 names text author d member (public_b64 p reader.identity) k each
          (kept.coherent cw) (kept.holds member (public_b64 p reader.identity) known_w)
          (ap (λ (i : Bytes). key_for p i (public_b64 p reader.identity)) kept.identity
            ∙ (key_for-Agree p law writer.identity reader.identity s).0)
          (contains-everyone members author member ∙ inside) in
      (
        seal_each-keys x.0 names text author d each,
        (
          (seal p call k text author).0,
          (seal p call k text author).1,
          e,
          open_from-shared p law reader writer.identity author s call text cr known_r,
        ),
      )
    where
      names : List String
      names = everyone members author

      k : Bytes
      k = derive_key p s.secret

      x : Keyring × Checked
      x = check_keys p (owned p writer author) names

      kept : Kept p writer x.0
      kept =
          Kept-trans p (owned-Kept p writer author)
            (check_keys-Kept p (owned p writer author) names)

      each : (seal_each p x.0 names text author).1 ≡ envelopes d
      each = seal_checked-seal_each names text author x d h
