-- ===== src/Crypto/Keyring/Rooms.antt =====
-- Keyring.seal_for_members: with every key at hand it does not fail.
use socket_to_ciphertext.Prelude.{
  String, ◌≡◌, refl, ap, ◌∙◌, true, some, List, [], ◌∷◌, All, contains,
}
use socket_to_ciphertext.Prelude.Assoc.{Dict, get, keys}
use socket_to_ciphertext.Crypto.Primitives.{Bytes, Primitives, IsLawful, Agree}
use socket_to_ciphertext.Crypto.Envelope.{plain, public_b64, key_for}
use socket_to_ciphertext.Crypto.Keyring.{
  Keyring, Key, held, unknown, invalid, Checked, all_held, one_missing, one_invalid, Sealed, sealed,
  Envelopes, envelopes, key, seal_for, check_keys, with_entry, seal_each, seal_checked,
  seal_for_members, everyone, open_from,
}
use socket_to_ciphertext.Crypto.Keyring.Cache.{Coherent, Kept, key-Kept}
use socket_to_ciphertext.Crypto.Keyring.Uses.{seal_for-Kept, check_keys-Kept, owned, owned-Kept}
use socket_to_ciphertext.Crypto.Keyring.Delivery.{key-held, seal_for-held}
use socket_to_ciphertext.Crypto.Keyring.Members.{seal_for_members-open_from}

module _ (p : Primitives) where
  -- A public key is held for the name, and a message key can be derived from it.
  abbrev pub Usable : Keyring → String → Type 0
  Usable r name =
      (pk : String) × (k : Bytes) × (get r.pubkeys name ≡ some pk)
      × (key_for p r.identity pk ≡ some k)

  Usable-Kept : {r x : Keyring} (name : String) → Kept p r x → Usable r name → Usable x name
  Usable-Kept name kept (pk, k, known, made) =
      (pk, k, kept.holds name pk known, ap (λ (i : Bytes). key_for p i pk) kept.identity ∙ made)

  All-Usable-Kept :
      (r x : Keyring) (names : List String)
      → Kept p r x
      → All (Usable r) names
      → All (Usable x) names
  All-Usable-Kept r x [] kept h = tt
  All-Usable-Kept r x (name ∷ names) kept h =
      (Usable-Kept name kept h.0, All-Usable-Kept r x names kept h.1)

  Usable-held :
      (r : Keyring) (name : String)
      → Coherent p r
      → Usable r name
      → (k : Bytes) × ((key p r name).1 ≡ held k)
  Usable-held r name c (pk, k, known, made) = (k, key-held p r name pk k c known made)

  check_keys-all_held :
      (r : Keyring) (names : List String)
      → Coherent p r
      → All (Usable r) names
      → (check_keys p r names).1 ≡ all_held
  unfolding check_keys
  check_keys-all_held r [] c h = refl
  check_keys-all_held r (name ∷ names) c h =
      let next : Keyring = (key p r name).0 in
      let kept : Kept p r next = key-Kept p r name in
      let (k, e) = Usable-held r name c h.0 in
      ap
        (λ (x : Key).
          (elim x as (λ _. Keyring × Checked) [
            | held j ↦ check_keys p next names
            | unknown ↦ (next, one_missing)
            | invalid ↦ (next, one_invalid)
          ]).1)
        e
      ∙ check_keys-all_held next names (kept.coherent c) (All-Usable-Kept r next names kept h.1)

  with_entry-envelopes :
      (name : String) (s : Sealed) (x : Keyring × Envelopes) (c n : String)
      (d : Dict (String × String))
      → s ≡ sealed c n
      → x.1 ≡ envelopes d
      → (with_entry p name s x).1 ≡ envelopes ((name, (c, n)) ∷ d)
  with_entry-envelopes name s (r, e) c n d h i =
      ap (λ (y : Sealed). (with_entry p name y (r, e)).1) h
      ∙ ap (λ (y : Envelopes). (with_entry p name (sealed c n) (r, y)).1) i

  seal_each-envelopes :
      (r : Keyring) (names : List String) (text sender : String)
      → Coherent p r
      → All (Usable r) names
      → (d : Dict (String × String)) × ((seal_each p r names text sender).1 ≡ envelopes d)
  unfolding seal_each
  seal_each-envelopes r [] text sender c h = ([], refl)
  seal_each-envelopes r (name ∷ names) text sender c h =
      let next : Keyring = (seal_for p r name text sender).0 in
      let kept : Kept p r next = seal_for-Kept p r name text sender in
      let (k, e) = Usable-held r name c h.0 in
      let (call, f) = seal_for-held p r name text sender k e in
      let (d, g) =
        seal_each-envelopes next names text sender (kept.coherent c)
          (All-Usable-Kept r next names kept h.1) in
      (
        _,
        with_entry-envelopes name (seal_for p r name text sender).1
            (seal_each p next names text sender) _ _ d f g,
      )

  checked-envelopes :
      (names : List String) (text sender : String) (x : Keyring × Checked)
      (d : Dict (String × String))
      → x.1 ≡ all_held
      → (seal_each p x.0 names text sender).1 ≡ envelopes d
      → (seal_checked p names text sender x).1 ≡ envelopes d
  checked-envelopes names text sender (r, c) d h e =
      ap (λ (y : Checked). (seal_checked p names text sender (r, y)).1) h ∙ e

  -- With a usable key for each member and for the sender, `seal_for_members` makes envelopes: one entry
  -- for each of them, in order. And each who holds the sender's public key opens the entry under their
  -- name and reads the text as it was written; both caches are coherent and the primitives keep their
  -- promises.
  pub seal_for_members-envelopes :
      (law : IsLawful p)
      → (writer reader : Keyring) (members : List String) (author member text : String)
      → Agree p writer.identity reader.identity
      → Coherent p writer
      → Coherent p reader
      → All (Usable (owned p writer author)) (everyone members author)
      → get writer.pubkeys member ≡ some (public_b64 p reader.identity)
      → get reader.pubkeys author ≡ some (public_b64 p writer.identity)
      → contains (author ∷ members) member ≡ true
      → (d : Dict (String × String)) × ((seal_for_members p writer members text author).1
          ≡ envelopes d)
        × (keys d ≡ everyone members author)
        × ((c : String) × (n : String) × (get d member ≡ some (c, n))
            × ((open_from p reader author c n author).1 ≡ plain text))
  unfolding seal_for_members
  seal_for_members-envelopes law writer reader members author member text s cw cr usable known_w
        known_r inside =
      (
        made.0,
        whole,
        (seal_for_members-open_from p law writer reader members author member text made.0 s cw cr
            known_w known_r inside whole).0,
        (seal_for_members-open_from p law writer reader members author member text made.0 s cw cr
            known_w known_r inside whole).1,
      )
    where
      names : List String
      names = everyone members author

      own : Keyring
      own = owned p writer author

      coherent : Coherent p own
      coherent = (owned-Kept p writer author).coherent cw

      x : Keyring × Checked
      x = check_keys p own names

      kept : Kept p own x.0
      kept = check_keys-Kept p own names

      made : (d : Dict (String × String)) × ((seal_each p x.0 names text author).1 ≡ envelopes d)
      made =
          seal_each-envelopes x.0 names text author (kept.coherent coherent)
            (All-Usable-Kept own x.0 names kept usable)

      whole : (seal_for_members p writer members text author).1 ≡ envelopes made.0
      whole =
          checked-envelopes names text author x made.0
            (check_keys-all_held own names coherent usable) made.1
