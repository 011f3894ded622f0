-- ===== src/Crypto/Keyring.antt =====
-- im/crypto/keyring.py, class Keyring: the public keys a client holds and the keys derived from them.
pub mod Cache
pub mod Uses
pub mod Delivery
pub mod Members
pub mod Sealing
pub mod Rooms
use socket_to_ciphertext.Prelude.{
  ℕ, suc, String, Bool, true, false, not, ◌&&◌, Option, none, some, List, [], ◌∷◌, ◌==◌, keep_if,
  distinct, if◌then◌else◌,
}
use socket_to_ciphertext.Prelude.Assoc.{Dict, get, has, put, pop}
use socket_to_ciphertext.Prelude.Sort.{sorted}
use socket_to_ciphertext.Crypto.Primitives.{Bytes, Primitives}
use socket_to_ciphertext.Crypto.Envelope.{
  Body, plain, decryption_failed, bad_key, public_b64, key_for, seal, open_body,
}

pub record Keyring : Type 0 where
  pub identity : Bytes
  pub me : String
  pub pubkeys : Dict String
  pub derived : Dict Bytes
  -- how many nonces have been drawn
  pub calls : ℕ

abbrev pub fresh : Bytes → String → Keyring
fresh identity me = record { identity = identity; me = me; pubkeys = []; derived = []; calls = 0 }

-- `self._pubkeys.get(user) == pubkey`
abbrev pub is_same : Option String → String → Bool
is_same none pubkey = false
is_same (some known) pubkey = known == pubkey

-- A changed key takes the derived one with it.
unfoldable pub remember : Keyring → String → String → Keyring
remember r user pubkey =
    if is_same (get r.pubkeys user) pubkey
    then r
    else record r { pubkeys = put r.pubkeys user pubkey; derived = pop r.derived user }

abbrev pub knows : Keyring → String → Bool
knows r user = has r.pubkeys user

unfoldable pub forget : Keyring → String → Keyring
forget r user = record r { pubkeys = pop r.pubkeys user; derived = pop r.derived user }

-- What `_key` ends with: a key, None, or an exception about the public key.
pub data Key : Type 0 where
  held : Bytes → Key
  unknown invalid : Key

-- Whether all keys are at hand, one is None, or one raises.
pub data Checked : Type 0 where
  all_held one_missing one_invalid : Checked

-- `seal`, for one person.
pub data Sealed : Type 0 where
  sealed : String → String → Sealed
  no_key sealing_failed : Sealed

-- `seal_for_members`: the entries, each a member with the ciphertext and the nonce.
pub data Envelopes : Type 0 where
  envelopes : Dict (String × String) → Envelopes
  incomplete failed : Envelopes

-- `missing_keys`
unfoldable pub missing_keys : Keyring → List String → List String
unfolding sorted
missing_keys r members = sorted (keep_if (λ name. not (knows r name)) (distinct members))

-- `set(members) | {sender}`, sorted
unfoldable pub everyone : List String → String → List String
unfolding sorted
everyone members sender = sorted (distinct (sender ∷ members))

module _ (p : Primitives) where
  -- `setdefault`: a key that is there stays.
  unfoldable pub self_key : Keyring → Keyring
  self_key r =
      if has r.pubkeys r.me
      then r
      else record r { pubkeys = put r.pubkeys r.me (public_b64 p r.identity) }

  abbrev pub own_first : Keyring → String → Keyring
  own_first r user = if not (user == "") && user == r.me then self_key r else r

  abbrev pub derive : Keyring → String → Option Bytes → Keyring × Key
  derive r user none = (r, invalid)
  derive r user (some k) = (record r { derived = put r.derived user k }, held k)

  abbrev pub derive_from : Keyring → String → Option String → Keyring × Key
  derive_from r user none = (r, unknown)
  derive_from r user (some pubkey) = derive r user (key_for p r.identity pubkey)

  abbrev pub cached : Keyring → String → Option Bytes → Keyring × Key
  cached r user (some k) = (r, held k)
  cached r user none = derive_from r user (get r.pubkeys user)

  -- `_key`
  unfoldable pub key : Keyring → String → Keyring × Key
  unfolding self_key key_for
  key r user = let own = own_first r user in cached own user (get own.derived user)

  abbrev pub draw : Keyring → Keyring
  draw r = record r { calls = suc r.calls }

  abbrev pub seal_with : String → String → Keyring × Key → Keyring × Sealed
  seal_with text sender (r, held k) =
      let (c, n) = seal p r.calls k text sender in (draw r, sealed c n)
  seal_with text sender (r, unknown) = (r, no_key)
  seal_with text sender (r, invalid) = (r, sealing_failed)

  unfoldable pub seal_for : Keyring → String → String → String → Keyring × Sealed
  unfolding key seal
  seal_for r user text sender = seal_with text sender (key r user)

  -- `any(self._key(name) is None for name in everyone)`, which stops at the first.
  unfoldable pub check_keys : Keyring → List String → Keyring × Checked
  unfolding key
  check_keys r [] = (r, all_held)
  check_keys r (name ∷ names) =
      let rest = check_keys (key r name).0 names in
      elim (key r name).1 [
        | held k ↦ rest
        | unknown ↦ ((key r name).0, one_missing)
        | invalid ↦ ((key r name).0, one_invalid)
      ]

  abbrev pub with_entry : String → Sealed → Keyring × Envelopes → Keyring × Envelopes
  with_entry name (sealed c n) (r, envelopes d) = (r, envelopes ((name, (c, n)) ∷ d))
  with_entry name (sealed c n) (r, e) = (r, e)
  with_entry name s (r, e) = (r, failed)

  -- The dictionary comprehension, over names that are all different.
  unfoldable pub seal_each : Keyring → List String → String → String → Keyring × Envelopes
  unfolding seal_for
  seal_each r [] text sender = (r, envelopes [])
  seal_each r (name ∷ names) text sender =
      let (r', s) = seal_for r name text sender in
      with_entry name s (seal_each r' names text sender)

  abbrev pub seal_checked : List String → String → String → Keyring × Checked → Keyring × Envelopes
  seal_checked names text sender (r, all_held) = seal_each r names text sender
  seal_checked names text sender (r, one_missing) = (r, incomplete)
  seal_checked names text sender (r, one_invalid) = (r, failed)

  unfoldable pub seal_for_members : Keyring → List String → String → String → Keyring × Envelopes
  unfolding self_key check_keys seal_each everyone
  seal_for_members r members text sender =
      let own = self_key (record r { me = sender }) in
      seal_checked (everyone members sender) text sender (check_keys own (everyone members sender))

  abbrev pub open_with : String → String → String → Keyring × Key → Keyring × Body
  open_with c n sender (r, held k) = (r, open_body p k c n sender)
  open_with c n sender (r, unknown) = (r, decryption_failed)
  open_with c n sender (r, invalid) = (r, bad_key)

  -- `open`
  unfoldable pub open_from : Keyring → String → String → String → String → Keyring × Body
  unfolding key open_body
  open_from r user c n sender = open_with c n sender (key r user)
