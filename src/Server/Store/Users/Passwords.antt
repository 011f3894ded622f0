-- ===== src/Server/Store/Users/Passwords.antt =====
-- SqliteUsers.register and verify: the password of an account, and no other, opens it.
use socket_to_ciphertext.Prelude.{
  ℕ, String, ◌≡◌, ◌↔◌, refl, sym, ap, ◌∙◌, Bool, true, false, Option, none, some, List, [], ◌∷◌,
  ◌==◌, Bool-cases, Option-cases, inl, inr, eqb_refl, eq_iff, eq_refl, arith, if◌then◌else◌,
}
use socket_to_ciphertext.Prelude.Assoc.{get, has, put, get-put}
use socket_to_ciphertext.Server.Env.{Env}
use socket_to_ciphertext.Server.Store.Users.{Users, Account, same_bytes, register, verify}

same_bytes_refl : (l : List ℕ) → same_bytes l l ≡ true
same_bytes_refl [] = refl
same_bytes_refl (a ∷ l) = ground (arith, same_bytes_refl l, eqb_refl a)

same_bytes-≡ : (l m : List ℕ) → same_bytes l m ≡ true → l ≡ m
same_bytes-≡ [] [] h = refl
same_bytes-≡ (a ∷ l) (b ∷ m) h = grind (arith, same_bytes-≡ l m)
same_bytes-≡ [] (b ∷ m) h = ground arith
same_bytes-≡ (a ∷ l) [] h = ground arith

abbrev account : Env → ℕ → String → Option String → Account
account env call p key = record {
  salt = env.token_bytes call;
  digest = env.scrypt p (env.token_bytes call);
  pubkey = key;
  created_at = env.now_ms call;
}

abbrev opens : Env → Option Account → String → Bool
opens env none q = false
opens env (some a) q = same_bytes a.digest (env.scrypt q a.salt)

verify-opens :
    (env : Env) (users : Users) (u q : String) → verify env users u q ≡ opens env (get users u) q
unfolding verify
verify-opens env users u q = elim (Option-cases (get users u)) [
  | inl e ↦ rw (e, verify) refl
  | inr (a, e) ↦ rw (e, verify) refl
]

register-free :
    (env : Env) (call : ℕ) (users : Users) (u p : String) (key : Option String)
    → has users u ≡ false
    → register env call users u p key ≡ (put users u (account env call p key), true)
unfolding register
register-free env call users u p key free = rw (free, register) refl

verify_registered :
    (env : Env) (call : ℕ) (users : Users) (u p q : String) (key : Option String)
    → has users u ≡ false
    → verify env (register env call users u p key).0 u q
      ≡ same_bytes (env.scrypt p (env.token_bytes call)) (env.scrypt q (env.token_bytes call))
verify_registered env call users u p q key free =
    rw
      (
        register-free env call users u p key free,
        verify-opens env (put users u (account env call p key)) u q,
        get-put users u u (account env call p key),
        eq_refl u,
      )
      refl

-- After a registration of a free name, a password opens the account exactly when scrypt gives the
-- same digest for it as for the password registered, with the salt drawn for the account.
pub verify-register :
    (env : Env) (call : ℕ) (users : Users) (u p q : String) (key : Option String)
    → has users u ≡ false
    → verify env (register env call users u p key).0 u q ≡ true
      ↔ env.scrypt p (env.token_bytes call) ≡ env.scrypt q (env.token_bytes call)
verify-register env call users u p q key free =
    let e = verify_registered env call users u p q key free in
    (
      λ h. same_bytes-≡ _ _ (sym e ∙ h),
      λ h. e ∙ rw h (same_bytes_refl (env.scrypt q (env.token_bytes call))),
    )

-- No registration, taken or refused, changes who may log in to an account that exists.
pub register-keeps :
    (env : Env) (call : ℕ) (users : Users) (u v p q : String) (key : Option String)
    → has users v ≡ true
    → verify env (register env call users u p key).0 v q ≡ verify env users v q
unfolding register
register-keeps env call users u v p q key h = elim (Bool-cases (has users u)) [
  | inl taken ↦ rw (taken, register) refl
  | inr free ↦
      rw
        (
          register-free env call users u p key free,
          verify-opens env (put users u (account env call p key)) v q,
          verify-opens env users v q,
          get-put users u v (account env call p key),
        )
        (ap (λ o. opens env o q) (other v h free))
]
  where
    other :
        (v : String)
        → has users v ≡ true
        → has users u ≡ false
        → (if u == v then some (account env call p key) else get users v) ≡ get users v
    other v h free = ground (arith, eq_iff u v)
