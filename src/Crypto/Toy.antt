-- ===== src/Crypto/Toy.antt =====
-- Primitives that keep the promises of the real ones on small inputs, and are no cryptography: the tests
-- run on them.
use socket_to_ciphertext.Prelude.{
  ◌==◌, eq_iff, false, inl, inr, Bool-cases, ℕ, zero, suc, ◌+◌, String, ◌≡◌, refl, ap, ◌∙◌, Option,
  none, some, [], ◌∷◌, eqb, eqb_refl, arith, if◌then◌else◌,
}
use Prim.Native.Nat.{compare, Ordering}
use Prim.Native.Char.{Char, char, code, IsLt, IsScalar}
use Prim.Native.String.{[] as empty, ◌∷◌ as ◌then◌}
use socket_to_ciphertext.Crypto.Primitives.{Bytes, Primitives, IsLawful, Agree}

-- The clauses of `IsScalar`, to decide it.
abbrev BothLt : Ordering → Ordering → Type 0
BothLt Ordering.lt o = IsLt o
BothLt Ordering.eq o = ⊥
BothLt Ordering.gt o = ⊥

abbrev Scalar : Ordering → Ordering → Ordering → Type 0
Scalar Ordering.lt o p = Unit
Scalar Ordering.eq o p = BothLt o p
Scalar Ordering.gt o p = BothLt o p

decide_lt : (o : Ordering) → Option (IsLt o)
decide_lt Ordering.lt = some tt
decide_lt Ordering.eq = none
decide_lt Ordering.gt = none

decide_both : (o p : Ordering) → Option (BothLt o p)
decide_both Ordering.lt p = decide_lt p
decide_both Ordering.eq p = none
decide_both Ordering.gt p = none

decide : (a o p : Ordering) → Option (Scalar a o p)
decide Ordering.lt o p = some tt
decide Ordering.eq o p = decide_both o p
decide Ordering.gt o p = decide_both o p

decide_lt_lem : (o : Ordering) (h : IsLt o) → decide_lt o ≡ some h
unfolding decide_lt
decide_lt_lem Ordering.lt h = refl
decide_lt_lem Ordering.eq h = absurd h
decide_lt_lem Ordering.gt h = absurd h

decide_both_lem : (o p : Ordering) (h : BothLt o p) → decide_both o p ≡ some h
unfolding decide_both
decide_both_lem Ordering.lt p h = decide_lt_lem p h
decide_both_lem Ordering.eq p h = absurd h
decide_both_lem Ordering.gt p h = absurd h

decide_lem : (a o p : Ordering) (h : Scalar a o p) → decide a o p ≡ some h
unfolding decide
decide_lem Ordering.lt o p h = refl
decide_lem Ordering.eq o p h = decide_both_lem o p h
decide_lem Ordering.gt o p h = decide_both_lem o p h

abbrev in_front : Option Char → Option String → Option String
in_front (some c) (some s) = some (c then s)
in_front c s = none

abbrev with_proof : (n : ℕ) → Option (IsScalar n) → Option Char
with_proof n none = none
with_proof n (some h) = some (char n h)

to_char : ℕ → Option Char
unfolding decide
to_char n = with_proof n (decide (compare n 55296) (compare 57343 n) (compare n 1114112))

to_char-code : (c : Char) → to_char (code c) ≡ some c
unfolding to_char
to_char-code (char n h) =
    ap (with_proof n) (decide_lem (compare n 55296) (compare 57343 n) (compare n 1114112) h)

-- Texts as their code points.
points : String → Bytes
points empty = []
points (c then s) = code c ∷ points s

of_points : Bytes → Option String
unfolding to_char
of_points [] = some empty
of_points (n ∷ ns) = in_front (to_char n) (of_points ns)

of_points-points : (s : String) → of_points (points s) ≡ some s
unfolding of_points points
of_points-points empty = refl
of_points-points (c then s) =
    ap (λ (x : Option Char). in_front x (of_points (points s))) (to_char-code c)
    ∙ ap (in_front (some c)) (of_points-points s)

-- Bytes in unary: that many times `a`, and then `b`.
letters : ℕ → String → String
letters zero rest = (char 98 tt) then rest
letters (suc n) rest = (char 97 tt) then letters n rest

unary : Bytes → String
unfolding letters
unary [] = empty
unary (n ∷ ns) = letters n (unary ns)

abbrev with_byte : ℕ → Option Bytes → Option Bytes
with_byte n none = none
with_byte n (some ns) = some (n ∷ ns)

of_unary : ℕ → String → Option Bytes
of_unary n empty = some []
of_unary n (c then s) =
    let more = of_unary (suc n) s in
    let next = of_unary 0 s in if eqb (code c) 97 then more else with_byte n next

of_unary-letters :
    (m n : ℕ) (rest : String) → of_unary m (letters n rest) ≡ with_byte (m + n) (of_unary 0 rest)
unfolding of_unary letters
of_unary-letters m zero rest =
    let e : m ≡ m + 0 = omega arith in ap (λ (x : ℕ). with_byte x (of_unary 0 rest)) e
of_unary-letters m (suc n) rest =
    let e : suc m + n ≡ m + suc n = omega arith in
    of_unary-letters (suc m) n rest ∙ ap (λ (x : ℕ). with_byte x (of_unary 0 rest)) e

of_unary-unary : (raw : Bytes) → of_unary 0 (unary raw) ≡ some raw
unfolding unary of_unary
of_unary-unary [] = refl
of_unary-unary (n ∷ ns) =
    let e : 0 + n ≡ n = omega arith in
    of_unary-letters 0 n (unary ns)
    ∙ ap (λ (x : ℕ). with_byte x (of_unary 0 (unary ns))) e
    ∙ ap (with_byte n) (of_unary-unary ns)

then-filled : (c : Char) (s : String) → ((c then s) == "") ≡ false
then-filled c s = elim (Bool-cases ((c then s) == "")) [
  | inl e ↦ absurd (let q : (c then s) ≡ empty = (eq_iff (c then s) "").0 e in cc)
  | inr e ↦ e
]

letters-filled : (n : ℕ) (rest : String) → (letters n rest == "") ≡ false
unfolding letters
letters-filled zero rest = then-filled (char 98 tt) rest
letters-filled (suc n) rest = then-filled (char 97 tt) (letters n rest)

total : Bytes → ℕ
total [] = 0
total (n ∷ ns) = n + total ns

-- The key's total stands in front, and has to be there.
abbrev unlock : ℕ → Bytes → Option Bytes
unlock n [] = none
unlock n (m ∷ ms) = if eqb n m then some ms else none

unfoldable pub toy : Primitives
unfolding total unary letters of_unary points of_points to_char decide decide_both decide_lt
toy = record {
  public_bytes = λ a. a;
  exchange = λ a b. some ((total a + total b) ∷ []);
  hkdf = λ secret info. secret;
  encrypt = λ key nonce text associated. total key ∷ text;
  decrypt = λ key nonce text associated. unlock (total key) text;
  b64 = unary;
  unb64 = of_unary 0;
  utf8 = points;
  from_utf8 = of_points;
  urandom = λ n. n ∷ [];
}

pub toy-IsLawful : IsLawful toy
unfolding toy
toy-IsLawful = record {
  unb64-b64 = of_unary-unary;
  from_utf8-utf8 = of_points-points;
  nonce-filled = λ call. letters-filled call empty;
  decrypt-encrypt = λ secret info text associated call.
      ap (λ b. if b then some text else none) (eqb_refl (total secret));
}

abbrev pub alice : Bytes
alice = 1 ∷ []

abbrev pub bob : Bytes
bob = 2 ∷ []

pub alice-bob : Agree toy alice bob
unfolding toy
alice-bob = record { secret = 3 ∷ []; forth = refl; back = refl }
