-- ===== src/Prelude/Text.antt =====
-- The order by which Python sorts texts, and sqlite's default collation: by code points.
use Prim.Native.Nat.{ℕ, compare as compare_nat, Ordering}
use Prim.Native.Char.{code}
use Prim.Native.String.{String, compare, then, [], ◌∷◌, ◌++◌ as append}
use Prim.Native.String.compare
use mathlib.Core.Path.{◌≡◌, refl, sym, ap, ◌∙◌}
use mathlib.Core.Bool.{Bool, true, false, ◌&&◌, ◌||◌}
use mathlib.Core.List.{List}
use native.Mathlib.Omega.{arith}
use text.Mathlib.Text.{is_le}
use package.socket_to_ciphertext.Prelude.Tests.{leb, eqb}
use text.Mathlib.TextEquality.{path_by_compare}

-- The answer of the comparison with its sides swapped.
abbrev swapped : Ordering → Ordering
swapped Ordering.lt = Ordering.gt
swapped Ordering.eq = Ordering.eq
swapped Ordering.gt = Ordering.lt

swapped-then : (o r : Ordering) → then (swapped o) (swapped r) ≡ swapped (then o r)
swapped-then Ordering.lt r = refl
swapped-then Ordering.eq r = refl
swapped-then Ordering.gt r = refl

compare_nat_swap : (m n : ℕ) → compare_nat n m ≡ swapped (compare_nat m n)
compare_nat_swap m n = ground arith

compare_swap : (s t : String) → compare t s ≡ swapped (compare s t)
compare_swap [] [] = refl
compare_swap [] (d ∷ t) = compare.cons-nil d t ∙ ap swapped (sym (compare.nil-cons d t))
compare_swap (c ∷ s) [] = compare.nil-cons c s ∙ ap swapped (sym (compare.cons-nil c s))
compare_swap (c ∷ s) (d ∷ t) =
    rw
      (
        compare.cons-cons d c t s,
        compare.cons-cons c d s t,
        compare_nat_swap (code c) (code d),
        compare_swap s t,
      )
      (swapped-then (compare_nat (code c) (code d)) (compare s t))

-- `s <= t` on texts.
abbrev pub str_leb : String → String → Bool
str_leb s t = is_le (compare s t)

pub str_leb_total : (s t : String) → str_leb s t ≡ false → str_leb t s ≡ true
str_leb_total s t h = ground (arith, compare_swap s t)

pub str_leb_antisymm : (s t : String) → str_leb s t ≡ true → str_leb t s ≡ true → s ≡ t
str_leb_antisymm s t h k = path_by_compare s t (ground (arith, compare_swap s t))

then_trans :
    (m n k : ℕ) (o p q : Ordering)
    → (is_le o ≡ true → is_le p ≡ true → is_le q ≡ true)
    → is_le (then (compare_nat m n) o) ≡ true
    → is_le (then (compare_nat n k) p) ≡ true
    → is_le (then (compare_nat m k) q) ≡ true
then_trans m n k o p q below h g = ground arith

pub str_leb_trans : (s t u : String) → str_leb s t ≡ true → str_leb t u ≡ true → str_leb s u ≡ true
str_leb_trans [] t [] h k = refl
str_leb_trans [] t (e ∷ u) h k = rw compare.nil-cons
str_leb_trans (c ∷ s) [] u h k = ground (arith, compare.cons-nil c s)
str_leb_trans (c ∷ s) (d ∷ t) [] h k = ground (arith, compare.cons-nil d t)
str_leb_trans (c ∷ s) (d ∷ t) (e ∷ u) h k = rw compare.cons-cons (
    then_trans (code c) (code d) (code e) _ _ _ (str_leb_trans s t u) (rw compare.cons-cons at h)
      (rw compare.cons-cons at k))

-- The code points of a text.
abbrev pub codes : String → List ℕ
codes [] = List.[]
codes (c ∷ s) = List.◌∷◌ (code c) (codes s)

-- `str.isspace` of one character.
abbrev pub is_space : ℕ → Bool
is_space c =
    (leb 9 c && leb c 13)
    || (leb 28 c && leb c 32)
    || eqb c 0x85
    || eqb c 0xa0
    || eqb c 0x1680
    || (leb 0x2000 c && leb c 0x200a)
    || eqb c 0x2028
    || eqb c 0x2029
    || eqb c 0x202f
    || eqb c 0x205f
    || eqb c 0x3000

-- The pieces of an f-string, put together.
abbrev pub concat : List String → String
concat List.[] = ""
concat (List.◌∷◌ s ss) = append s (concat ss)

-- `separator.join(texts)`
abbrev pub join_texts : String → List String → String
join_texts sep List.[] = ""
join_texts sep (List.◌∷◌ s List.[]) = s
join_texts sep (List.◌∷◌ s (List.◌∷◌ t ts)) = append s (append sep (join_texts sep (List.◌∷◌ t ts)))
