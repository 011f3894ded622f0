-- ===== src/Prelude/Sort.antt =====
-- `sorted` on texts: a stable insertion sort by code points, and its order and permutation facts.
use mathlib.Core.Path.{◌≡◌, refl, ap, ◌∙◌}
use mathlib.Core.Bool.{true, ◌||◌}
use mathlib.Core.Logic.{inl, inr}
use mathlib.Core.List.{List, [], ◌∷◌}
use native.Mathlib.Omega.{arith}
use Prim.Native.String.{String}
use text.Mathlib.Text.{◌==◌}
use package.socket_to_ciphertext.Prelude.Tests.{if◌then◌else◌, Bool-cases}
use package.socket_to_ciphertext.Prelude.Lists.{contains}
use package.socket_to_ciphertext.Prelude.Text.{
  str_leb, str_leb_total, str_leb_antisymm, str_leb_trans,
}

pub insert_sorted : String → List String → List String
insert_sorted x [] = x ∷ []
insert_sorted x (y ∷ ys) = if str_leb x y then x ∷ y ∷ ys else y ∷ insert_sorted x ys

unfoldable pub sorted : List String → List String
unfolding insert_sorted
sorted [] = []
sorted (x ∷ xs) = insert_sorted x (sorted xs)

-- The first name is not above any name of the list.
abbrev pub LowerBound : String → List String → Type 0
LowerBound x [] = Unit {0}
LowerBound x (y ∷ ys) = (str_leb x y ≡ true) × LowerBound x ys

abbrev pub IsSorted : List String → Type 0
IsSorted [] = Unit {0}
IsSorted (x ∷ xs) = LowerBound x xs × IsSorted xs

LowerBound-trans :
    (x y : String) (l : List String) → str_leb x y ≡ true → LowerBound y l → LowerBound x l
LowerBound-trans x y [] h b = tt
LowerBound-trans x y (z ∷ l) h b = (str_leb_trans x y z h b.0, LowerBound-trans x y l h b.1)

LowerBound-insert :
    (x y : String) (l : List String)
    → str_leb x y ≡ true
    → LowerBound x l
    → LowerBound x (insert_sorted y l)
unfolding insert_sorted
LowerBound-insert x y [] h b = (h, tt)
LowerBound-insert x y (z ∷ l) h b = ground (arith, LowerBound-insert x y l h b.1)

insert_sorted-IsSorted : (x : String) (l : List String) → IsSorted l → IsSorted (insert_sorted x l)
unfolding insert_sorted
insert_sorted-IsSorted x [] s = (tt, tt)
insert_sorted-IsSorted x (y ∷ l) s = elim (Bool-cases (str_leb x y)) [
  | inl le ↦ rw le ((le, LowerBound-trans x y l le s.0), s)
  | inr gt ↦
      rw gt (LowerBound-insert y x l (str_leb_total x y gt) s.0, insert_sorted-IsSorted x l s.1)
]

pub sorted-IsSorted : (l : List String) → IsSorted (sorted l)
unfolding sorted
sorted-IsSorted [] = tt
sorted-IsSorted (x ∷ l) = insert_sorted-IsSorted x (sorted l) (sorted-IsSorted l)

contains-insert_sorted :
    (x a : String) (l : List String) → contains (insert_sorted x l) a ≡ (x == a || contains l a)
unfolding insert_sorted
contains-insert_sorted x a [] = refl
contains-insert_sorted x a (y ∷ l) = ground (arith, contains-insert_sorted x a l)

pub contains-sorted : (l : List String) (a : String) → contains (sorted l) a ≡ contains l a
unfolding sorted
contains-sorted [] a = refl
contains-sorted (x ∷ l) a =
    contains-insert_sorted x a (sorted l) ∙ ap (λ b. x == a || b) (contains-sorted l a)

-- Insertions commute, since the order is total and antisymmetric.
pub insert_sorted_comm :
    (x y : String) (l : List String)
    → insert_sorted x (insert_sorted y l) ≡ insert_sorted y (insert_sorted x l)
unfolding insert_sorted
insert_sorted_comm x y [] =
    ground (arith, str_leb_total x y, str_leb_total y x, str_leb_antisymm x y)
insert_sorted_comm x y (z ∷ l) = ground (
  arith,
  insert_sorted_comm x y l,
  str_leb_total x y,
  str_leb_total y x,
  str_leb_antisymm x y,
  str_leb_trans x y z,
  str_leb_trans y x z,
)
