-- ===== src/Server/Store/Messages/Pages.antt =====
-- MessageStore.history: the page of a conversation.
use socket_to_ciphertext.Prelude.{
  ℕ, zero, suc, ◌≤◌, ◌+◌, min, String, ◌≡◌, refl, sym, ap, ◌∙◌, subst, Bool, true, Option, some,
  List, [], ◌∷◌, ◌++◌, arith, keep_if, length, take, ℤ, le_int, le_int_total, le_int_trans,
  Bool-cases, inl, inr, All,
}
use mathlib.Core.List.{reverse, reverse_aux, reverse-append, reverse-reverse}
use socket_to_ciphertext.Server.Store.Messages.{
  Messages, Row, history, page, clamp_limit, in_conversation, by_ts, insert_by_ts, max_limit,
  bindable,
}

-- Oldest first.
abbrev pub NotAfter : ℤ → List Row → Type 0
NotAfter a [] = Unit {0}
NotAfter a (r ∷ rows) = (le_int a r.ts ≡ true) × NotAfter a rows

abbrev pub Ascending : List Row → Type 0
Ascending [] = Unit {0}
Ascending (r ∷ rows) = NotAfter r.ts rows × Ascending rows

NotAfter-trans : (a b : ℤ) (l : List Row) → le_int a b ≡ true → NotAfter b l → NotAfter a l
NotAfter-trans a b [] h k = tt
NotAfter-trans a b (q ∷ l) h k = (le_int_trans a b q.ts h k.0, NotAfter-trans a b l h k.1)

NotAfter-insert :
    (a : ℤ) (r : Row) (l : List Row)
    → le_int a r.ts ≡ true
    → NotAfter a l
    → NotAfter a (insert_by_ts r l)
unfolding insert_by_ts
NotAfter-insert a r [] h k = (h, tt)
NotAfter-insert a r (q ∷ l) h k = ground (arith, NotAfter-insert a r l h k.1)

insert-Ascending : (r : Row) (l : List Row) → Ascending l → Ascending (insert_by_ts r l)
unfolding insert_by_ts
insert-Ascending r [] s = (tt, tt)
insert-Ascending r (q ∷ l) s = elim (Bool-cases (le_int r.ts q.ts)) [
  | inl le ↦ rw le ((le, NotAfter-trans r.ts q.ts l le s.0), s)
  | inr gt ↦
      rw gt (NotAfter-insert q.ts r l (le_int_total r.ts q.ts gt) s.0, insert-Ascending r l s.1)
]

pub by_ts-Ascending : (l : List Row) → Ascending (by_ts l)
unfolding by_ts
by_ts-Ascending [] = tt
by_ts-Ascending (r ∷ l) = insert-Ascending r (by_ts l) (by_ts-Ascending l)

Ascending-right : (xs ys : List Row) → Ascending (xs ++ ys) → Ascending ys
Ascending-right [] ys s = s
Ascending-right (x ∷ xs) ys s = Ascending-right xs ys s.1

module _ (P : Row → Type 0) where
  All-insert : (r : Row) (l : List Row) → P r → All P l → All P (insert_by_ts r l)
  unfolding insert_by_ts
  All-insert r [] h k = (h, tt)
  All-insert r (q ∷ l) h k = elim (Bool-cases (le_int r.ts q.ts)) [
    | inl le ↦ rw le (h, k)
    | inr gt ↦ rw gt (k.0, All-insert r l h k.1)
  ]

  All-by_ts : (l : List Row) → All P l → All P (by_ts l)
  unfolding by_ts
  All-by_ts [] k = tt
  All-by_ts (r ∷ l) k = All-insert r (by_ts l) k.0 (All-by_ts l k.1)

  All-right : (xs ys : List Row) → All P (xs ++ ys) → All P ys
  All-right [] ys k = k
  All-right (x ∷ xs) ys k = All-right xs ys k.1

All-keep_if : (p : Row → Bool) (l : List Row) → All (λ r. p r ≡ true) (keep_if p l)
All-keep_if p [] = tt
All-keep_if p (r ∷ l) = elim (Bool-cases (p r)) [
  | inl h ↦ rw h (h, All-keep_if p l)
  | inr h ↦ rw h (All-keep_if p l)
]

length-reverse_aux : (l m : List Row) → length (reverse_aux l m) ≡ length m + length l
length-reverse_aux [] m = omega arith
length-reverse_aux (r ∷ l) m = omega (arith, length-reverse_aux l (r ∷ m))

take-split : (n : ℕ) (l : List Row) → (rest : List Row) × (l ≡ take n l ++ rest)
take-split zero l = (l, refl)
take-split (suc n) [] = ([], refl)
take-split (suc n) (r ∷ l) =
    let (rest, e) = take-split n l in (rest, ap (λ (m : List Row). r ∷ m) e)

page-suffix : (n : ℕ) (l : List Row) → (older : List Row) × (by_ts l ≡ older ++ page n l)
page-suffix n l =
    let (rest, e) = take-split n (reverse (by_ts l)) in
    (
      reverse rest,
      sym (reverse-reverse (by_ts l))
          ∙ ap reverse e
          ∙ reverse-append (take n (reverse (by_ts l))) rest,
    )

length-take : (n : ℕ) (l : List Row) → length (take n l) ≡ min n (length l)
length-take zero l = omega arith
length-take (suc n) [] = omega arith
length-take (suc n) (r ∷ l) = omega (arith, length-take n l)

length-insert : (r : Row) (l : List Row) → length (insert_by_ts r l) ≡ suc (length l)
unfolding insert_by_ts
length-insert r [] = refl
length-insert r (q ∷ l) = ground (arith, length-insert r l)

length-by_ts : (l : List Row) → length (by_ts l) ≡ length l
unfolding by_ts
length-by_ts [] = refl
length-by_ts (r ∷ l) = omega (arith, length-insert r (by_ts l), length-by_ts l)

page-length : (n : ℕ) (l : List Row) → length (page n l) ≡ min n (length l)
page-length n l = omega (
  arith,
  length-reverse_aux (take n (reverse (by_ts l))) [],
  length-take n (reverse (by_ts l)),
  length-reverse_aux (by_ts l) [],
  length-by_ts l,
)

clamp_le : (limit : ℤ) → clamp_limit limit ≤ max_limit
clamp_le limit = ground arith

-- `rows` are the last `n` of the rows of `all` that satisfy `p`, oldest first.
pub record IsPage (n : ℕ) (p : Row → Bool) (all rows : List Row) : Type 0 where
  pub older : List Row
  pub newest : by_ts (keep_if p all) ≡ older ++ rows
  pub count : length rows ≡ min n (length (keep_if p all))
  pub ascending : Ascending rows
  pub selected : All (λ r. p r ≡ true) rows

page-IsPage : (n : ℕ) (p : Row → Bool) (all : List Row) → IsPage n p all (page n (keep_if p all))
page-IsPage n p all =
    let (older, e) = page-suffix n (keep_if p all) in
    record {
      older = older;
      newest = e;
      count = page-length n (keep_if p all);
      ascending = Ascending-right older _ (subst Ascending e (by_ts-Ascending (keep_if p all)));
      selected =
          All-right (λ r. p r ≡ true) older _
            (subst (All (λ r. p r ≡ true)) e (All-by_ts _ (keep_if p all) (All-keep_if p all)));
    }

-- A history query whose `before` fits a column answers, with at most 200 rows: the newest ones of
-- those in the conversation and before that time, as many as there are up to the limit asked for,
-- brought between 1 and 200. They are in ascending order of time.
pub history-IsPage :
    (t : Messages) (conversation : String) (before : Option ℤ) (limit : ℤ)
    → bindable before ≡ true
    → (rows : List Row) × (history t conversation before limit ≡ some rows)
      × IsPage (clamp_limit limit) (in_conversation conversation before) t.rows rows
      × (length rows ≤ 200)
unfolding history
history-IsPage t conversation before limit h =
    let n = clamp_limit limit in
    let p = in_conversation conversation before in
    (
      page n (keep_if p t.rows),
      rw (h, history) refl,
      page-IsPage n p t.rows,
      omega (arith, page-length n (keep_if p t.rows), clamp_le limit),
    )
