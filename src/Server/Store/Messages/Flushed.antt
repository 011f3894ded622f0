-- ===== src/Server/Store/Messages/Flushed.antt =====
-- MessageStore.flush: what is handed over, against the table of what is owed.
use mathlib.Core.List.Perm
use mathlib.Core.List.{Perm}
use socket_to_ciphertext.Prelude.{
  String, ◌≡◌, refl, Bool, true, List, [], ◌∷◌, eq_iff, eq_refl, arith, any, keep_if, Bool-cases,
  inl, inr, le_int, ap, sym, subst, ◌∙◌,
}
use socket_to_ciphertext.Server.Store.Messages.{Messages, Row, owes, flush, by_ts, insert_by_ts}
use socket_to_ciphertext.Server.Store.Messages.Pages.{Ascending, by_ts-Ascending}
use socket_to_ciphertext.Server.Store.Messages.Pending.{flush-empty}

-- The message is queued for the user.
pub data Waits (id u : String) : List (String × String) → Type 0 where
  here : {l : List (String × String)} → Waits id u ((id, u) ∷ l)
  later : {p : String × String} {l : List (String × String)} → Waits id u l → Waits id u (p ∷ l)

-- The rows of `all` for which `P` holds, each as often as it stands there.
pub data Selected (P : Row → Type 0) : List Row → List Row → Type 0 where
  none_left : Selected P [] []
  chosen :
      {r : Row} {all rows : List Row} → P r → Selected P all rows → Selected P (r ∷ all) (r ∷ rows)
  passed : {r : Row} {all rows : List Row} → ¬ P r → Selected P all rows → Selected P (r ∷ all) rows

-- A user's queue as it is handed over, and what a flush right after it hands over.
pub record Flushed (t : Messages) (u : String) (rows again : List Row) : Type 0 where
  pub queued : List Row
  pub selected : Selected (λ r. Waits r.id u t.pending) t.rows queued
  pub each_once : Perm rows queued
  pub oldest_first : Ascending rows
  pub nothing_more : again ≡ []

insert-Perm : (r : Row) (l : List Row) → Perm (insert_by_ts r l) (r ∷ l)
unfolding insert_by_ts
insert-Perm r [] = Perm.rfl
insert-Perm r (q ∷ l) = elim (Bool-cases (le_int r.ts q.ts)) [
  | inl le ↦ rw le Perm.rfl
  | inr gt ↦ rw gt (Perm.trans (Perm.cons' refl (insert-Perm r l)) (Perm.swap r q l))
]

by_ts-Perm : (l : List Row) → Perm (by_ts l) l
unfolding by_ts
by_ts-Perm [] = Perm.rfl
by_ts-Perm (r ∷ l) = Perm.trans (insert-Perm r (by_ts l)) (Perm.cons' refl (by_ts-Perm l))

any-Waits : (id u : String) (l : List (String × String)) → any (owes id u) l ≡ true → Waits id u l
any-Waits id u [] h = absurd (cc)
any-Waits id u ((i, v) ∷ l) h = elim (Bool-cases (owes id u (i, v))) [
  | inl e ↦
      let same_id : i ≡ id = ground (arith, eq_iff i id) in
      let same_user : v ≡ u = ground (arith, eq_iff v u) in
      subst (λ x. Waits id u (x ∷ l)) (sym (ap (λ j. (j, v)) same_id ∙ ap (λ w. (id, w)) same_user))
        here
  | inr other ↦ later (any-Waits id u l (ground arith))
]

Waits-any : (id u : String) (l : List (String × String)) → Waits id u l → any (owes id u) l ≡ true
Waits-any id u [] w = elim w [ ]
Waits-any id u ((i, v) ∷ l) here = ground (arith, eq_refl id, eq_refl u)
Waits-any id u ((i, v) ∷ l) (later w) = ground (arith, Waits-any id u l w)

module _ (P : Row → Type 0) (p : Row → Bool) (holds : (r : Row) → p r ≡ true → P r)
    (found : (r : Row) → P r → p r ≡ true) where
  keep_if-Selected : (l : List Row) → Selected P l (keep_if p l)
  keep_if-Selected [] = none_left
  keep_if-Selected (r ∷ l) = elim (Bool-cases (p r)) [
    | inl h ↦ rw h (chosen (holds r h) (keep_if-Selected l))
    | inr h ↦ rw h (passed (λ w. let k : p r ≡ true = found r w in cc) (keep_if-Selected l))
  ]

-- A flush hands over the rows of the messages that are queued for the user, every one of them exactly
-- once, oldest first, and a second flush right after it hands over nothing.
pub flush_once : (t : Messages) (u : String) → Flushed t u (flush t u).0 (flush (flush t u).1 u).0
unfolding flush
flush_once t u = record {
  queued = keep_if (λ r. any (owes r.id u) t.pending) t.rows;
  selected =
      keep_if-Selected (λ r. Waits r.id u t.pending) (λ r. any (owes r.id u) t.pending)
        (λ r h. any-Waits r.id u t.pending h) (λ r w. Waits-any r.id u t.pending w) t.rows;
  each_once = by_ts-Perm (keep_if (λ r. any (owes r.id u) t.pending) t.rows);
  oldest_first = by_ts-Ascending (keep_if (λ r. any (owes r.id u) t.pending) t.rows);
  nothing_more = flush-empty t u;
}
