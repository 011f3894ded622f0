-- ===== src/Server/Store/Messages/Pending.antt =====
-- MessageStore.queue_for, flush and pending_count: the queue of a user who is away.
use socket_to_ciphertext.Prelude.{
  String, ◌≡◌, ◌≢◌, refl, Bool, false, not, List, [], ◌∷◌, ◌==◌, eq_iff, arith, if◌then◌else◌, any,
  keep_if, length, ap,
}
use socket_to_ciphertext.Server.Store.Messages.{Messages, Row, owes, flush, pending_count, by_ts}

-- What is owed after the entries of one user are deleted.
keep-other :
    (u v : String) (l : List (String × String))
    → length (keep_if (λ p. p.1 == v) (keep_if (λ p. not (p.1 == u)) l))
      ≡ (if u == v then 0 else length (keep_if (λ p. p.1 == v) l))
keep-other u v [] = ground arith
keep-other u v ((i, w) ∷ l) = ground (arith, eq_iff u v, eq_iff w u, eq_iff w v, keep-other u v l)

-- After a flush nothing is queued for its user, and for every other user as much as before.
pending_count-flush :
    (t : Messages) (u v : String)
    → pending_count (flush t u).1 v ≡ (if u == v then 0 else pending_count t v)
unfolding pending_count flush
pending_count-flush t u v = keep-other u v t.pending

owed-other :
    (u v id : String) (l : List (String × String))
    → u ≢ v
    → any (owes id v) (keep_if (λ p. not (p.1 == u)) l) ≡ any (owes id v) l
owed-other u v id [] n = refl
owed-other u v id ((i, w) ∷ l) n =
    ground (arith, eq_iff u v, eq_iff w u, eq_iff w v, owed-other u v id l n)

owed-own :
    (u id : String) (l : List (String × String))
    → any (owes id u) (keep_if (λ p. not (p.1 == u)) l) ≡ false
owed-own u id [] = refl
owed-own u id ((i, w) ∷ l) = ground (arith, owed-own u id l)

keep-none : (p : Row → Bool) (rows : List Row) → ((r : Row) → p r ≡ false) → keep_if p rows ≡ []
keep-none p [] h = refl
keep-none p (r ∷ rows) h = ground (arith, h r, keep-none p rows h)

keep-same :
    (p q : Row → Bool) (rows : List Row) → ((r : Row) → p r ≡ q r) → keep_if p rows ≡ keep_if q rows
keep-same p q [] h = refl
keep-same p q (r ∷ rows) h = ground (arith, h r, keep-same p q rows h)

-- A second flush hands nothing over again.
pub flush-empty : (t : Messages) (u : String) → (flush (flush t u).1 u).0 ≡ []
unfolding flush by_ts
flush-empty t u = ap by_ts (keep-none _ t.rows (λ r. owed-own u r.id t.pending))

-- A flush for one user leaves what another user's flush hands over.
pub flush_others : (t : Messages) (u v : String) → u ≢ v → (flush (flush t u).1 v).0 ≡ (flush t v).0
unfolding flush
flush_others t u v n = ap by_ts (keep-same _ _ t.rows (λ r. owed-other u v r.id t.pending n))
