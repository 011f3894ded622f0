-- ===== src/Server/Store/Messages/Receipts.antt =====
-- MessageStore.mark and state_of: receipts only move a message forward.
use socket_to_ciphertext.Prelude.{
  ℕ, ◌≤◌, String, ◌≡◌, refl, Bool, subst, true, false, Option, Option-cases, inl, inr, none, some,
  ◌⊎◌, List, [], ◌∷◌, ◌==◌, arith, if◌then◌else◌,
}
use socket_to_ciphertext.Server.Store.Messages.{
  Messages, Row, State, set_once, sent, delivered, read, find_row, update_row, mark_row, mark,
  row_state,
}

-- SENT, DELIVERED, READ, in that order.
abbrev pub rank : State → ℕ
rank sent = 0
rank delivered = 1
rank read = 2

mark_row-id : (s : State) (at : ℕ) (r : Row) → (mark_row s at r).id ≡ r.id
mark_row-id sent at r = refl
mark_row-id delivered at r = refl
mark_row-id read at r = refl

mark_row-rank :
    (s : State) (at : ℕ) (r : Row) → rank (row_state r) ≤ rank (row_state (mark_row s at r))
mark_row-rank sent at r = ground arith
mark_row-rank delivered at r = ground arith
mark_row-rank read at r = ground arith

mark_row-reaches : (s : State) (at : ℕ) (r : Row) → rank s ≤ rank (row_state (mark_row s at r))
mark_row-reaches sent at r = ground arith
mark_row-reaches delivered at r = ground arith
mark_row-reaches read at r = ground arith

-- A look-up after an update of one row.
find-update :
    (id j : String) (s : State) (at : ℕ) (rows : List Row)
    → find_row (update_row id (mark_row s at) rows) j ≡ elim (find_row rows j) [
      | none ↦ none
      | some r ↦ some (if r.id == id then mark_row s at r else r)
    ]
find-update id j s at [] = refl
find-update id j s at (r ∷ rows) = ground (arith, mark_row-id s at r, find-update id j s at rows)

mark-found :
    (t : Messages) (id : String) (s : State) (at : ℕ) (r : Row)
    → find_row t.rows id ≡ some r
    → mark t id s at ≡ (record t { rows = update_row id (mark_row s at) t.rows }, some r.sender)
unfolding mark
mark-found t id s at r e = rw (e, mark) refl

-- A column after a receipt at a time: what stands in it stays, and an empty one is filled, if at all,
-- with that time.
abbrev pub Stamped : ℕ → Option ℕ → Option ℕ → Type 0
Stamped at (some t) new = new ≡ some t
Stamped at none new = (new ≡ none) ⊎ (new ≡ some at)

Stamped-refl : (at : ℕ) (o : Option ℕ) → Stamped at o o
Stamped-refl at none = inl refl
Stamped-refl at (some t) = refl

Stamped-set_once : (at : ℕ) (o : Option ℕ) → Stamped at o (set_once at o)
Stamped-set_once at none = inr refl
Stamped-set_once at (some t) = refl

-- A row before and after a receipt for the message `id`.
pub record Received (id : String) (s : State) (at : ℕ) (old new : Row) : Type 0 where
  pub delivered : Stamped at old.delivered_at new.delivered_at
  pub read : Stamped at old.read_at new.read_at
  pub reaches : rank (if old.id == id then s else row_state old) ≤ rank (row_state new)
  pub forward : rank (row_state old) ≤ rank (row_state new)
  pub others : (old.id == id ≡ true) ⊎ (new ≡ old)
  pub same_id : new.id ≡ old.id
  pub same_conversation : new.conversation ≡ old.conversation
  pub same_sender : new.sender ≡ old.sender
  pub same_recipient : new.recipient ≡ old.recipient
  pub same_body : new.body ≡ old.body
  pub same_nonce : new.nonce ≡ old.nonce
  pub same_ts : new.ts ≡ old.ts

module _ (id : String) (s : State) (at : ℕ) where
  Received-here : (r : Row) → r.id == id ≡ true → Received id s at r (mark_row s at r)
  Received-here r e =
      let (d, k, same) = columns s in
      record {
        delivered = d;
        read = k;
        reaches = rw e (mark_row-reaches s at r);
        forward = mark_row-rank s at r;
        others = inl e;
        same_id = same.0;
        same_conversation = same.1;
        same_sender = same.2;
        same_recipient = same.3;
        same_body = same.4;
        same_nonce = same.5;
        same_ts = same.6;
      }
    where
      columns :
          (q : State)
          → Stamped at r.delivered_at (mark_row q at r).delivered_at
            × Stamped at r.read_at (mark_row q at r).read_at
            × (((mark_row q at r).id ≡ r.id)
                × ((mark_row q at r).conversation ≡ r.conversation)
                × ((mark_row q at r).sender ≡ r.sender)
                × ((mark_row q at r).recipient ≡ r.recipient)
                × ((mark_row q at r).body ≡ r.body)
                × ((mark_row q at r).nonce ≡ r.nonce)
                × ((mark_row q at r).ts ≡ r.ts))
      columns sent = (
        Stamped-set_once at r.delivered_at,
        Stamped-refl at r.read_at,
        (refl, refl, refl, refl, refl, refl, refl),
      )
      columns delivered = (
        Stamped-set_once at r.delivered_at,
        Stamped-refl at r.read_at,
        (refl, refl, refl, refl, refl, refl, refl),
      )
      columns read = (
        Stamped-set_once at r.delivered_at,
        Stamped-set_once at r.read_at,
        (refl, refl, refl, refl, refl, refl, refl),
      )

  Received-elsewhere : (r : Row) → r.id == id ≡ false → Received id s at r r
  Received-elsewhere r e = record {
    delivered = Stamped-refl at r.delivered_at;
    read = Stamped-refl at r.read_at;
    reaches = rw e (omega arith);
    forward = omega arith;
    others = inr refl;
    same_id = refl;
    same_conversation = refl;
    same_sender = refl;
    same_recipient = refl;
    same_body = refl;
    same_nonce = refl;
    same_ts = refl;
  }

  Received-by :
      (r : Row) (b : Bool) → r.id == id ≡ b → Received id s at r (if b then mark_row s at r else r)
  Received-by r true e = Received-here r e
  Received-by r false e = Received-elsewhere r e

-- A message that is found is not one that is missing.
unnamed_in :
    (id : String) (q old : Row) (o n : Option Row) (b c : Bool)
    → q.id == id ≡ c
    → (o ≡ some old → n ≡ none → old.id == id ≡ false)
    → (if b then some q else o) ≡ some old
    → (if c then some q else n) ≡ none
    → old.id == id ≡ false
unnamed_in id q old o n b true e rest h k = absurd (cc)
unnamed_in id q old o n true false e rest h k =
    let same : q ≡ old = cc in subst (λ x. x.id == id ≡ false) same e
unnamed_in id q old o n false false e rest h k = rest h k

unnamed :
    (id j : String) (old : Row) (rows : List Row)
    → find_row rows j ≡ some old
    → find_row rows id ≡ none
    → old.id == id ≡ false
unnamed id j old [] h k = absurd (cc)
unnamed id j old (q ∷ rows) h k =
    unnamed_in id q old (find_row rows j) (find_row rows id) (q.id == j) (q.id == id) refl
      (unnamed id j old rows) h k

-- A receipt at a time, whatever message and state it names, and any message that is stored before it.
-- The message is stored after it too. A time that its delivered_at or read_at had stays, and an empty
-- one stays empty or becomes the receipt's time. Its state does not move back, and it reaches the
-- receipt's state if the receipt names it. All its other columns stay, and if the receipt names
-- another message the whole row stays.
pub mark_monotone :
    (t : Messages) (id j : String) (s : State) (at : ℕ) (old : Row)
    → find_row t.rows j ≡ some old
    → (new : Row) × (find_row (mark t id s at).0.rows j ≡ some new) × Received id s at old new
unfolding mark
mark_monotone t id j s at old h = elim (Option-cases (find_row t.rows id)) [
  | inl e ↦ (old, rw (e, mark) h, Received-elsewhere id s at old (unnamed id j old t.rows h e))
  | inr (r, e) ↦ (
    if old.id == id then mark_row s at old else old,
    rw (mark-found t id s at r e, find-update id j s at t.rows, h) refl,
    Received-by id s at old (old.id == id) refl,
  )
]
