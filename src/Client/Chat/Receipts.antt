-- ===== src/Client/Chat/Receipts.antt =====
-- ChatModel.set_receipt: a message's state only moves forward.
use socket_to_ciphertext.Prelude.{
  ◌<◌, String, ◌≡◌, ◌↔◌, refl, sym, subst, Bool, true, false, ap, ◌∙◌, Option, none, some, List, [],
  ◌∷◌, ◌++◌, arith, ◌==◌, leb, if◌then◌else◌, All,
}
use socket_to_ciphertext.Client.Conversation.{Message}
use socket_to_ciphertext.Client.Chat.{order, move_forward}

-- The first message with the id, and no other, is in the given state, which is a later one than it
-- was in; the rest of it is as before.
pub record Forward (id state : String) (ms ns : List Message) : Type 0 where
  pub before : List Message
  pub old : Message
  pub new : Message
  pub after : List Message
  pub was : ms ≡ before ++ old ∷ after
  pub becomes : ns ≡ before ++ new ∷ after
  pub first : All (λ (k : Message). k.id == id ≡ false) before
  pub named : old.id == id ≡ true
  pub later : order old.state < order state
  pub same_id : new.id ≡ old.id
  pub same_sender : new.sender ≡ old.sender
  pub same_body : new.body ≡ old.body
  pub same_ts : new.ts ≡ old.ts
  pub same_mine : new.mine ≡ old.mine
  pub moved : new.state ≡ state

module _ (id state : String) where
  here :
      (m : Message) (ms ns : List Message) (c : Bool)
      → m.id == id ≡ true
      → leb (order state) (order m.state) ≡ c
      → (if c then none else some (record m { state = state } ∷ ms)) ≡ some ns
      → Forward id state (m ∷ ms) ns
  here m ms ns true named e h = absurd (cc)
  here m ms ns false named e h =
      let p : record m { state = state } ∷ ms ≡ ns = cc in
      record {
        before = [];
        old = m;
        new = record m { state = state };
        after = ms;
        was = refl;
        becomes = sym p;
        first = tt;
        named = named;
        later = ground arith;
        same_id = refl;
        same_sender = refl;
        same_body = refl;
        same_ts = refl;
        same_mine = refl;
        moved = refl;
      }

  further :
      (m : Message) (ms ks : List Message)
      → m.id == id ≡ false
      → Forward id state ms ks
      → Forward id state (m ∷ ms) (m ∷ ks)
  further m ms ks n f = record {
    before = m ∷ f.before;
    old = f.old;
    new = f.new;
    after = f.after;
    was = ap (λ l. m ∷ l) f.was;
    becomes = ap (λ l. m ∷ l) f.becomes;
    first = (n, f.first);
    named = f.named;
    later = f.later;
    same_id = f.same_id;
    same_sender = f.same_sender;
    same_body = f.same_body;
    same_ts = f.same_ts;
    same_mine = f.same_mine;
    moved = f.moved;
  }

  split :
      (m : Message) (ms ns : List Message) (b : Bool) (rest : Option (List Message))
      → m.id == id ≡ b
      → ((ks : List Message) → rest ≡ some ks → Forward id state ms ks)
      → (if b
          then (if leb (order state) (order m.state)
              then none
              else some (record m { state = state } ∷ ms))
          else elim rest [ none ↦ none | some ks ↦ some (m ∷ ks) ])
        ≡ some ns
      → Forward id state (m ∷ ms) ns
  split m ms ns true rest e f h = here m ms ns (leb (order state) (order m.state)) e refl h
  split m ms ns false none e f h = absurd (cc)
  split m ms ns false (some ks) e f h =
      let p : m ∷ ks ≡ ns = cc in
      subst (Forward id state (m ∷ ms)) p (further m ms ks e (f ks refl))

  into : (ms ns : List Message) → move_forward ms id state ≡ some ns → Forward id state ms ns
  unfolding move_forward
  into [] ns h = absurd (cc)
  into (m ∷ ms) ns h =
      split m ms ns (m.id == id) (move_forward ms id state) refl (λ ks e. into ms ks e) h

  from :
      (before after : List Message) (m : Message)
      → All (λ (k : Message). k.id == id ≡ false) before
      → m.id == id ≡ true
      → order m.state < order state
      → move_forward (before ++ m ∷ after) id state
        ≡ some (before ++ record m { state = state } ∷ after)
  unfolding move_forward
  from [] after m none_before named later =
      let further_on : leb (order state) (order m.state) ≡ false = ground arith in
      rw (named, further_on) refl
  from (k ∷ before) after m others named later =
      rw (others.0, from before after m others.1 named later) refl

Forward-becomes :
    (ms ns : List Message) (id state : String)
    → Forward id state ms ns
    → move_forward ms id state ≡ some ns
Forward-becomes ms ns id state f =
    let new : record (f.old) { state = state } ≡ f.new =
      cc (f.same_id, f.same_sender, f.same_body, f.same_ts, f.same_mine, f.moved) in
    ap (λ l. move_forward l id state) f.was
    ∙ from id state f.before f.after f.old f.first f.named f.later
    ∙ ap (λ m. some (f.before ++ m ∷ f.after)) new
    ∙ ap some (sym f.becomes)

-- A receipt takes effect exactly if the first message with its id is in an earlier state than the
-- receipt reports (READ after DELIVERED after every other state). Then that message is in the
-- receipt's state, its other fields and all other messages are as before, in their order.
pub move_forward-Forward :
    (ms ns : List Message) (id state : String)
    → (move_forward ms id state ≡ some ns) ↔ Forward id state ms ns
move_forward-Forward ms ns id state = (into id state ms ns, Forward-becomes ms ns id state)
