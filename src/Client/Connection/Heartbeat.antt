-- ===== src/Client/Connection/Heartbeat.antt =====
-- ServerConnection: a link that answers no PING is given up.
use socket_to_ciphertext.Prelude.{
  ℕ, suc, ◌≡◌, refl, ap, sym, subst, Bool, true, false, not, List, [], ◌∷◌, ◌++◌, length, ltb, leb,
  arith, if◌then◌else◌,
}
use socket_to_ciphertext.Wire.Frame.{Frame}
use socket_to_ciphertext.Client.State.{
  ConnectionState, Event, transition, target, transitions, enter, same_state, can_send, is_closed,
  allows,
}
use socket_to_ciphertext.Client.Connection.{
  outbox_limit, Item, frame, stop, Connection, change, put_item, close, send, on_connection_lost,
  beat,
}

-- Turns of the heartbeat's loop, each with its PING and what is in the queue after a wait.
unfoldable pub beats : Connection → List (Frame × List Item) → Connection
unfolding beat
beats c [] = c
beats c ((ping, later) ∷ turns) =
    let rest = beats (beat c ping later).0 turns in
    if (beat c ping later).1 then rest else (beat c ping later).0

is_online :
    (s : ConnectionState) → same_state s ConnectionState.online ≡ true → ConnectionState.online ≡ s
unfolding same_state
is_online ConnectionState.online h = refl
is_online ConnectionState.disconnected h = absurd (cc)
is_online ConnectionState.connecting h = absurd (cc)
is_online ConnectionState.authenticating h = absurd (cc)
is_online ConnectionState.retrying h = absurd (cc)
is_online ConnectionState.closed h = absurd (cc)

-- The connection with its state and its flag written out.
abbrev with_state : Connection → ConnectionState → Bool → Connection
with_state c s b = record c { closing = b; machine = record { state = s; seen = (c.machine).seen } }

by_state :
    (P : Connection → Type 0) (c : Connection)
    → c.closing ≡ false
    → can_send c.machine ≡ true
    → P (with_state c ConnectionState.online false)
    → P c
unfolding can_send
by_state P c shut up h =
    subst (λ (b : Bool). P (with_state c (c.machine).state b)) (sym shut)
      (subst (λ (s : ConnectionState). P (with_state c s false)) (is_online (c.machine).state up) h)

lost-down :
    (c : Connection)
    → c.closing ≡ false
    → can_send c.machine ≡ true
    → can_send (on_connection_lost c).machine ≡ false
unfolding on_connection_lost can_send same_state is_closed allows transition transitions target
    enter
lost-down c shut up =
    by_state (λ (x : Connection). can_send (on_connection_lost x).machine ≡ false) c shut up refl

put_item-machine : (c : Connection) (i : Item) → (put_item c i).machine ≡ c.machine
put_item-machine c i = by_room (ltb (length c.outbox) outbox_limit)
  where
    by_room :
        (b : Bool) → (if b then record c { outbox = c.outbox ++ i ∷ [] } else c).machine ≡ c.machine
    by_room true = refl
    by_room false = refl

close-down :
    (c : Connection)
    → c.closing ≡ false
    → can_send c.machine ≡ true
    → can_send (close c).machine ≡ false
unfolding close can_send same_state is_closed transition transitions target enter
close-down c shut up =
    by_state (λ (x : Connection). can_send (close x).machine ≡ false) c shut up
      (ap can_send (
        put_item-machine
          (record (change (with_state c ConnectionState.online false) Event.close) {
            closing = true;
            reply_ready = true;
          })
          stop))

-- A turn either ends the loop, with a connection that cannot send, or leaves one more PING unanswered.
data Turn (c : Connection) : Connection × Bool → Type 0 where
  ended : {d : Connection} → can_send d.machine ≡ false → Turn c (d, false)
  goes_on :
      {d : Connection}
      → d.closing ≡ false
      → d.unanswered ≡ suc c.unanswered
      → leb 2 c.unanswered ≡ false
      → Turn c (d, true)

send-Turn :
    (c d : Connection) (ping : Frame) (later : List Item)
    → d.closing ≡ false
    → can_send d.machine ≡ true
    → d.unanswered ≡ suc c.unanswered
    → leb 2 c.unanswered ≡ false
    → Turn c (send d ping later)
unfolding send
send-Turn c d ping later shut up more few = by_up (can_send d.machine) up
  where
    by_room :
        (a b : Bool)
        → Turn c (
            if a
            then (record d { outbox = d.outbox ++ frame ping ∷ [] }, true)
            else (if b
                then (record d { outbox = later ++ frame ping ∷ [] }, true)
                else (close (record d { outbox = later }), false)))
    by_room true b = goes_on shut more few
    by_room false true = goes_on shut more few
    by_room false false = ended (close-down (record d { outbox = later }) shut up)

    by_up :
        (b : Bool)
        → b ≡ true
        → Turn c (
            if not b
            then (d, false)
            else (if ltb (length d.outbox) outbox_limit
                then (record d { outbox = d.outbox ++ frame ping ∷ [] }, true)
                else (if ltb (length later) outbox_limit
                    then (record d { outbox = later ++ frame ping ∷ [] }, true)
                    else (close (record d { outbox = later }), false))))
    by_up true e = by_room (ltb (length d.outbox) outbox_limit) (ltb (length later) outbox_limit)
    by_up false e = absurd (cc)

beat-Turn :
    (c : Connection) (ping : Frame) (later : List Item)
    → c.closing ≡ false
    → Turn c (beat c ping later)
unfolding beat
beat-Turn c ping later shut =
    subst
      (λ (b : Bool). Turn c (
        if b
        then (c, false)
        else (if not (can_send c.machine)
            then (c, false)
            else (if leb 2 c.unanswered
                then (on_connection_lost c, false)
                else send again ping later))))
      (sym shut) (by_up (can_send c.machine) refl)
  where
    again : Connection
    again = record c { unanswered = suc c.unanswered }

    by_count :
        (b : Bool)
        → leb 2 c.unanswered ≡ b
        → can_send c.machine ≡ true
        → Turn c (if b then (on_connection_lost c, false) else send again ping later)
    by_count true e up = ended (lost-down c shut up)
    by_count false e up = send-Turn c again ping later shut up refl e

    by_up :
        (b : Bool)
        → can_send c.machine ≡ b
        → Turn c (
            if not b
            then (c, false)
            else (if leb 2 c.unanswered
                then (on_connection_lost c, false)
                else send again ping later))
    by_up true e = by_count (leb 2 c.unanswered) refl e
    by_up false e = ended e

-- The turns that are left, when no PONG comes: at least this many reach the limit.
goes_down :
    (c : Connection) (x : Connection × Bool) (turns : List (Frame × List Item))
    → Turn c x
    → ((d : Connection)
        → d.closing ≡ false
        → d.unanswered ≡ suc c.unanswered
        → leb 2 c.unanswered ≡ false
        → can_send (beats d turns).machine ≡ false)
    → can_send (if x.1 then beats x.0 turns else x.0).machine ≡ false
goes_down c x turns (ended down) h = down
goes_down c x turns (goes_on shut more few) h = h _ shut more few

too_many : (n m k : ℕ) (P : Type 0) → m ≡ suc n → k ≡ suc m → leb 2 k ≡ false → P
too_many n m k P a b h = absurd (ground arith)

-- A connection that is not being closed, whatever its outbox holds: after three turns of the heartbeat
-- in which no frame was delivered, it cannot send any more.
pub beats-silent :
    (c : Connection) (first second third : Frame × List Item)
    → c.closing ≡ false
    → can_send (beats c (first ∷ second ∷ third ∷ [])).machine ≡ false
unfolding beats
beats-silent c first second third shut =
    goes_down c _ (second ∷ third ∷ []) (beat-Turn c first.0 first.1 shut) λ d open_d one few.
      goes_down d _ (third ∷ []) (beat-Turn d second.0 second.1 open_d) λ e open_e two few_d.
        goes_down e _ [] (beat-Turn e third.0 third.1 open_e)
          λ k open_k three few_e. too_many c.unanswered d.unanswered e.unanswered _ one two few_e
