-- ===== src/Client/State/Paths.antt =====
-- What every history of events does to the machine.
use socket_to_ciphertext.Prelude.{
  ◌≡◌, refl, ◌⊎◌, inl, inr, ◌↔◌, true, false, Option, none, some, List, [], ◌∷◌, ◌++◌, arith, ◌≢◌,
  Option-cases, Bool-cases, false≢true, sym, ◌∙◌, subst,
}
use socket_to_ciphertext.Client.State.{
  ConnectionState, Event, Machine, fresh, transitions, same_state, can_send, is_closed, is_some,
  allows, transition, target, enter,
}

-- `allows` answers true exactly for the events that `transition` applies.
allows-transition : (m : Machine) (e : Event) → allows m e ≡ is_some (transition m e)
unfolding allows transition is_closed
allows-transition m e = ground arith

-- The machine becomes able to send by one event in one state only: LOGIN_OK while authenticating.
pub can_send_by_login :
    (m n : Machine) (e : Event)
    → transition m e ≡ some n
    → can_send m ≡ false
    → can_send n ≡ true
    → (m.state ≡ ConnectionState.authenticating) × (e ≡ Event.login_ok)
unfolding transition can_send
can_send_by_login m n e t before after = ground arith

-- An event list, applied until one is illegal.
unfoldable pub run : Machine → List Event → Option Machine
run m [] = some m
run m (e ∷ es) = elim (transition m e) [ none ↦ none | some n ↦ run n es ]

-- A legal step of the diagram, CLOSE included.
pub Edge : ConnectionState → ConnectionState → Type 0
Edge s t =
    ((e : Event) × (transitions s e ≡ some t))
    ⊎ ((s ≢ ConnectionState.closed) × (t ≡ ConnectionState.closed))

-- The states that a view is told of, from `s` on: each differs from the one before, each step is in
-- the diagram, and the last is `t`.
pub data Told : ConnectionState → List ConnectionState → ConnectionState → Type 0 where
  nothing : (s : ConnectionState) → Told s [] s
  more :
      (s t u : ConnectionState) (before : List ConnectionState)
      → Told s before t
      → t ≢ u
      → Edge t u
      → Told s (before ++ u ∷ []) u

same_state_iff : (s t : ConnectionState) → (same_state s t ≡ true) ↔ (s ≡ t)
unfolding same_state
same_state_iff s t = ground arith

target-Edge : (s u : ConnectionState) (e : Event) → target s e ≡ some u → Edge s u
unfolding target Edge
target-Edge ConnectionState.closed u e h = absurd (cc)
target-Edge ConnectionState.disconnected u Event.close h = inr (λ p. cc, cc)
target-Edge ConnectionState.connecting u Event.close h = inr (λ p. cc, cc)
target-Edge ConnectionState.authenticating u Event.close h = inr (λ p. cc, cc)
target-Edge ConnectionState.online u Event.close h = inr (λ p. cc, cc)
target-Edge ConnectionState.retrying u Event.close h = inr (λ p. cc, cc)
target-Edge s u e h = inl (e, h)

-- What a legal event does: nothing, or one step of which the observer is told.
data Moved (m n : Machine) : Type 0 where
  stayed : n ≡ m → Moved m n
  told : m.state ≢ n.state → Edge m.state n.state → n.seen ≡ m.seen ++ n.state ∷ [] → Moved m n

enter-Moved : (m : Machine) (u : ConnectionState) → Edge m.state u → Moved m (enter m u)
unfolding enter
enter-Moved m u edge = elim (Bool-cases (same_state u m.state)) [
  | inl same ↦ rw (same, enter) (stayed refl)
  | inr other ↦
      rw (other, enter)
        (told (λ p. false≢true (sym other ∙ (same_state_iff u m.state).1 (sym p))) edge refl)
]

transition-Moved : (m n : Machine) (e : Event) → transition m e ≡ some n → Moved m n
unfolding transition
transition-Moved m n e t = elim (Option-cases (target m.state e)) [
  | inl illegal ↦ absurd (cc)
  | inr (u, legal) ↦ subst (Moved m) (cc) (enter-Moved m u (target-Edge m.state u e legal))
]

run-Told-from :
    (s : ConnectionState) (m n : Machine) (es : List Event)
    → Told s m.seen m.state
    → run m es ≡ some n
    → Told s n.seen n.state
unfolding run
run-Told-from s m n [] h r = subst (λ (k : Machine). Told s k.seen k.state) (cc) h
run-Told-from s m n (e ∷ es) h r = elim (Option-cases (transition m e)) [
  | inl illegal ↦ absurd (cc)
  | inr (k, legal) ↦ run-Told-from s k n es (next k (transition-Moved m k e legal)) (cc)
]
  where
    next : (k : Machine) → Moved m k → Told s k.seen k.state
    next k (stayed same) = rw same h
    next k (told ne edge seen) = rw seen (more s m.state k.state m.seen h ne edge)

-- Whatever events a new machine has accepted, its observer has been told of a path in the diagram
-- that starts at DISCONNECTED, ends in the present state, and never names a state twice in a row.
pub run-Told :
    (es : List Event) (m : Machine)
    → run fresh es ≡ some m
    → Told ConnectionState.disconnected m.seen m.state
run-Told es m r = run-Told-from _ fresh m es (nothing _) r

-- CLOSE is accepted in every state but CLOSED; it leads to CLOSED, the observer is told, and every
-- event after it is refused.
close_is_final :
    (m : Machine) (e : Event)
    → is_closed m ≡ false
    → (n : Machine) × (transition m Event.close ≡ some n)
      × (n.seen ≡ m.seen ++ ConnectionState.closed ∷ [])
      × (transition n e ≡ none)
unfolding transition is_closed
close_is_final m e h = (
  record { state = ConnectionState.closed; seen = m.seen ++ ConnectionState.closed ∷ [] },
  ground arith,
  refl,
  ground arith,
)

-- While the machine is retrying, it gets back to ONLINE only through a new connection and a new
-- login: no single event, and no two, make it able to send.
retrying_needs_login :
    (m n k : Machine) (e f : Event)
    → m.state ≡ ConnectionState.retrying
    → transition m e ≡ some n
    → transition n f ≡ some k
    → (can_send n ≡ false) × (can_send k ≡ false)
unfolding transition can_send
retrying_needs_login m n k e f r t u = ground arith
