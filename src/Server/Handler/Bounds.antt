-- ===== src/Server/Handler/Bounds.antt =====
-- ClientHandler: the outbox stays within its limit, and a closed one takes next to nothing.
use socket_to_ciphertext.Prelude.{
  suc, ◌+◌, ◌≤◌, true, List, [], ◌∷◌, ◌≡◌, refl, ap, length, arith, length-append,
}
use socket_to_ciphertext.Wire.Frame.{Frame}
use socket_to_ciphertext.Server.Handler.{
  outbox_limit, Item, frame, stop, Handler, Out, first, later, Step, send_tests, send_puts,
  send_overflows, close_begins, close_returns, close_tests, close_marks, close_stops,
  close_finds_full, close_disconnects, writer_gets, writer_stops, writer_skips, writer_writes,
  writer_fails, Steps, done, then, taken_by, taken,
}

step_within :
    {g h : Handler} → Step g h → length g.outbox ≤ outbox_limit → length h.outbox ≤ outbox_limit
step_within {g} (send_puts f rest o room) b = omega (arith, length-append g.outbox (frame f ∷ []))
step_within {g} (close_stops rest o room) b = omega (arith, length-append g.outbox (stop ∷ []))
step_within {g} (writer_gets f rest w e) b =
    let q = ap (λ (l : List Item). length l) e in omega arith
step_within {g} (writer_stops rest w e) b =
    let q = ap (λ (l : List Item). length l) e in omega arith
step_within s b = b

-- Whatever the threads do, in whatever order: an outbox that holds at most OUTBOX_LIMIT items never
-- holds more, the sentinel of `close` included.
pub outbox_within :
    {g h : Handler} (s : Steps g h)
    → length g.outbox ≤ outbox_limit
    → length h.outbox ≤ outbox_limit
outbox_within done b = b
outbox_within (then s ss) b = outbox_within ss (step_within s b)

length-Out {ℓ} : {A : Type ℓ} {x : A} {xs ys : List A} → Out x xs ys → length xs ≡ suc (length ys)
length-Out first = refl
length-Out (later o) = ap suc (length-Out o)

-- What a closed handler keeps: it stays closed, and the queue takes a frame only off a thread that was
-- past the test of `_closed`.
record Late (g h : Handler) (frames : List Frame) : Type 0 where
  still : h.closed ≡ true
  bounded : length frames + length h.senders ≤ length g.senders

step-Late : {g h : Handler} (s : Step g h) → g.closed ≡ true → Late g h (taken_by s)
step-Late (send_tests f e) c = absurd (cc)
step-Late (send_puts f rest o room) c =
    let q = length-Out o in record { still = c; bounded = omega arith }
step-Late (send_overflows f rest o full) c =
    let q = length-Out o in record { still = c; bounded = omega arith }
step-Late close_begins c = record { still = c; bounded = omega arith }
step-Late (close_returns rest o e) c = record { still = c; bounded = omega arith }
step-Late (close_tests rest o e) c = record { still = c; bounded = omega arith }
step-Late (close_marks rest o) c = record { still = refl; bounded = omega arith }
step-Late (close_stops rest o room) c = record { still = c; bounded = omega arith }
step-Late (close_finds_full rest o full) c = record { still = c; bounded = omega arith }
step-Late (close_disconnects rest o) c = record { still = c; bounded = omega arith }
step-Late (writer_gets f rest w e) c = record { still = c; bounded = omega arith }
step-Late (writer_stops rest w e) c = record { still = c; bounded = omega arith }
step-Late (writer_skips f w) c = record { still = c; bounded = omega arith }
step-Late (writer_writes f w on) c = record { still = c; bounded = omega arith }
step-Late (writer_fails f w) c = record { still = refl; bounded = omega arith }

-- Once a handler is closed it stays closed, and from then on the queue takes at most one frame for
-- each thread that was then in `send`, past its test.
pub taken-closed :
    {g h : Handler} (s : Steps g h)
    → g.closed ≡ true
    → (h.closed ≡ true) × (length (taken s) + length h.senders ≤ length g.senders)
unfolding taken
taken-closed done c = (c, omega arith)
taken-closed (then s ss) c =
    let one = step-Late s c in
    let rest = taken-closed ss one.still in
    let a = one.bounded in
    let b = rest.1 in (rest.0, omega (arith, length-append (taken_by s) (taken ss)))
