-- ===== src/Server/Tests/Handlers.antt =====
-- The theorems on the outbox of a connection at a concrete run: two frames are sent, one is written.
use socket_to_ciphertext.Prelude.{
  ◌+◌, ◌≤◌, ◌++◌, true, none, [], ◌∷◌, ◌≡◌, refl, pos, length, arith,
}
use socket_to_ciphertext.Wire.Value.{int}
use socket_to_ciphertext.Wire.Frame.{Frame, MessageType}
use socket_to_ciphertext.Server.Handler.{
  outbox_limit, frame, Handler, fresh, first, later, send_tests, send_puts, writer_gets,
  writer_writes, writer_skips, waiting, Steps, done, then, taken,
}
use socket_to_ciphertext.Server.Handler.Bounds.{outbox_within, taken-closed}
use socket_to_ciphertext.Server.Handler.Refines.{Moves, view, steps-Moves}
use socket_to_ciphertext.Server.Handler.Order.{Sublist, written-Sublist}
use socket_to_ciphertext.Server.Handler.Drained.{Drained, outbox-Drained}

abbrev pong : Frame
pong = record {
  type = MessageType.pong;
  sender = none;
  to = none;
  body = none;
  nonce = none;
  payload = [];
  id = "a";
  ts = pos 1;
  v = int (pos 1);
}

abbrev ack : Frame
ack = record pong { type = MessageType.ack; id = "b" }

abbrev queued : Handler
queued = record fresh { outbox = frame pong ∷ frame ack ∷ [] }

abbrev half : Handler
half = record fresh { outbox = frame ack ∷ []; written = pong ∷ [] }

-- Two threads test before either of them puts.
abbrev sending : Steps fresh half
sending = then (send_tests pong refl) (
    then (send_tests ack refl) (
      then (send_puts pong (ack ∷ []) (later first) (omega arith)) (
        then (send_puts ack [] first (omega arith)) (
          then (writer_gets pong (frame ack ∷ []) refl refl)
            (then (writer_writes pong refl refl) done)))))

outbox_within_example : length half.outbox ≤ outbox_limit
outbox_within_example = outbox_within sending (omega arith)

steps-Moves_example : Moves (view fresh) (taken sending) (view half)
steps-Moves_example = steps-Moves sending

written-Sublist_example : Sublist half.written (taken sending)
written-Sublist_example = written-Sublist sending

-- A thread that has tested puts its frame although the handler is closed by then.
abbrev closing : Handler
closing = record fresh { closed = true; senders = pong ∷ [] }

abbrev too_late : Handler
too_late = record closing { senders = []; outbox = frame pong ∷ [] }

abbrev slips_in : Steps closing too_late
slips_in = then (send_puts pong [] first (omega arith)) done

taken-closed_example :
    (too_late.closed ≡ true)
    × (length (taken slips_in) + length too_late.senders ≤ length closing.senders)
taken-closed_example = taken-closed slips_in refl

-- The pong is written, the ack skipped.
abbrev last_turns :
    Steps queued
      (record queued { outbox = []; writer = waiting; written = queued.written ++ pong ∷ [] })
last_turns = then (writer_gets pong (frame ack ∷ []) refl refl) (
    then (writer_writes pong refl refl)
      (then (writer_gets ack [] refl refl) (then (writer_skips ack refl) done)))

outbox-Drained_example :
    Drained queued
      (record queued { outbox = []; writer = waiting; written = queued.written ++ pong ∷ [] })
      (pong ∷ ack ∷ [])
      4
      (ack ∷ [])
outbox-Drained_example =
    outbox-Drained last_turns (pong ∷ ack ∷ []) (refl, (refl, (refl, (refl, tt)))) refl refl refl
