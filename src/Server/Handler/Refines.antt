-- ===== src/Server/Handler/Refines.antt =====
-- ClientHandler: seen from outside, a channel that keeps the order of frames and may lose some.
use socket_to_ciphertext.Prelude.{
  List, [], ◌∷◌, ◌++◌, ◌≡◌, refl, sym, ap, subst, ◌∙◌, append_assoc, append-nil,
}
use socket_to_ciphertext.Wire.Frame.{Frame}
use socket_to_ciphertext.Server.Handler.{
  Item, frame, stop, Writer, waiting, holding, Handler, Step, send_tests, send_puts, send_overflows,
  close_begins, close_returns, close_tests, close_marks, close_stops, close_finds_full,
  close_disconnects, writer_gets, writer_stops, writer_skips, writer_writes, writer_fails, Steps,
  done, then, taken_by, taken,
}

-- What the handler promises: frames wait in order, and the first is delivered or lost.
pub record Channel : Type 0 where
  pub pending : List Frame
  pub delivered : List Frame

pub data Move : Channel → List Frame → Channel → Type 0 where
  rests : {c : Channel} → Move c [] c
  offers : {c : Channel} (f : Frame) → Move c (f ∷ []) (record c { pending = c.pending ++ f ∷ [] })
  delivers :
      {c : Channel} (f : Frame) (rest : List Frame)
      → c.pending ≡ f ∷ rest
      → Move c [] (record { pending = rest; delivered = c.delivered ++ f ∷ [] })
  loses :
      {c : Channel} (f : Frame) (rest : List Frame)
      → c.pending ≡ f ∷ rest
      → Move c [] (record c { pending = rest })

pub data Moves : Channel → List Frame → Channel → Type 0 where
  still : {c : Channel} → Moves c [] c
  next : {c d e : Channel} {fs gs : List Frame} → Move c fs d → Moves d gs e → Moves c (fs ++ gs) e

abbrev frames_in : List Item → List Frame
frames_in [] = []
frames_in (frame f ∷ l) = f ∷ frames_in l
frames_in (stop ∷ l) = frames_in l

abbrev held_by : Writer → List Frame
held_by (holding f) = f ∷ []
held_by w = []

-- The frame in the writer's hands, and those in the queue; _STOP and who waits where are forgotten.
abbrev pub view : Handler → Channel
view h = record { pending = held_by h.writer ++ frames_in h.outbox; delivered = h.written }

frames_in-append : (l m : List Item) → frames_in (l ++ m) ≡ frames_in l ++ frames_in m
frames_in-append [] m = refl
frames_in-append (frame f ∷ l) m = ap (λ (x : List Frame). f ∷ x) (frames_in-append l m)
frames_in-append (stop ∷ l) m = frames_in-append l m

-- A step that leaves what waits leaves the channel.
same_pending :
    (l m written : List Frame)
    → l ≡ m
    → Move
        (record { pending = l; delivered = written })
        []
        (record { pending = m; delivered = written })
same_pending l m written e =
    subst
      (λ (x : List Frame).
        Move (record { pending = l; delivered = written }) []
          (record { pending = x; delivered = written }))
      e rests

waiting_is : (w : Writer) (l : List Frame) → w ≡ waiting → held_by w ++ l ≡ l
waiting_is w l e = ap (λ (x : Writer). held_by x ++ l) e

holding_is : (w : Writer) (f : Frame) (l : List Frame) → w ≡ holding f → held_by w ++ l ≡ f ∷ l
holding_is w f l e = ap (λ (x : Writer). held_by x ++ l) e

step-Move : {g h : Handler} (s : Step g h) → Move (view g) (taken_by s) (view h)
step-Move {g} (send_puts f rest o room) =
    subst
      (λ (x : List Frame). Move (view g) (f ∷ []) (record { pending = x; delivered = g.written }))
      (append_assoc (held_by g.writer) (frames_in g.outbox) (f ∷ [])
        ∙ ap (λ (x : List Frame). held_by g.writer ++ x)
            (sym (frames_in-append g.outbox (frame f ∷ []))))
      (offers f)
step-Move (send_tests f e) = rests
step-Move (send_overflows f rest o full) = rests
step-Move close_begins = rests
step-Move (close_returns rest o e) = rests
step-Move (close_tests rest o e) = rests
step-Move (close_marks rest o) = rests
step-Move {g} (close_stops rest o room) =
    same_pending (held_by g.writer ++ frames_in g.outbox)
      (held_by g.writer ++ frames_in (g.outbox ++ stop ∷ [])) g.written
      (ap (λ (x : List Frame). held_by g.writer ++ x)
        (sym (frames_in-append g.outbox (stop ∷ []) ∙ append-nil (frames_in g.outbox))))
step-Move (close_finds_full rest o full) = rests
step-Move (close_disconnects rest o) = rests
step-Move {g} (writer_gets f rest w e) =
    same_pending (held_by g.writer ++ frames_in g.outbox) (f ∷ frames_in rest) g.written
      (waiting_is g.writer (frames_in g.outbox) w ∙ ap (λ (x : List Item). frames_in x) e)
step-Move {g} (writer_stops rest w e) =
    same_pending (held_by g.writer ++ frames_in g.outbox) (frames_in rest) g.written
      (waiting_is g.writer (frames_in g.outbox) w ∙ ap (λ (x : List Item). frames_in x) e)
step-Move {g} (writer_skips f w) =
    loses f (frames_in g.outbox) (holding_is g.writer f (frames_in g.outbox) w)
step-Move {g} (writer_writes f w on) =
    delivers f (frames_in g.outbox) (holding_is g.writer f (frames_in g.outbox) w)
step-Move {g} (writer_fails f w) =
    loses f (frames_in g.outbox) (holding_is g.writer f (frames_in g.outbox) w)

-- Every run of the threads is a run of the channel, in which the frames that the queue took are the
-- frames offered, in order.
pub steps-Moves : {g h : Handler} (s : Steps g h) → Moves (view g) (taken s) (view h)
unfolding taken
steps-Moves done = still
steps-Moves (then s ss) = next (step-Move s) (steps-Moves ss)
