-- ===== src/Server/Handler/Drained.antt =====
-- ClientHandler: what the writer's thread does on its own while the socket takes what it sends.
use socket_to_ciphertext.Prelude.{
  ℕ, suc, ◌+◌, ◌*◌, Bool, true, false, List, [], ◌∷◌, ◌++◌, ◌≡◌, refl, sym, ap, ◌∙◌, ◌⊎◌, inl, inr,
  append_assoc, append-nil, map, length, arith,
}
use socket_to_ciphertext.Wire.Frame.{Frame}
use socket_to_ciphertext.Server.Handler.{
  Item, frame, Writer, waiting, holding, Handler, Step, send_tests, send_puts, send_overflows,
  close_begins, close_returns, close_tests, close_marks, close_stops, close_finds_full,
  close_disconnects, writer_gets, writer_stops, writer_skips, writer_writes, writer_fails, Steps,
  done, then,
}

-- A turn of the writer's loop that ends neither by _STOP nor by an OSError: `get`, the frame that
-- `encode` refuses, and `sendall`.
abbrev pub is_turn : {g h : Handler} → Step g h → Bool
is_turn (writer_gets f rest w e) = true
is_turn (writer_skips f w) = true
is_turn (writer_writes f w on) = true
is_turn s = false

abbrev pub Turns : {g h : Handler} → Steps g h → Type 0
Turns done = Unit
Turns (then s ss) = (is_turn s ≡ true) × Turns ss

-- How many steps there are, and the frames that are skipped in them.
abbrev pub number : {g h : Handler} → Steps g h → ℕ
number done = 0
number (then s ss) = suc (number ss)

abbrev pub skipped_by : {g h : Handler} → Step g h → List Frame
skipped_by (writer_skips f w) = f ∷ []
skipped_by s = []

abbrev pub skipped : {g h : Handler} → Steps g h → List Frame
skipped done = []
skipped (then s ss) = skipped_by s ++ skipped ss

-- Two lists put together, each in its order.
pub data Merged : List Frame → List Frame → List Frame → Type 0 where
  nothing : Merged [] [] []
  left : (f : Frame) (xs ys zs : List Frame) → Merged xs ys zs → Merged (f ∷ xs) ys (f ∷ zs)
  right : (f : Frame) (xs ys zs : List Frame) → Merged xs ys zs → Merged xs (f ∷ ys) (f ∷ zs)

-- What the writer has to do: the frame that it holds, and those in the queue, with no _STOP.
pub data Owes (w : Writer) (items : List Item) (fs : List Frame) : Type 0 where
  at_get : w ≡ waiting → items ≡ map frame fs → Owes w items fs
  at_send :
      (f : Frame) (gs : List Frame)
      → w ≡ holding f
      → fs ≡ f ∷ gs
      → items ≡ map frame gs
      → Owes w items fs

-- A frame in hand is one step on.
abbrev pub in_hand : Writer → ℕ
in_hand (holding f) = 1
in_hand w = 0

-- After some of the writer's steps from `g`, where it owed `fs`, to `h`: what it has done in them,
-- what it still owes, and that it goes on as long as it owes something.
pub record Drained (g h : Handler) (fs : List Frame) (n : ℕ) (lost : List Frame) : Type 0 where
  pub sent : List Frame
  pub past : List Frame
  pub rest : List Frame
  pub written : h.written ≡ g.written ++ sent
  pub each_once : Merged sent lost past
  pub in_order : past ++ rest ≡ fs
  pub owes : Owes h.writer h.outbox rest
  pub socket : h.connected ≡ true
  pub two_steps_each : n + 2 * length rest + in_hand g.writer ≡ 2 * length fs + in_hand h.writer
  pub goes_on :
      ((rest ≡ []) × (h.writer ≡ waiting) × (h.outbox ≡ []))
      ⊎ ((k : Handler) × (s : Step h k) × (is_turn s ≡ true))

-- The writer can go on while it owes anything.
goes_on_from :
    (h : Handler) (fs : List Frame)
    → h.connected ≡ true
    → Owes h.writer h.outbox fs
    → ((fs ≡ []) × (h.writer ≡ waiting) × (h.outbox ≡ []))
      ⊎ ((k : Handler) × (s : Step h k) × (is_turn s ≡ true))
goes_on_from h [] on (at_get w e) = inl (refl, w, e)
goes_on_from h (f ∷ fs) on (at_get w e) = inr (_, writer_gets f (map frame fs) w e, refl)
goes_on_from h fs on (at_send f gs w p e) = inr (_, writer_writes f w on, refl)

after_get :
    (f : Frame) (rest items : List Item) (w : Writer) (fs : List Frame)
    → w ≡ waiting
    → items ≡ frame f ∷ rest
    → Owes w items fs
    → Owes (holding f) rest fs
after_get f rest items w [] p e (at_get q d) = absurd (cc)
after_get f rest items w (g ∷ fs) p e (at_get q d) =
    let same : frame g ∷ map frame fs ≡ frame f ∷ rest = cc in at_send f fs refl (cc) (cc)
after_get f rest items w fs p e (at_send g gs q _ d) = absurd (cc)

after_send :
    (f : Frame) (items : List Item) (w : Writer) (fs : List Frame)
    → w ≡ holding f
    → Owes w items fs
    → (gs : List Frame) × (fs ≡ f ∷ gs) × Owes waiting items gs
after_send f items w fs p (at_get q d) = absurd (cc)
after_send f items w fs p (at_send g gs q e d) = (gs, cc, at_get refl d)

-- A turn of the writer and what comes after it.
turn :
    {g h : Handler} (s : Step g h) (k : Handler) (fs : List Frame) (n : ℕ) (lost : List Frame)
    → is_turn s ≡ true
    → g.connected ≡ true
    → Owes g.writer g.outbox fs
    → ((gs : List Frame) → h.connected ≡ true → Owes h.writer h.outbox gs → Drained h k gs n lost)
    → Drained g k fs (suc n) (skipped_by s ++ lost)
turn {g} (writer_gets f rest w e) k fs n lost t on o then_on =
    let r = then_on fs on (after_get f rest g.outbox g.writer fs w e o) in
    record {
      sent = r.sent;
      past = r.past;
      rest = r.rest;
      written = r.written;
      each_once = r.each_once;
      in_order = r.in_order;
      owes = r.owes;
      socket = r.socket;
      two_steps_each = omega (arith, ap in_hand w, r.two_steps_each);
      goes_on = r.goes_on;
    }
turn {g} (writer_skips f w) k fs n lost t on o then_on =
    let (gs, e, now) = after_send f g.outbox g.writer fs w o in
    let r = then_on gs on now in
    record {
      sent = r.sent;
      past = f ∷ r.past;
      rest = r.rest;
      written = r.written;
      each_once = right f r.sent lost r.past r.each_once;
      in_order = ap (λ l. f ∷ l) r.in_order ∙ sym e;
      owes = r.owes;
      socket = r.socket;
      two_steps_each = omega (arith, ap in_hand w, ap length e, r.two_steps_each);
      goes_on = r.goes_on;
    }
turn {g} (writer_writes f w up) k fs n lost t on o then_on =
    let (gs, e, now) = after_send f g.outbox g.writer fs w o in
    let r = then_on gs on now in
    record {
      sent = f ∷ r.sent;
      past = f ∷ r.past;
      rest = r.rest;
      written = r.written ∙ append_assoc g.written (f ∷ []) r.sent;
      each_once = left f r.sent lost r.past r.each_once;
      in_order = ap (λ l. f ∷ l) r.in_order ∙ sym e;
      owes = r.owes;
      socket = r.socket;
      two_steps_each = omega (arith, ap in_hand w, ap length e, r.two_steps_each);
      goes_on = r.goes_on;
    }
turn (send_tests f c) k fs n lost t on o then_on = absurd (cc)
turn (send_puts f rest i room) k fs n lost t on o then_on = absurd (cc)
turn (send_overflows f rest i full) k fs n lost t on o then_on = absurd (cc)
turn close_begins k fs n lost t on o then_on = absurd (cc)
turn (close_returns rest i c) k fs n lost t on o then_on = absurd (cc)
turn (close_tests rest i c) k fs n lost t on o then_on = absurd (cc)
turn (close_marks rest i) k fs n lost t on o then_on = absurd (cc)
turn (close_stops rest i room) k fs n lost t on o then_on = absurd (cc)
turn (close_finds_full rest i full) k fs n lost t on o then_on = absurd (cc)
turn (close_disconnects rest i) k fs n lost t on o then_on = absurd (cc)
turn (writer_stops rest w e) k fs n lost t on o then_on = absurd (cc)
turn (writer_fails f w) k fs n lost t on o then_on = absurd (cc)

drained :
    {g h : Handler} (ss : Steps g h) (fs : List Frame)
    → Turns ss
    → g.connected ≡ true
    → Owes g.writer g.outbox fs
    → Drained g h fs (number ss) (skipped ss)
drained {g} done fs t on o = record {
  sent = [];
  past = [];
  rest = fs;
  written = sym (append-nil g.written);
  each_once = nothing;
  in_order = refl;
  owes = o;
  socket = on;
  two_steps_each = omega arith;
  goes_on = goes_on_from g fs on o;
}
drained {g} {h} (then s ss) fs t on o =
    turn s h fs (number ss) (skipped ss) t.0 on o (λ gs up now. drained ss gs t.1 up now)

-- The writer waits, the socket is open, and the queue holds some frames and no _STOP. Whatever turns
-- of the writer's loop follow, in which `encode` may refuse frames but `sendall` raises nothing: each
-- frame that is gone from the queue and from the writer's hands is either written or one that was
-- skipped, each once and in order, the others still wait in order, and each takes two steps. As
-- long as any waits the writer can take another step, so after two steps for each frame none is left.
pub outbox-Drained :
    {g h : Handler} (ss : Steps g h) (fs : List Frame)
    → Turns ss
    → g.writer ≡ waiting
    → g.connected ≡ true
    → g.outbox ≡ map frame fs
    → Drained g h fs (number ss) (skipped ss)
outbox-Drained ss fs t w on e = drained ss fs t on (at_get w e)
