-- ===== src/Server/Handler.antt =====
-- im/server/handler.py, class ClientHandler: the outbox between the threads that send and the thread
-- that writes. A step is what one thread does between two points at which another may run: Event and
-- Queue are each atomic, and the test of an Event and what follows are two steps.
pub mod Bounds
pub mod Refines
pub mod Drained
pub mod Order
use socket_to_ciphertext.Prelude.{
  ℕ, suc, ◌+◌, ◌<◌, ◌≤◌, Bool, true, false, Option, none, some, List, [], ◌∷◌, ◌++◌, ◌≡◌, length,
}
use socket_to_ciphertext.Wire.Frame.{Frame}

-- OUTBOX_LIMIT
abbrev pub outbox_limit : ℕ
outbox_limit = 1000

-- What is in the queue: a frame, or the sentinel _STOP.
pub data Item : Type 0 where
  frame : Frame → Item
  stop : Item

-- Where the writer's thread is: at `get`, between `get` and `sendall`, or at its end.
pub data Writer : Type 0 where
  waiting finished : Writer
  holding : Frame → Writer

-- Where a thread in `close` is: at the test, past it, past `set`, past the put of _STOP.
pub data Closing : Type 0 where
  entered tested marked stopped : Closing

pub record Handler : Type 0 where
  pub outbox : List Item
  pub closed : Bool
  -- whether the socket is open at this end
  pub connected : Bool
  pub writer : Writer
  -- the frames of the threads in `send` that are past the test of `_closed`
  pub senders : List Frame
  pub closers : List Closing
  -- the frames that went over the socket, oldest first
  pub written : List Frame

-- As `__init__` leaves it, with the writer started.
abbrev pub fresh : Handler
fresh = record {
  outbox = [];
  closed = false;
  connected = true;
  writer = waiting;
  senders = [];
  closers = [];
  written = [];
}

-- One element taken out of a list, wherever it stands.
pub data Out {ℓ} {A : Type ℓ} (x : A) : List A → List A → Type ℓ where
  first : {xs : List A} → Out x (x ∷ xs) xs
  later : {y : A} {xs ys : List A} → Out x xs ys → Out x (y ∷ xs) (y ∷ ys)

-- One thread goes on.
pub data Step : Handler → Handler → Type 0 where
  -- `send`: the test, the put, and the put that finds the queue full and goes on to `close`
  send_tests :
      {h : Handler} (f : Frame) → h.closed ≡ false → Step h (record h { senders = f ∷ h.senders })
  send_puts :
      {h : Handler} (f : Frame) (rest : List Frame)
      → Out f h.senders rest
      → length h.outbox < outbox_limit
      → Step h (record h { senders = rest; outbox = h.outbox ++ frame f ∷ [] })
  send_overflows :
      {h : Handler} (f : Frame) (rest : List Frame)
      → Out f h.senders rest
      → outbox_limit ≤ length h.outbox
      → Step h (record h { senders = rest; closers = entered ∷ h.closers })
  -- `close`: the call, the test, `set`, the put of _STOP if there is room, and the socket
  close_begins : {h : Handler} → Step h (record h { closers = entered ∷ h.closers })
  close_returns :
      {h : Handler} (rest : List Closing)
      → Out entered h.closers rest
      → h.closed ≡ true
      → Step h (record h { closers = rest })
  close_tests :
      {h : Handler} (rest : List Closing)
      → Out entered h.closers rest
      → h.closed ≡ false
      → Step h (record h { closers = tested ∷ rest })
  close_marks :
      {h : Handler} (rest : List Closing)
      → Out tested h.closers rest
      → Step h (record h { closers = marked ∷ rest; closed = true })
  close_stops :
      {h : Handler} (rest : List Closing)
      → Out marked h.closers rest
      → length h.outbox < outbox_limit
      → Step h (record h { closers = stopped ∷ rest; outbox = h.outbox ++ stop ∷ [] })
  close_finds_full :
      {h : Handler} (rest : List Closing)
      → Out marked h.closers rest
      → outbox_limit ≤ length h.outbox
      → Step h (record h { closers = stopped ∷ rest })
  close_disconnects :
      {h : Handler} (rest : List Closing)
      → Out stopped h.closers rest
      → Step h (record h { closers = rest; connected = false })
  -- `_write_loop`
  writer_gets :
      {h : Handler} (f : Frame) (rest : List Item)
      → h.writer ≡ waiting
      → h.outbox ≡ frame f ∷ rest
      → Step h (record h { writer = holding f; outbox = rest })
  writer_stops :
      {h : Handler} (rest : List Item)
      → h.writer ≡ waiting
      → h.outbox ≡ stop ∷ rest
      → Step h (record h { writer = finished; outbox = rest })
  writer_skips :
      {h : Handler} (f : Frame) → h.writer ≡ holding f → Step h (record h { writer = waiting })
  writer_writes :
      {h : Handler} (f : Frame)
      → h.writer ≡ holding f
      → h.connected ≡ true
      → Step h (record h { writer = waiting; written = h.written ++ f ∷ [] })
  writer_fails :
      {h : Handler} (f : Frame)
      → h.writer ≡ holding f
      → Step h (record h { writer = finished; closed = true })

-- Any number of steps.
pub data Steps : Handler → Handler → Type 0 where
  done : {h : Handler} → Steps h h
  then : {g h k : Handler} → Step g h → Steps h k → Steps g k

-- The frames that the queue took during the steps, in order.
abbrev pub taken_by : {g h : Handler} → Step g h → List Frame
taken_by (send_puts f rest o room) = f ∷ []
taken_by s = []

pub taken : {g h : Handler} → Steps g h → List Frame
taken done = []
taken (then s ss) = taken_by s ++ taken ss
