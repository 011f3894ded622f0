-- ===== src/Client/Connection.antt =====
-- im/client/net/connection.py, class ServerConnection: sending, closing, the one awaited reply, and the
-- heartbeat. Each operation is one function: the threads that run them are taken one at a time, and the
-- socket is left out.
pub mod Heartbeat
pub mod Replies
pub mod Tests
use socket_to_ciphertext.Prelude.{
  ℕ, suc, String, Bool, true, false, not, ◌||◌, Option, none, some, List, [], ◌∷◌, ◌++◌, ◌==◌,
  length, ltb, leb, any, if◌then◌else◌,
}
use socket_to_ciphertext.Wire.Value.{str}
use socket_to_ciphertext.Wire.Frame.{Frame, MessageType, wire_name}
use socket_to_ciphertext.Client.State
use socket_to_ciphertext.Client.State.{
  ConnectionState, Event, Machine, transition, can_send, is_closed, allows, same_state,
}

-- OUTBOX_LIMIT
abbrev pub outbox_limit : ℕ
outbox_limit = 100

-- MISSED_PONGS
abbrev pub missed_pongs : ℕ
missed_pongs = 2

-- What is in the queue: a frame, or the sentinel _STOP.
pub data Item : Type 0 where
  frame : Frame → Item
  stop : Item

pub record Connection : Type 0 where
  pub machine : Machine
  pub outbox : List Item
  pub closing : Bool
  pub username : Option String
  -- the handshake: the types it waits for, the slot, and the Event that wakes it
  pub await_types : List MessageType
  pub reply : Option Frame
  pub reply_ready : Bool
  -- whether the heartbeat's thread has been started, and PINGs since the last PONG
  pub heartbeat : Bool
  pub unanswered : ℕ
  -- the frames given to `on_frame`, oldest first
  pub heard : List Frame

-- As `__init__` leaves it.
abbrev pub fresh : Connection
fresh = record {
  machine = State.fresh;
  outbox = [];
  closing = false;
  username = none;
  await_types = [];
  reply = none;
  reply_ready = false;
  heartbeat = false;
  unanswered = 0;
  heard = [];
}

abbrev pub same_type : MessageType → MessageType → Bool
same_type s t = wire_name s == wire_name t

-- A transition that is not allowed raises, and leaves the machine.
abbrev pub moved : Machine → Option Machine → Machine
moved m none = m
moved m (some n) = n

abbrev pub change : Connection → Event → Connection
change c e = record c { machine = moved c.machine (transition c.machine e) }

-- `put_nowait`, where there is room.
abbrev pub put_item : Connection → Item → Connection
put_item c i =
    if ltb (length c.outbox) outbox_limit then record c { outbox = c.outbox ++ i ∷ [] } else c

-- `close`, up to the socket.
unfoldable pub close : Connection → Connection
unfolding is_closed transition
close c =
    let shut = if is_closed c.machine then c else change c Event.close in
    if c.closing then c else put_item (record shut { closing = true; reply_ready = true }) stop

-- `send`: whether the frame was taken, or NotConnected raised. `later` is the queue when the wait for
-- room ends.
unfoldable pub send : Connection → Frame → List Item → Connection × Bool
unfolding can_send close
send c f later =
    if not (can_send c.machine)
    then (c, false)
    else if ltb (length c.outbox) outbox_limit
    then (record c { outbox = c.outbox ++ frame f ∷ [] }, true)
    else if ltb (length later) outbox_limit
    then (record c { outbox = later ++ frame f ∷ [] }, true)
    else (close (record c { outbox = later }), false)

-- `_on_connection_lost`
unfoldable pub on_connection_lost : Connection → Connection
unfolding is_closed allows transition
on_connection_lost c =
    let lost =
      if allows c.machine Event.connection_lost then change c Event.connection_lost else c in
    if c.closing || is_closed c.machine then c else record lost { reply_ready = true }

-- One turn of `_heartbeat_loop`, and whether the loop goes on.
unfoldable pub beat : Connection → Frame → List Item → Connection × Bool
unfolding can_send on_connection_lost send
beat c ping later =
    if c.closing
    then (c, false)
    else if not (can_send c.machine)
    then (c, false)
    else if leb missed_pongs c.unanswered
    then (on_connection_lost c, false)
    else send (record c { unanswered = suc c.unanswered }) ping later

abbrev pub is_awaited : Connection → Frame → Bool
is_awaited c f = any (λ t. same_type f.type t) c.await_types

abbrev pub is_pong : Frame → Bool
is_pong f = same_type f.type MessageType.pong

-- `_deliver`
unfoldable pub deliver : Connection → Frame → Connection
unfolding wire_name
deliver c f =
    let alive = if is_pong f then record c { unanswered = 0 } else c in
    if is_awaited c f
    then record alive { reply = some f; await_types = []; reply_ready = true }
    else record alive { heard = c.heard ++ f ∷ [] }

-- `_request`, before the wait; `false` is NotConnected.
unfoldable pub ask : Connection → Frame → List MessageType → Connection × Bool
ask c f expecting =
    if ltb (length c.outbox) outbox_limit
    then (
      record c {
        reply = none;
        reply_ready = false;
        await_types = expecting;
        outbox = c.outbox ++ frame f ∷ [];
      },
      true,
    )
    else (record c { reply = none; reply_ready = false; await_types = [] }, false)

-- How `_request` ends after the wait.
pub data Reply : Type 0 where
  answered : Frame → Reply
  timed_out hung_up : Reply

abbrev pub taken_from : Option Frame → Reply
taken_from none = hung_up
taken_from (some f) = answered f

unfoldable pub collect : Connection → Connection × Reply
collect c =
    if c.reply_ready
    then (record c { reply = none; await_types = [] }, taken_from c.reply)
    else (record c { await_types = [] }, timed_out)

-- `_start_heartbeat`
abbrev pub start_heartbeat : Connection → Connection
start_heartbeat c = if c.heartbeat then c else record c { heartbeat = true; unanswered = 0 }

-- The end of `login`, with the reply.
unfoldable pub logged_in : Connection → String → Frame → Connection
unfolding transition wire_name
logged_in c name f =
    if same_type f.type MessageType.login_ok
    then start_heartbeat (change (record c { username = some name }) Event.login_ok)
    else change c Event.login_refused
