-- ===== src/Client/Session.antt =====
-- im/client/net/session.py, class Session: the live connection, and the supervisor that replaces it. How
-- connecting and logging in end is a parameter of each attempt.
pub mod Recovery
pub mod Tests
use socket_to_ciphertext.Prelude.{
  ℕ, suc, String, Bool, true, false, not, ◌&&◌, ◌||◌, Option, none, some, List, [], ◌∷◌, ◌==◌,
  if◌then◌else◌,
}
use socket_to_ciphertext.Prelude.Assoc.{get}
use socket_to_ciphertext.Wire.Value.{Value, str}
use socket_to_ciphertext.Wire.Frame.{Frame, MessageType}
use socket_to_ciphertext.Client.State.{ConnectionState, can_send, same_state}
use socket_to_ciphertext.Client.Backoff.{Backoff, reset, next_delay}
use socket_to_ciphertext.Client.Backoff
use socket_to_ciphertext.Client.Connection.{Connection, same_type}

-- How `connect` and `login` of a new connection end: LOGIN_OK, an ERROR frame, one of ConnectionError,
-- TimeoutError and OSError, or NotConnected.
pub data Attempt : Type 0 where
  welcomed : Connection → Attempt
  refused unreachable hung_up : Attempt

pub record Session : Type 0 where
  pub connection : Option Connection
  pub backoff : Backoff
  -- `_stopped`, and whether the supervisor's thread runs
  pub stopped : Bool
  pub supervised : Bool
  pub reconnects : ℕ

abbrev pub fresh : Session
fresh = record {
  connection = none;
  backoff = Backoff.fresh;
  stopped = false;
  supervised = false;
  reconnects = 0;
}

abbrev pub is_user_exists : Option Value → Bool
is_user_exists (some (str s)) = s == "USER_EXISTS"
is_user_exists v = false

-- The answer to REGISTER that ends `start`.
unfoldable pub is_fatal : Option Frame → Bool
is_fatal none = false
is_fatal (some f) =
    same_type f.type MessageType.error && not (is_user_exists (get f.payload "code"))

abbrev pub started : Session → Attempt → Session
started s (welcomed c) = record s {
  connection = some c;
  backoff = reset s.backoff;
  supervised = true;
}
started s a = s

-- `start`, with the answer to REGISTER if it was asked for.
unfoldable pub start : Session → Option Frame → Attempt → Session
unfolding is_fatal
start s registered attempt = if is_fatal registered then s else started s attempt

abbrev pub close : Session → Session
close s = record s { stopped = true; connection = none }

-- `can_send`
abbrev pub is_live : Option Connection → Bool
is_live none = false
is_live (some c) = can_send c.machine

-- Whether the supervisor leaves the connection alone: it is healthy, or a handshake is in flight.
unfoldable pub is_left : Option Connection → Bool
unfolding same_state
is_left none = false
is_left (some c) =
    can_send c.machine
    || same_state (c.machine).state ConnectionState.connecting
    || same_state (c.machine).state ConnectionState.authenticating

-- `_reconnect`; an exception that it does not catch ends the supervisor.
abbrev pub attempted : Session → Attempt → Session
attempted s (welcomed c) = record s {
  connection = some c;
  reconnects = suc s.reconnects;
  backoff = reset s.backoff;
}
attempted s refused = s
attempted s unreachable = s
attempted s hung_up = record s { supervised = false }

unfoldable pub reconnect : Session → Attempt → Session
reconnect s a = attempted (record s { connection = none }) a

abbrev pub delayed : Session → Attempt → Option ℕ × Backoff → Session
delayed s a (none, b) = record s { supervised = false }
delayed s a (some delay, b) = reconnect (record s { backoff = b }) a

-- One turn of `_watch`. The power in `next_delay` may raise.
unfoldable pub watch : Session → Attempt → Session
unfolding is_left next_delay reconnect
watch s a =
    if not s.supervised || s.stopped
    then record s { supervised = false }
    else if is_left s.connection
    then s
    else delayed s a (next_delay s.backoff)

unfoldable pub watch_all : Session → List Attempt → Session
unfolding watch
watch_all s [] = s
watch_all s (a ∷ as') = watch_all (watch s a) as'
