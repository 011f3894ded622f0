-- ===== src/Client/State.antt =====
-- im/client/net/state.py: the connection's state machine and its observer.
pub mod Paths
use socket_to_ciphertext.Prelude.{
  Bool, true, false, Option, none, some, List, [], ◌∷◌, ◌++◌, ◌&&◌, not,
}

pub data ConnectionState : Type 0 where
  disconnected connecting authenticating online retrying closed : ConnectionState

pub data Event : Type 0 where
  connect socket_ready socket_failed login_ok login_refused : Event
  connection_lost backoff_expired close : Event

-- _TRANSITIONS: every legal pair but those with CLOSE.
unfoldable pub transitions : ConnectionState → Event → Option ConnectionState
transitions ConnectionState.disconnected Event.connect = some ConnectionState.connecting
transitions ConnectionState.connecting Event.socket_ready = some ConnectionState.authenticating
transitions ConnectionState.connecting Event.socket_failed = some ConnectionState.retrying
transitions ConnectionState.authenticating Event.login_ok = some ConnectionState.online
transitions ConnectionState.authenticating Event.login_refused = some ConnectionState.disconnected
transitions ConnectionState.authenticating Event.connection_lost = some ConnectionState.retrying
transitions ConnectionState.online Event.connection_lost = some ConnectionState.retrying
transitions ConnectionState.retrying Event.backoff_expired = some ConnectionState.connecting
transitions ConnectionState.retrying Event.socket_failed = some ConnectionState.retrying
transitions s e = none

-- `is`, on states.
unfoldable pub same_state : ConnectionState → ConnectionState → Bool
same_state ConnectionState.disconnected ConnectionState.disconnected = true
same_state ConnectionState.connecting ConnectionState.connecting = true
same_state ConnectionState.authenticating ConnectionState.authenticating = true
same_state ConnectionState.online ConnectionState.online = true
same_state ConnectionState.retrying ConnectionState.retrying = true
same_state ConnectionState.closed ConnectionState.closed = true
same_state s t = false

abbrev pub is_close : Event → Bool
is_close Event.close = true
is_close e = false

-- The machine, with the calls that its observer has had, oldest first.
pub record Machine : Type 0 where
  pub state : ConnectionState
  pub seen : List ConnectionState

-- A machine as `__init__` leaves it.
abbrev pub fresh : Machine
fresh = record { state = ConnectionState.disconnected; seen = [] }

unfoldable pub can_send : Machine → Bool
unfolding same_state
can_send m = same_state m.state ConnectionState.online

unfoldable pub is_closed : Machine → Bool
unfolding same_state
is_closed m = same_state m.state ConnectionState.closed

abbrev pub is_some {ℓ} : {A : Type ℓ} → Option A → Bool
is_some none = false
is_some (some a) = true

unfoldable pub allows : Machine → Event → Bool
unfolding is_closed transitions
allows m e = elim (is_closed m) [
  | true ↦ false
  | false ↦ elim (is_close e) [ true ↦ true | false ↦ is_some (transitions m.state e) ]
]

-- `none` is the exception IllegalTransition.
unfoldable pub target : ConnectionState → Event → Option ConnectionState
unfolding transitions
target ConnectionState.closed e = none
target s Event.close = some ConnectionState.closed
target s e = transitions s e

-- The observer is called with each new state, and not when the state stays.
unfoldable pub enter : Machine → ConnectionState → Machine
unfolding same_state
enter m new = elim (same_state new m.state) [
  | true ↦ m
  | false ↦ record { state = new; seen = m.seen ++ new ∷ [] }
]

unfoldable pub transition : Machine → Event → Option Machine
unfolding target enter
transition m e = elim (target m.state e) [ none ↦ none | some new ↦ some (enter m new) ]
