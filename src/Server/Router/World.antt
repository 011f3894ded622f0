-- ===== src/Server/Router/World.antt =====
-- im/server/router.py: the state of MessageRouter, and how it sends.
use socket_to_ciphertext.Prelude.{
  ℕ, suc, String, Bool, Option, none, some, List, [], ◌∷◌, ◌++◌, starts_with, pos, eqb,
  if◌then◌else◌,
}
use socket_to_ciphertext.Prelude.Assoc.{Dict, get}
use socket_to_ciphertext.Wire.Value.{Value, int, str}
use socket_to_ciphertext.Wire.Frame.{Frame, MessageType}
use socket_to_ciphertext.Server.Env.{Env}
use socket_to_ciphertext.Server.Registry.{Conn, SessionRegistry}
use socket_to_ciphertext.Server.Store.Rooms.{Rooms}
use socket_to_ciphertext.Server.Store.Users.{Users}
use socket_to_ciphertext.Server.Store.Messages.{Messages}
use socket_to_ciphertext.Server.Store.Contacts.{Contacts}

abbrev pub room_prefix : String
room_prefix = "#"

abbrev pub is_room : String → Bool
is_room name = starts_with name room_prefix

pub record World : Type 0 where
  -- `username` of each Session object
  pub username : Conn → Option String
  pub sessions : SessionRegistry
  pub rooms : Rooms
  pub users : Users
  pub messages : Option Messages
  pub contacts : Option Contacts
  -- every frame handed to a session, oldest first
  pub sent : List (Conn × Frame)
  -- how often the clock and the id generator have been read
  pub calls : ℕ

-- How a handler ends. `abort`: it raised, and the world is what had been done by then. `outside`: it
-- goes on with a username that is not a text, which no World holds.
pub data Outcome : Type 0 where
  done abort outside : World → Outcome

abbrev pub world : Outcome → World
world (done w) = w
world (abort w) = w
world (outside w) = w

abbrev pub set_username : (Conn → Option String) → Conn → Option String → Conn → Option String
set_username f c name d = if eqb c d then name else f d

-- `session.send(frame)`
unfoldable pub send : World → Conn → Frame → World
send w c f = record w { sent = w.sent ++ (c, f) ∷ [] }

-- `self.sessions.get(name)`, and `send` if that is a session.
unfoldable pub send_to : World → String → Frame → World
unfolding send
send_to w name f = elim (get w.sessions name) [ none ↦ w | some c ↦ send w c f ]

unfoldable pub send_each : World → List String → Frame → World
unfolding send_to
send_each w [] f = w
send_each w (name ∷ names) f = send_each (send_to w name f) names f

abbrev pub error_payload : String → String → Dict Value
error_payload code message = ("code", str code) ∷ ("message", str message) ∷ []

module _ (env : Env) where
  -- A frame that is given no id and no time reads both.
  abbrev pub make : ℕ → MessageType → Option String → Option String → Dict Value → Frame
  make call type sender to payload = record {
    type = type;
    sender = sender;
    to = to;
    body = none;
    nonce = none;
    payload = payload;
    id = env.new_id call;
    ts = pos (env.now_ms call);
    v = int (pos 1);
  }

  abbrev pub tick : World → World
  tick w = record w { calls = suc w.calls }

  -- `session.send(Frame(type=…, to=…, data=…))`
  unfoldable pub post : World → Conn → MessageType → Option String → Dict Value → World
  unfolding send
  post w c type to payload = tick (send w c (make w.calls type none to payload))

  -- `session.send(error(code, message))`
  unfoldable pub refuse : World → Conn → String → String → World
  unfolding post
  refuse w c code message = post w c MessageType.error none (error_payload code message)
