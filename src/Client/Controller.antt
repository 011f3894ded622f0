-- ===== src/Client/Controller.antt =====
-- im/client/controller/chat.py, class ChatController: its state, and how it sends. Between the controller
-- and the socket stands Session, whose methods pass a call on to the live ServerConnection or raise
-- NotConnected.
pub mod Gestures
pub mod Inbound
pub mod History
pub mod Frames
pub mod Guarded
pub mod Released
pub mod Shown
pub mod Tests
use socket_to_ciphertext.Prelude.{
  ℕ, suc, String, Bool, Option, none, some, List, [], ◌∷◌, ◌++◌, ℤ, pos, if◌then◌else◌,
}
use socket_to_ciphertext.Prelude.Assoc.{Dict}
use socket_to_ciphertext.Wire.Frame.{Frame}
use socket_to_ciphertext.Server.Env.{Env}
use socket_to_ciphertext.Crypto.Primitives.{Primitives}
use socket_to_ciphertext.Crypto.Keyring.{Keyring}
use socket_to_ciphertext.Client.Chat.{ChatModel}

-- What the controller meets: the functions that are not its own, and whether the connection is ONLINE
-- and takes a frame at the call with this number, which other threads decide.
pub record Outside : Type 0 where
  pub env : Env
  pub primitives : Primitives
  pub takes : ℕ → Bool

pub record Controller : Type 0 where
  pub model : ChatModel
  pub keyring : Option Keyring
  -- outgoing texts and inbound frames that wait for a key
  pub held : Dict (List String)
  pub awaiting : Dict (List Frame)
  pub pending_user : Option String
  pub pending_room : Option (String × List String)
  -- the frames that the connection took, oldest first
  pub sent : List Frame
  -- how often the connection was called, or the clock read
  pub calls : ℕ

-- An operation: the state it leaves, and what it returns; `none` is an exception, or a value of a type
-- that the code does not expect.
abbrev pub Action : Type 0 → Type 0
Action A = Controller → Controller × Option A

abbrev pub continue :
    {A B : Type 0} → Controller × Option A → (A → Action B) → Controller × Option B
continue (c, none) f = (c, none)
continue (c, some a) f = f a c

infixl 5 ◌>>=◌ ◌>>◌
abbrev pub ◌>>=◌ : {A B : Type 0} → Action A → (A → Action B) → Action B
◌>>=◌ m f c = continue (m c) f

abbrev pub ◌>>◌ : {A B : Type 0} → Action A → Action B → Action B
m >> k = m >>= λ _. k

abbrev pub return : {A : Type 0} → A → Action A
return a c = (c, some a)

abbrev pub raise : {A : Type 0} → Action A
raise c = (c, none)

abbrev pub skip : Action (Unit {0})
skip = return tt

abbrev pub when : Bool → Action (Unit {0}) → Action (Unit {0})
when b m c = if b then m c else (c, some tt)

-- `try: … except Exception`
abbrev pub swallowed : {A : Type 0} → Controller × Option A → Controller × Option (Unit {0})
swallowed (c, r) = (c, some tt)

abbrev pub attempt : {A : Type 0} → Action A → Action (Unit {0})
attempt m c = swallowed (m c)

abbrev pub each : {A : Type 0} → (A → Action (Unit {0})) → List A → Action (Unit {0})
each f [] = skip
each f (a ∷ as') = f a >> each f as'

abbrev pub update : (ChatModel → ChatModel) → Action (Unit {0})
update f c = (record c { model = f c.model }, some tt)

module _ (o : Outside) where
  -- `ServerConnection.send`, for a frame that is built with a new id and the time.
  unfoldable pub submit : (String → ℤ → Frame) → Action Frame
  submit make c =
      let f = make (o.env.new_id c.calls) (pos (o.env.now_ms c.calls)) in
      if o.takes c.calls
      then (record c { sent = c.sent ++ f ∷ []; calls = suc c.calls }, some f)
      else (record c { calls = suc c.calls }, none)

  abbrev pub request : (String → ℤ → Frame) → Action (Unit {0})
  request make = submit make >> skip
