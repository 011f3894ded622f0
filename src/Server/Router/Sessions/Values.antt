-- ===== src/Server/Router/Sessions/Values.antt =====
-- LOGIN with a `user` that is not a text.
use socket_to_ciphertext.Prelude.{String, ◌≡◌, true, none, some}
use socket_to_ciphertext.Prelude.Assoc.{get}
use socket_to_ciphertext.Wire.Value.{Value, or_null, truthy, text?}
use socket_to_ciphertext.Wire.Frame.{Frame, MessageType}
use socket_to_ciphertext.Server.Env.{Env}
use socket_to_ciphertext.Server.Registry.{Conn}
use socket_to_ciphertext.Server.Store.Users
use socket_to_ciphertext.Server.Router.World.{World, Outcome, outside}
use socket_to_ciphertext.Server.Router.Accounts.{login}

module _ (env : Env) (w : World) (c : Conn) (frame : Frame) where
  abbrev user : Value
  user = or_null (get frame.payload "user")

  abbrev pass : Value
  pass = or_null (get frame.payload "pass_hash")

  -- A LOGIN from a connection without a name, whose `user` is no text but is bound as the name of an
  -- account that the password opens.
  pub record ByValue : Type 0 where
    pub name : String
    pub password : String
    pub type : frame.type ≡ MessageType.login
    pub nameless : w.username c ≡ none
    pub given : truthy user ≡ true
    pub not_text : text? user ≡ none
    pub bound : env.bind_text user ≡ some (some name)
    pub pass_given : truthy pass ≡ true
    pub pass_text : text? pass ≡ some password
    pub verified : Users.verify env w.users name password ≡ true

  abbrev Accepted : Outcome → Type 0
  Accepted o = o ≡ outside w → ByValue
