-- ===== src/Server/Tests.antt =====
-- The data of the server's tests: an environment, two accounts, and the frames that arrive.
pub mod Handlers
pub mod Sessions
pub mod Stores
use socket_to_ciphertext.Prelude.{
  ℕ, ◌+◌, String, Option, none, some, List, [], ◌∷◌, ◌++◌, codes, pos,
}
use socket_to_ciphertext.Wire.Value.{Value, null, int, str}
use socket_to_ciphertext.Wire.Frame.{MessageType, Frame}
use socket_to_ciphertext.Server.Env.{Env}
use socket_to_ciphertext.Server.Store.Users.{Users}
use socket_to_ciphertext.Server.Store.Messages
use socket_to_ciphertext.Server.Router.World.{World, set_username}

-- The one number that the tests bind is 5.
abbrev bound : Value → Option (Option String)
bound null = some none
bound (str s) = some (some s)
bound (int v) = some (some "5")
bound v = none

-- A clock that starts at 1000, and a digest that is the password's code points and the salt.
abbrev pub test_env : Env
test_env = record {
  new_id = λ n. "id";
  now_ms = λ n. n + 1000;
  token_bytes = λ n. n ∷ [];
  scrypt = λ password salt. codes password ++ salt;
  dumps = λ d. "{}";
  loads = λ s. none;
  repr = λ v. "value";
  to_int = λ v. none;
  bind_text = bound;
}

abbrev pub accounts : Users
accounts =
    (
      "alice",
      record {
        salt = 3 ∷ [];
        digest = test_env.scrypt "secret" (3 ∷ []);
        pubkey = some "key";
        created_at = 1;
      },
    )
    ∷ (
      "bob",
      record {
        salt = 4 ∷ [];
        digest = test_env.scrypt "hidden" (4 ∷ []);
        pubkey = none;
        created_at = 2;
      },
    )
    ∷ []

-- A server with two accounts and one room, before anybody connects.
abbrev pub start : World
start = record {
  username = λ c. none;
  sessions = [];
  rooms = record {
    rooms = ("#team", 1) ∷ [];
    memberships = ("#team", "alice") ∷ ("#team", "bob") ∷ [];
  };
  users = accounts;
  messages = some Messages.empty;
  contacts = some [];
  sent = [];
  calls = 0;
}

-- The same server with alice on connection 7 and bob on connection 8.
abbrev pub together : World
together = record start {
  username = set_username (set_username (λ c. none) 7 (some "alice")) 8 (some "bob");
  sessions = ("alice", 7) ∷ ("bob", 8) ∷ [];
}

abbrev pub login_frame : Frame
login_frame = record {
  type = MessageType.login;
  sender = none;
  to = none;
  body = none;
  nonce = none;
  payload = ("user", str "alice") ∷ ("pass_hash", str "secret") ∷ [];
  id = "1";
  ts = pos 5;
  v = int (pos 1);
}

-- A message whose `from` claims another author.
abbrev pub forged : Frame
forged = record login_frame {
  type = MessageType.msg;
  sender = some "bob";
  to = some "#team";
  body = some "hello";
  payload = [];
}
