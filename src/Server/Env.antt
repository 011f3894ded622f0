-- ===== src/Server/Env.antt =====
-- What the program calls and does not implement, as a parameter of every operation that uses it:
-- the clock, random ids and bytes, scrypt, JSON text, and sqlite's binding of a value to a TEXT
-- column. A function of a number answers the call with that number.
use socket_to_ciphertext.Prelude.{ℕ, ℤ, String, Option, List}
use socket_to_ciphertext.Prelude.Assoc.{Dict}
use socket_to_ciphertext.Wire.Value.{Value, str}

pub record Env : Type 0 where
  -- `uuid.uuid4().hex`, `int(time.time() * 1000)`, `secrets.token_bytes(16)`
  pub new_id : ℕ → String
  pub now_ms : ℕ → ℕ
  pub token_bytes : ℕ → List ℕ
  -- `hashlib.scrypt` of a text and a salt, at the module's cost
  pub scrypt : String → List ℕ → List ℕ
  -- `json.dumps` with compact separators; `json.loads`, `none` for a ValueError
  pub dumps : Dict Value → String
  pub loads : String → Option Value
  -- `str` of a value that is not a text
  pub repr : Value → String
  -- `int` of a text or a float, and `none` if it raises
  pub to_int : Value → Option ℤ
  -- a value bound to a TEXT column: what is stored, and `none` if sqlite raises
  pub bind_text : Value → Option (Option String)

-- `str(value)`
abbrev pub py_str : Env → Value → String
py_str env (str s) = s
py_str env v = env.repr v
