-- ===== src/Crypto/Primitives.antt =====
-- What im/crypto calls and does not implement: X25519, HKDF, AES-GCM, base64, UTF-8 and the system's
-- random bytes. Bytes are numbers; a private key is its raw bytes; `none` is an exception.
use socket_to_ciphertext.Prelude.{ℕ, String, false, ◌==◌, Option, some, List, ◌≡◌}

abbrev pub Bytes : Type 0
Bytes = List ℕ

pub record Primitives : Type 0 where
  -- `private.public_key().public_bytes(Raw, Raw)`; `private.exchange(from_public_bytes(peer))`
  pub public_bytes : Bytes → Bytes
  pub exchange : Bytes → Bytes → Option Bytes
  -- `HKDF(SHA256, 32, None, info).derive(secret)`
  pub hkdf : Bytes → Bytes → Bytes
  -- AESGCM(key): nonce, text, associated data
  pub encrypt : Bytes → Bytes → Bytes → Bytes → Bytes
  pub decrypt : Bytes → Bytes → Bytes → Bytes → Option Bytes
  -- `base64.b64encode(raw).decode("ascii")`; `base64.b64decode(text.encode("ascii"))`
  pub b64 : Bytes → String
  pub unb64 : String → Option Bytes
  -- `encode("utf-8")`; `decode("utf-8")`
  pub utf8 : String → Bytes
  pub from_utf8 : Bytes → Option String
  -- `os.urandom(12)`, by the number of the call
  pub urandom : ℕ → Bytes

-- What the documentation of those functions promises.
pub record IsLawful (p : Primitives) : Type 0 where
  pub unb64-b64 : (raw : Bytes) → p.unb64 (p.b64 raw) ≡ some raw
  pub from_utf8-utf8 : (s : String) → p.from_utf8 (p.utf8 s) ≡ some s
  -- 12 bytes, so no empty text
  pub nonce-filled : (call : ℕ) → (p.b64 (p.urandom call) == "") ≡ false
  -- under a derived key and a nonce of the right size
  pub decrypt-encrypt :
      (secret info text associated : Bytes) (call : ℕ)
      → p.decrypt
          (p.hkdf secret info)
          (p.urandom call)
          (p.encrypt (p.hkdf secret info) (p.urandom call) text associated)
          associated
        ≡ some text

-- The exchange of two key pairs gives both sides the same secret.
pub record Agree (p : Primitives) (a b : Bytes) : Type 0 where
  pub secret : Bytes
  pub forth : p.exchange a (p.public_bytes b) ≡ some secret
  pub back : p.exchange b (p.public_bytes a) ≡ some secret
