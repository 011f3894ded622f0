-- ===== src/Prelude/Space.antt =====
-- Python's `str.strip()`.
use Prim.Native.Nat.{ℕ}
use Prim.Native.Char.{Char, code}
use Prim.Native.String.{String, [], ◌∷◌}
use mathlib.Core.Bool.{Bool, ◌&&◌, ◌||◌}
use text.Mathlib.Text.{◌==◌}
use package.socket_to_ciphertext.Prelude.Tests.{leb, eqb, if◌then◌else◌}

abbrev is_between : ℕ → ℕ → ℕ → Bool
is_between low high n = leb low n && leb n high

-- The characters of `str.isspace`.
unfoldable pub is_space : Char → Bool
is_space c =
    is_between 9 13 (code c)
    || is_between 28 32 (code c)
    || eqb (code c) 133
    || eqb (code c) 160
    || eqb (code c) 5760
    || is_between 8192 8202 (code c)
    || is_between 8232 8233 (code c)
    || eqb (code c) 8239
    || eqb (code c) 8287
    || eqb (code c) 12288

pub lstrip : String → String
unfolding is_space
lstrip [] = []
lstrip (c ∷ s) = let rest = lstrip s in if is_space c then rest else c ∷ s

pub rstrip : String → String
unfolding is_space
rstrip [] = []
rstrip (c ∷ s) = let rest = rstrip s in if is_space c && rest == "" then [] else c ∷ rest

unfoldable pub strip : String → String
unfolding lstrip rstrip
strip s = rstrip (lstrip s)

-- `not text.strip()`
abbrev pub is_blank : String → Bool
is_blank s = strip s == ""
