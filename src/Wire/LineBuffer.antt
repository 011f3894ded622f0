-- ===== src/Wire/LineBuffer.antt =====
-- im/common/codec.py, class LineBuffer: received bytes become complete lines. Bytes and characters
-- are numbers; `bytes.decode("utf-8")` is Python's strict decoder.
pub mod Utf8
pub mod Forms
pub mod Encoder
pub mod Loop
pub mod Chunks
use socket_to_ciphertext.Prelude.{
  ℕ, zero, suc, ◌+◌, Bool, true, false, Option, none, some, List, [], ◌∷◌, ◌++◌, eqb, ltb, length,
  if◌then◌else◌,
}
use Utf8.{utf8_decode}

-- DELIMITER
abbrev pub delimiter : ℕ
delimiter = 10

-- MAX_LINE_BYTES
abbrev pub max_line_bytes : ℕ
max_line_bytes = 1048576

-- A text with its trailing carriage returns cut off: `rstrip("\r")`.
abbrev pub put_back : ℕ → List ℕ → List ℕ
put_back c [] = if eqb c 13 then [] else c ∷ []
put_back c (d ∷ ds) = c ∷ d ∷ ds

abbrev pub rstrip_cr : List ℕ → List ℕ
rstrip_cr [] = []
rstrip_cr (c ∷ cs) = put_back c (rstrip_cr cs)

-- `find(DELIMITER)`, with the bytes before the delimiter and those after it.
unfoldable pub cut : List ℕ → Option (List ℕ × List ℕ)
cut [] = none
cut (b ∷ bs) =
    if eqb b delimiter
    then some ([], bs)
    else elim (cut bs) [ none ↦ none | some (raw, rest) ↦ some (b ∷ raw, rest) ]

pub data Fed : Type 0 where
  lines : List (List ℕ) → List ℕ → Fed
  not_utf8 line_too_long : List ℕ → Fed
  out_of_fuel : Fed

-- `if text: lines.append(text)`
abbrev pub add_line : List (List ℕ) → List ℕ → List (List ℕ)
add_line out [] = out
add_line out (c ∷ cs) = out ++ (c ∷ cs) ∷ []

-- The `while True` loop: each turn takes one line off the buffer.
unfoldable pub drain : ℕ → List ℕ → List (List ℕ) → Fed
drain zero buffer out = out_of_fuel
drain (suc fuel) buffer out = elim (cut buffer) [
  | none ↦ lines out buffer
  | some (raw, rest) ↦ elim (utf8_decode raw) [
    | none ↦ not_utf8 rest
    | some text ↦ drain fuel rest (add_line out (rstrip_cr text))
  ]
]

-- The check after the loop; the buffer is cleared before the error.
abbrev pub check_length : ℕ → Fed → Fed
check_length max_line (lines out buffer) =
    if ltb max_line (length buffer) then line_too_long [] else lines out buffer
check_length max_line r = r

-- One turn of the loop for each delimiter, and one more: the buffer's length bounds them.
unfoldable pub feed : ℕ → List ℕ → List ℕ → Fed
unfolding drain cut
feed max_line buffer chunk =
    let extended = buffer ++ chunk in
    check_length max_line (drain (length extended + 1) extended [])
