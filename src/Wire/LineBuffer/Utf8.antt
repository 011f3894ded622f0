-- ===== src/Wire/LineBuffer/Utf8.antt =====
-- Python's strict UTF-8 decoder, from bytes to code points: no overlong forms, no surrogates,
-- nothing above 0x10ffff.
use socket_to_ciphertext.Prelude.{
  ℕ, ◌≡◌, refl, ◌+◌, ◌-◌, ◌*◌, Bool, ◌&&◌, Option, none, some, List, [], ◌∷◌, leb, ltb,
  if◌then◌else◌,
}

abbrev pub in_range : ℕ → ℕ → ℕ → Bool
in_range lo hi b = leb lo b && leb b hi

abbrev pub is_continuation : ℕ → Bool
is_continuation = in_range 0x80 0xbf

-- The second byte after a lead byte of a three-byte form.
unfoldable pub second_of_3 : ℕ → ℕ → Bool
second_of_3 a b =
    if leb a 0xe0
    then in_range 0xa0 0xbf b
    else if in_range 0xed 0xed a
    then in_range 0x80 0x9f b
    else is_continuation b

unfoldable pub second_of_4 : ℕ → ℕ → Bool
second_of_4 a b =
    if leb a 0xf0
    then in_range 0x90 0xbf b
    else if leb 0xf4 a
    then in_range 0x80 0x8f b
    else is_continuation b

abbrev pub prepend : ℕ → Option (List ℕ) → Option (List ℕ)
prepend c none = none
prepend c (some cs) = some (c ∷ cs)

-- What is still expected of the character that is being read: nothing, one or two continuation
-- bytes after the bits so far, or the second byte of a longer form after its lead byte.
pub data Pending : Type 0 where
  idle : Pending
  one two lead_3 lead_4 : ℕ → Pending

pub data Step : Type 0 where
  reject : Step
  wait : Pending → Step
  emit : ℕ → Step

unfoldable pub start : ℕ → Step
start a =
    if ltb a 0x80
    then emit a
    else if in_range 0xc2 0xdf a
    then wait (one (a - 0xc0))
    else if in_range 0xe0 0xef a
    then wait (lead_3 a)
    else if in_range 0xf0 0xf4 a
    then wait (lead_4 a)
    else reject

unfoldable pub step : Pending → ℕ → Step
unfolding start second_of_3 second_of_4
step idle a = start a
step (one bits) b = if is_continuation b then emit (bits * 64 + (b - 0x80)) else reject
step (two bits) b = if is_continuation b then wait (one (bits * 64 + (b - 0x80))) else reject
step (lead_3 a) b = if second_of_3 a b then wait (one ((a - 0xe0) * 64 + (b - 0x80))) else reject
step (lead_4 a) b = if second_of_4 a b then wait (two ((a - 0xf0) * 64 + (b - 0x80))) else reject

unfoldable pub decode_from : Pending → List ℕ → Option (List ℕ)
unfolding step
decode_from idle [] = some []
decode_from p [] = none
decode_from p (b ∷ bs) = elim (step p b) [
  | reject ↦ none
  | wait q ↦ decode_from q bs
  | emit c ↦ prepend c (decode_from idle bs)
]

unfoldable pub utf8_decode : List ℕ → Option (List ℕ)
unfolding decode_from
utf8_decode = decode_from idle

-- "é€😀" and three refusals: an overlong form, a surrogate, a character cut short.
utf8_samples :
    (utf8_decode (0xc3 ∷ 0xa9 ∷ 0xe2 ∷ 0x82 ∷ 0xac ∷ 0xf0 ∷ 0x9f ∷ 0x98 ∷ 0x80 ∷ [])
      ≡ some (0xe9 ∷ 0x20ac ∷ 0x1f600 ∷ []))
    × (utf8_decode (0xc0 ∷ 0x80 ∷ []) ≡ none)
    × (utf8_decode (0xed ∷ 0xa0 ∷ 0x80 ∷ []) ≡ none)
    × (utf8_decode (0xe2 ∷ 0x82 ∷ []) ≡ none)
unfolding utf8_decode
utf8_samples = (refl, refl, refl, refl)
