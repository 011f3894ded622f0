-- ===== src/Wire/LineBuffer/Loop.antt =====
-- The loop of `feed`: its fuel is enough, what it leaves in the buffer, and what it does to bytes that
-- arrive in two pieces.
use socket_to_ciphertext.Prelude.{
  ℕ, zero, suc, ◌≤◌, ◌<◌, ◌≡◌, ◌≢◌, refl, ap, sym, ◌∙◌, inl, inr, none, some, List, [], ◌∷◌, ◌++◌,
  append-nil, append_assoc, arith, length, length-append, Option-cases,
}
use socket_to_ciphertext.Wire.LineBuffer.{
  Fed, lines, not_utf8, line_too_long, out_of_fuel, cut, drain, add_line, rstrip_cr,
}
use socket_to_ciphertext.Wire.LineBuffer.Utf8.{utf8_decode}

-- What is cut off is shorter by the delimiter at least.
pub length-cut :
    (buffer raw rest : List ℕ) → cut buffer ≡ some (raw, rest) → length rest < length buffer
unfolding cut
length-cut [] raw rest e = ground arith
length-cut (b ∷ bs) raw rest e = elim (Option-cases (cut bs)) [
  | inl n ↦ ground arith
  | inr ((r, q), s) ↦ ground (arith, length-cut bs r q)
]

-- Bytes that come later do not change where the first delimiter stands.
pub cut-append :
    (buffer more raw rest : List ℕ)
    → cut buffer ≡ some (raw, rest)
    → cut (buffer ++ more) ≡ some (raw, rest ++ more)
unfolding cut
cut-append [] more raw rest e = ground arith
cut-append (b ∷ bs) more raw rest e = elim (Option-cases (cut bs)) [
  | inl n ↦ ground arith
  | inr ((r, q), s) ↦ ground (arith, cut-append bs more r q)
]

-- What one turn of the loop meets.
data Turn (buffer : List ℕ) : Type 0 where
  ended : cut buffer ≡ none → Turn buffer
  bad : (raw rest : List ℕ) → cut buffer ≡ some (raw, rest) → utf8_decode raw ≡ none → Turn buffer
  good :
      (raw rest text : List ℕ)
      → cut buffer ≡ some (raw, rest)
      → utf8_decode raw ≡ some text
      → Turn buffer

turn : (buffer : List ℕ) → Turn buffer
turn buffer = elim (Option-cases (cut buffer)) [
  | inl n ↦ ended n
  | inr ((raw, rest), s) ↦ elim (Option-cases (utf8_decode raw)) [
    | inl n ↦ bad raw rest s n
    | inr (text, t) ↦ good raw rest text s t
  ]
]

module _ (f : ℕ) (buffer : List ℕ) (out : List (List ℕ)) where
  pub drain-ended : cut buffer ≡ none → drain (suc f) buffer out ≡ lines out buffer
  unfolding drain
  drain-ended n = rw (n, drain)

  drain-bad :
      {raw rest : List ℕ}
      → cut buffer ≡ some (raw, rest)
      → utf8_decode raw ≡ none
      → drain (suc f) buffer out ≡ not_utf8 rest
  unfolding drain
  drain-bad s n = rw (s, drain) (rw n)

  pub drain-good :
      {raw rest text : List ℕ}
      → cut buffer ≡ some (raw, rest)
      → utf8_decode raw ≡ some text
      → drain (suc f) buffer out ≡ drain f rest (add_line out (rstrip_cr text))
  unfolding drain
  drain-good s t = rw (s, drain) (rw t)

-- With fuel above the buffer's length the loop ends by its test.
pub drain_ends :
    (f : ℕ) (buffer : List ℕ) (out : List (List ℕ))
    → length buffer < f
    → drain f buffer out ≢ out_of_fuel
drain_ends zero buffer out h = absurd (omega arith)
drain_ends (suc f) buffer out h = elim (turn buffer) [
  | ended n ↦ rw (drain-ended f buffer out n) (λ e. cc)
  | bad raw rest s n ↦ rw (drain-bad f buffer out s n) (λ e. cc)
  | good raw rest text s t ↦
      rw (drain-good f buffer out s t)
        (drain_ends f rest _ (omega (arith, length-cut buffer raw rest s)))
]

-- The fuel does not matter, once there is enough of it.
pub drain_fuel :
    (f g : ℕ) (buffer : List ℕ) (out : List (List ℕ))
    → length buffer < f
    → length buffer < g
    → drain f buffer out ≡ drain g buffer out
drain_fuel zero g buffer out h k = absurd (omega arith)
drain_fuel (suc f) zero buffer out h k = absurd (omega arith)
drain_fuel (suc f) (suc g) buffer out h k = elim (turn buffer) [
  | ended n ↦ drain-ended f buffer out n ∙ sym (drain-ended g buffer out n)
  | bad raw rest s n ↦ drain-bad f buffer out s n ∙ sym (drain-bad g buffer out s n)
  | good raw rest text s t ↦
      drain-good f buffer out s t
      ∙ drain_fuel f g rest _ (omega (arith, length-cut buffer raw rest s))
          (omega (arith, length-cut buffer raw rest s))
      ∙ sym (drain-good g buffer out s t)
]

-- A loop that ends well leaves no delimiter, and no more bytes than there were.
pub drain_left :
    (f : ℕ) (buffer left : List ℕ) (out ls : List (List ℕ))
    → drain f buffer out ≡ lines ls left
    → (cut left ≡ none) × (length left ≤ length buffer)
drain_left zero buffer left out ls e = absurd (drain_zero e)
  where
    drain_zero : drain zero buffer out ≡ lines ls left → ⊥
    drain_zero e = unfold drain in cc
drain_left (suc f) buffer left out ls e = elim (turn buffer) [
  | ended n ↦ ground (arith, drain-ended f buffer out n)
  | bad raw rest s n ↦ absurd (cc (drain-bad f buffer out s n))
  | good raw rest text s t ↦
      let ih = drain_left f rest left _ ls (sym (drain-good f buffer out s t) ∙ e) in
      (ih.0, omega (arith, ih.1, length-cut buffer raw rest s))
]

-- The lines found before the loop only stand in front of its own.
abbrev pub in_front : List (List ℕ) → Fed → Fed
in_front out (lines ls left) = lines (out ++ ls) left
in_front out r = r

add_line-append :
    (out : List (List ℕ)) (text : List ℕ) → add_line out text ≡ out ++ add_line [] text
add_line-append out [] = sym (append-nil out)
add_line-append out (c ∷ cs) = refl

in_front-in_front :
    (out more : List (List ℕ)) (r : Fed) → in_front out (in_front more r) ≡ in_front (out ++ more) r
in_front-in_front out more (lines ls left) = ap (λ l. lines l left) (sym (append_assoc out more ls))
in_front-in_front out more (not_utf8 left) = refl
in_front-in_front out more (line_too_long left) = refl
in_front-in_front out more out_of_fuel = refl

pub drain_out :
    (f : ℕ) (buffer : List ℕ) (out : List (List ℕ))
    → drain f buffer out ≡ in_front out (drain f buffer [])
drain_out zero buffer out = unfold drain in refl
drain_out (suc f) buffer out = elim (turn buffer) [
  | ended n ↦
      rw (drain-ended f buffer out n, drain-ended f buffer [] n)
        (ap (λ l. lines l buffer) (sym (append-nil out)))
  | bad raw rest s n ↦ rw (drain-bad f buffer out s n, drain-bad f buffer [] s n)
  | good raw rest text s t ↦
      rw (drain-good f buffer out s t, drain-good f buffer [] s t)
        (drain_out f rest (add_line out (rstrip_cr text))
          ∙ ap (λ l. in_front l (drain f rest [])) (add_line-append out (rstrip_cr text))
          ∙ sym (in_front-in_front out (add_line [] (rstrip_cr text)) (drain f rest []))
          ∙ ap (in_front out) (sym (drain_out f rest (add_line [] (rstrip_cr text)))))
]

-- Bytes that come later are read after those that are here.
pub drain-append :
    (f : ℕ) (buffer more left : List ℕ) (out ls : List (List ℕ))
    → length (buffer ++ more) < f
    → drain f buffer out ≡ lines ls left
    → drain f (buffer ++ more) out ≡ drain f (left ++ more) ls
drain-append zero buffer more left out ls h e = absurd (omega arith)
drain-append (suc f) buffer more left out ls h e = elim (turn buffer) [
  | ended n ↦ cc (drain-ended f buffer out n)
  | bad raw rest s n ↦ absurd (cc (drain-bad f buffer out s n))
  | good raw rest text s t ↦
      let e' = sym (drain-good f buffer out s t) ∙ e in
      let shorter = length-cut buffer raw rest s in
      let bound = (drain_left f rest left _ ls e').1 in
      drain-good f (buffer ++ more) out (cut-append buffer more raw rest s) t
      ∙ drain-append f rest more left _ ls
          (omega (arith, h, shorter, length-append buffer more, length-append rest more)) e'
      ∙ drain_fuel f (suc f) (left ++ more) ls
          (omega (arith, h, shorter, bound, length-append buffer more, length-append left more))
          (omega (arith, h, shorter, bound, length-append buffer more, length-append left more))
]
