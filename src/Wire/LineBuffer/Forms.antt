-- ===== src/Wire/LineBuffer/Forms.antt =====
-- What the UTF-8 decoder makes of the forms of one to four bytes.
use socket_to_ciphertext.Prelude.{
  ℕ, ◌≡◌, refl, ap, ◌∙◌, ◌+◌, ◌*◌, ◌<◌, ◌≤◌, ◌⊎◌, inl, inr, arith, Option, none, List, ◌∷◌,
}
use socket_to_ciphertext.Wire.LineBuffer.Utf8.{
  second_of_3, second_of_4, prepend, Pending, idle, one, two, lead_3, lead_4, Step, reject, wait,
  emit, start, step, decode_from,
}

-- What one byte makes of the rest.
abbrev next : List ℕ → Step → Option (List ℕ)
next bs reject = none
next bs (wait q) = decode_from q bs
next bs (emit c) = prepend c (decode_from idle bs)

decode-next : (p : Pending) (b : ℕ) (bs : List ℕ) → decode_from p (b ∷ bs) ≡ next bs (step p b)
unfolding decode_from
decode-next p b bs = by_step p (step p b) refl
  where
    by_step : (q : Pending) (s : Step) → step q b ≡ s → decode_from q (b ∷ bs) ≡ next bs s
    by_step idle reject e = rw (e, decode_from) refl
    by_step idle (wait q) e = rw (e, decode_from) refl
    by_step idle (emit c) e = rw (e, decode_from) refl
    by_step (one n) reject e = rw (e, decode_from) refl
    by_step (one n) (wait q) e = rw (e, decode_from) refl
    by_step (one n) (emit c) e = rw (e, decode_from) refl
    by_step (two n) reject e = rw (e, decode_from) refl
    by_step (two n) (wait q) e = rw (e, decode_from) refl
    by_step (two n) (emit c) e = rw (e, decode_from) refl
    by_step (lead_3 n) reject e = rw (e, decode_from) refl
    by_step (lead_3 n) (wait q) e = rw (e, decode_from) refl
    by_step (lead_3 n) (emit c) e = rw (e, decode_from) refl
    by_step (lead_4 n) reject e = rw (e, decode_from) refl
    by_step (lead_4 n) (wait q) e = rw (e, decode_from) refl
    by_step (lead_4 n) (emit c) e = rw (e, decode_from) refl

decode-wait :
    (p q : Pending) (b : ℕ) (bs : List ℕ)
    → step p b ≡ wait q
    → decode_from p (b ∷ bs) ≡ decode_from q bs
decode-wait p q b bs e = decode-next p b bs ∙ ap (next bs) e

decode-emit :
    (p : Pending) (c b : ℕ) (bs : List ℕ)
    → step p b ≡ emit c
    → decode_from p (b ∷ bs) ≡ prepend c (decode_from idle bs)
decode-emit p c b bs e = decode-next p b bs ∙ ap (next bs) e

-- The decoder on the forms of one to four bytes.
pub decode-one :
    (c : ℕ) (rest : List ℕ)
    → c < 0x80
    → decode_from idle (c ∷ rest) ≡ prepend c (decode_from idle rest)
decode-one c rest h =
    let s : step idle c ≡ emit c = unfold step start in ground arith in decode-emit idle c c rest s

pub decode-two :
    (q r : ℕ) (rest : List ℕ)
    → 2 ≤ q
    → q < 32
    → r < 64
    → decode_from idle ((0xc0 + q) ∷ (0x80 + r) ∷ rest)
      ≡ prepend (q * 64 + r) (decode_from idle rest)
decode-two q r rest h k l =
    let s : step idle (0xc0 + q) ≡ wait (one q) = unfold step start in ground arith in
    let t : step (one q) (0x80 + r) ≡ emit (q * 64 + r) = unfold step in ground arith in
    decode-wait idle (one q) (0xc0 + q) ((0x80 + r) ∷ rest) s
    ∙ decode-emit (one q) (q * 64 + r) (0x80 + r) rest t

pub decode-three :
    (p q r : ℕ) (rest : List ℕ)
    → p < 16
    → q < 64
    → r < 64
    → 32 ≤ p * 64 + q
    → ((p * 64 + q < 864) ⊎ (896 ≤ p * 64 + q))
    → decode_from idle ((0xe0 + p) ∷ (0x80 + q) ∷ (0x80 + r) ∷ rest)
      ≡ prepend ((p * 64 + q) * 64 + r) (decode_from idle rest)
decode-three p q r rest h k l low gap =
    let s : step idle (0xe0 + p) ≡ wait (lead_3 (0xe0 + p)) = unfold step start in ground arith in
    let t : step (lead_3 (0xe0 + p)) (0x80 + q) ≡ wait (one (p * 64 + q)) =
      unfold step second_of_3 in elim gap [ inl g ↦ ground arith | inr g ↦ ground arith ] in
    let u : step (one (p * 64 + q)) (0x80 + r) ≡ emit ((p * 64 + q) * 64 + r) =
      unfold step in ground arith in
    decode-wait _ _ (0xe0 + p) ((0x80 + q) ∷ (0x80 + r) ∷ rest) s
    ∙ decode-wait _ _ (0x80 + q) ((0x80 + r) ∷ rest) t
    ∙ decode-emit _ _ (0x80 + r) rest u

pub decode-four :
    (o p q r : ℕ) (rest : List ℕ)
    → o < 5
    → p < 64
    → q < 64
    → r < 64
    → 16 ≤ o * 64 + p
    → o * 64 + p < 272
    → decode_from idle ((0xf0 + o) ∷ (0x80 + p) ∷ (0x80 + q) ∷ (0x80 + r) ∷ rest)
      ≡ prepend (((o * 64 + p) * 64 + q) * 64 + r) (decode_from idle rest)
decode-four o p q r rest h k l m low high =
    let s : step idle (0xf0 + o) ≡ wait (lead_4 (0xf0 + o)) = unfold step start in ground arith in
    let t : step (lead_4 (0xf0 + o)) (0x80 + p) ≡ wait (two (o * 64 + p)) =
      unfold step second_of_4 in ground arith in
    let u : step (two (o * 64 + p)) (0x80 + q) ≡ wait (one ((o * 64 + p) * 64 + q)) =
      unfold step in ground arith in
    let v : step (one ((o * 64 + p) * 64 + q)) (0x80 + r)
        ≡ emit (((o * 64 + p) * 64 + q) * 64 + r) =
      unfold step in ground arith in
    decode-wait _ _ (0xf0 + o) ((0x80 + p) ∷ (0x80 + q) ∷ (0x80 + r) ∷ rest) s
    ∙ decode-wait _ _ (0x80 + p) ((0x80 + q) ∷ (0x80 + r) ∷ rest) t
    ∙ decode-wait _ _ (0x80 + q) ((0x80 + r) ∷ rest) u
    ∙ decode-emit _ _ (0x80 + r) rest v
