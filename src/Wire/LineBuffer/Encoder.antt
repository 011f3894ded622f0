-- ===== src/Wire/LineBuffer/Encoder.antt =====
-- Python's UTF-8 encoder, from code points to bytes, and that the decoder undoes it.
use socket_to_ciphertext.Prelude.{
  ℕ, ◌≡◌, ◌≢◌, refl, ap, subst, ◌∙◌, ◌+◌, ◌*◌, ◌/◌, ◌%◌, ◌<◌, ◌≤◌, ◌++◌, ◌⊎◌, inl, inr, arith, Bool,
  true, false, Option, none, some, List, [], ◌∷◌, All, ltb, if◌then◌else◌,
}
use socket_to_ciphertext.Wire.LineBuffer.Utf8.{in_range, prepend, idle, decode_from, utf8_decode}
use socket_to_ciphertext.Wire.LineBuffer.Forms.{decode-one, decode-two, decode-three, decode-four}

-- The encoder, character by character; `none` for a surrogate, where Python raises.
unfoldable pub encode_char : ℕ → Option (List ℕ)
encode_char c =
    if ltb c 0x80
    then some (c ∷ [])
    else if ltb c 0x800
    then some ((0xc0 + c / 64) ∷ (0x80 + c % 64) ∷ [])
    else if in_range 0xd800 0xdfff c
    then none
    else if ltb c 0x10000
    then some ((0xe0 + c / 64 / 64) ∷ (0x80 + c / 64 % 64) ∷ (0x80 + c % 64) ∷ [])
    else if ltb c 0x110000
    then some (
        (0xf0 + c / 64 / 64 / 64)
        ∷ (0x80 + c / 64 / 64 % 64)
        ∷ (0x80 + c / 64 % 64)
        ∷ (0x80 + c % 64)
        ∷ [])
    else none

abbrev and_then : Option (List ℕ) → Option (List ℕ) → Option (List ℕ)
and_then none r = none
and_then (some bs) none = none
and_then (some bs) (some cs) = some (bs ++ cs)

unfoldable pub utf8_encode : List ℕ → Option (List ℕ)
unfolding encode_char
utf8_encode [] = some []
utf8_encode (c ∷ cs) = and_then (encode_char c) (utf8_encode cs)

module _ (c : ℕ) (P : List ℕ → Type 0) (small : ltb c 0x80 ≡ true → P (c ∷ []))
    (two_bytes : ltb c 0x80 ≡ false
      → ltb c 0x800 ≡ true
      → P ((0xc0 + c / 64) ∷ (0x80 + c % 64) ∷ []))
    (three_bytes : ltb c 0x800 ≡ false
      → in_range 0xd800 0xdfff c ≡ false
      → ltb c 0x10000 ≡ true
      → P ((0xe0 + c / 64 / 64) ∷ (0x80 + c / 64 % 64) ∷ (0x80 + c % 64) ∷ []))
    (four_bytes : ltb c 0x10000 ≡ false
      → ltb c 0x110000 ≡ true
      → P (
          (0xf0 + c / 64 / 64 / 64)
          ∷ (0x80 + c / 64 / 64 % 64)
          ∷ (0x80 + c / 64 % 64)
          ∷ (0x80 + c % 64)
          ∷ [])) where
  chosen : (x bs : List ℕ) → some x ≡ some bs → P x → P bs
  chosen x bs e r = let p : x ≡ bs = cc in subst P p r

  by_tests :
      (bs : List ℕ) (t u v w x : Bool)
      → ltb c 0x80 ≡ t
      → ltb c 0x800 ≡ u
      → in_range 0xd800 0xdfff c ≡ v
      → ltb c 0x10000 ≡ w
      → ltb c 0x110000 ≡ x
      → (if t
          then some (c ∷ [])
          else if u
          then some ((0xc0 + c / 64) ∷ (0x80 + c % 64) ∷ [])
          else if v
          then none
          else if w
          then some ((0xe0 + c / 64 / 64) ∷ (0x80 + c / 64 % 64) ∷ (0x80 + c % 64) ∷ [])
          else if x
          then some (
              (0xf0 + c / 64 / 64 / 64)
              ∷ (0x80 + c / 64 / 64 % 64)
              ∷ (0x80 + c / 64 % 64)
              ∷ (0x80 + c % 64)
              ∷ [])
          else none)
        ≡ some bs
      → P bs
  by_tests bs true u v w x h1 h2 h3 h4 h5 e = chosen _ bs e (small h1)
  by_tests bs false true v w x h1 h2 h3 h4 h5 e = chosen _ bs e (two_bytes h1 h2)
  by_tests bs false false true w x h1 h2 h3 h4 h5 e = absurd (cc)
  by_tests bs false false false true x h1 h2 h3 h4 h5 e = chosen _ bs e (three_bytes h2 h3 h4)
  by_tests bs false false false false true h1 h2 h3 h4 h5 e = chosen _ bs e (four_bytes h4 h5)
  by_tests bs false false false false false h1 h2 h3 h4 h5 e = absurd (cc)

  -- A character by the number of its bytes.
  by_size : (bs : List ℕ) → encode_char c ≡ some bs → P bs
  unfolding encode_char
  by_size bs e = by_tests bs _ _ _ _ _ refl refl refl refl refl e

module _ (c : ℕ) (rest : List ℕ) where
  -- The bytes of the character in front of others are read as the character.
  abbrev IsRead : List ℕ → Type 0
  IsRead bs = decode_from idle (bs ++ rest) ≡ prepend c (decode_from idle rest)

  IsRead-two :
      ltb c 0x80 ≡ false → ltb c 0x800 ≡ true → IsRead ((0xc0 + c / 64) ∷ (0x80 + c % 64) ∷ [])
  IsRead-two h k =
      let whole : c / 64 * 64 + c % 64 ≡ c = omega arith in
      decode-two (c / 64) (c % 64) rest (ground arith) (ground arith) (omega arith)
      ∙ ap (λ n. prepend n (decode_from idle rest)) whole

  IsRead-three :
      ltb c 0x800 ≡ false
      → in_range 0xd800 0xdfff c ≡ false
      → ltb c 0x10000 ≡ true
      → IsRead ((0xe0 + c / 64 / 64) ∷ (0x80 + c / 64 % 64) ∷ (0x80 + c % 64) ∷ [])
  IsRead-three h gap k =
      let upper : c / 64 / 64 * 64 + c / 64 % 64 ≡ c / 64 = omega arith in
      let whole : (c / 64 / 64 * 64 + c / 64 % 64) * 64 + c % 64 ≡ c = omega arith in
      let outside : (c / 64 < 864) ⊎ (896 ≤ c / 64) = ground arith in
      decode-three (c / 64 / 64) (c / 64 % 64) (c % 64) rest (ground arith) (omega arith)
        (omega arith) (ground arith)
        (elim outside [ inl g ↦ inl (omega arith) | inr g ↦ inr (omega arith) ])
      ∙ ap (λ n. prepend n (decode_from idle rest)) whole

  IsRead-four :
      ltb c 0x10000 ≡ false
      → ltb c 0x110000 ≡ true
      → IsRead (
          (0xf0 + c / 64 / 64 / 64)
          ∷ (0x80 + c / 64 / 64 % 64)
          ∷ (0x80 + c / 64 % 64)
          ∷ (0x80 + c % 64)
          ∷ [])
  IsRead-four h k =
      let whole : ((c / 64 / 64 / 64 * 64 + c / 64 / 64 % 64) * 64 + c / 64 % 64) * 64 + c % 64
          ≡ c =
        omega arith in
      decode-four (c / 64 / 64 / 64) (c / 64 / 64 % 64) (c / 64 % 64) (c % 64) rest (ground arith)
        (omega arith) (omega arith) (omega arith) (ground arith) (ground arith)
      ∙ ap (λ n. prepend n (decode_from idle rest)) whole

  -- Every character that the encoder takes comes back.
  decode-encode_char : (bs : List ℕ) → encode_char c ≡ some bs → IsRead bs
  decode-encode_char bs e =
      by_size c IsRead (λ h. decode-one c rest (ground arith)) IsRead-two IsRead-three IsRead-four
        bs e

-- The decoder undoes the encoder.
pub utf8_decode-encode : (cs bs : List ℕ) → utf8_encode cs ≡ some bs → utf8_decode bs ≡ some cs
unfolding utf8_encode utf8_decode
utf8_decode-encode [] bs e =
    let p : [] ≡ bs = cc in subst (λ l. decode_from idle l ≡ some []) p (unfold decode_from in refl)
utf8_decode-encode (c ∷ cs) bs e =
    both (encode_char c) (utf8_encode cs) refl refl (λ y k. utf8_decode-encode cs y k) e
  where
    both :
        (o r : Option (List ℕ))
        → encode_char c ≡ o
        → utf8_encode cs ≡ r
        → ((y : List ℕ) → utf8_encode cs ≡ some y → decode_from idle y ≡ some cs)
        → and_then o r ≡ some bs
        → decode_from idle bs ≡ some (c ∷ cs)
    both none r h k ih e = absurd (cc)
    both (some x) none h k ih e = absurd (cc)
    both (some x) (some y) h k ih e =
        let p : x ++ y ≡ bs = cc in
        subst (λ l. decode_from idle l ≡ some (c ∷ cs)) p
          (decode-encode_char c y x h ∙ ap (prepend c) (ih y k))

-- No byte of a longer form is a delimiter.
encode_char-delimiter :
    (c : ℕ) (bs : List ℕ) → encode_char c ≡ some bs → c ≢ 10 → All (λ b. b ≢ 10) bs
encode_char-delimiter c bs e n =
    by_size c (λ l. All (λ b. b ≢ 10) l) (λ h. (n, tt))
      (λ h k. ((λ p. omega arith), ((λ p. omega arith), tt)))
      (λ h gap k. ((λ p. omega arith), ((λ p. omega arith), ((λ p. omega arith), tt))))
      (λ h k.
        ((λ p. omega arith), ((λ p. omega arith), ((λ p. omega arith), ((λ p. omega arith), tt)))))
      bs e

All-join :
    (xs ys : List ℕ) → All (λ b. b ≢ 10) xs → All (λ b. b ≢ 10) ys → All (λ b. b ≢ 10) (xs ++ ys)
All-join [] ys h k = k
All-join (x ∷ xs) ys h k = (h.0, All-join xs ys h.1 k)

-- A text without a delimiter has none among its bytes.
pub utf8_encode-delimiter :
    (cs bs : List ℕ) → utf8_encode cs ≡ some bs → All (λ c. c ≢ 10) cs → All (λ b. b ≢ 10) bs
unfolding utf8_encode
utf8_encode-delimiter [] bs e h = let p : [] ≡ bs = cc in subst (λ l. All (λ b. b ≢ 10) l) p tt
utf8_encode-delimiter (c ∷ cs) bs e h =
    both (encode_char c) (utf8_encode cs) refl (λ y k. utf8_encode-delimiter cs y k h.1) refl e
  where
    both :
        (o r : Option (List ℕ))
        → encode_char c ≡ o
        → ((y : List ℕ) → utf8_encode cs ≡ some y → All (λ b. b ≢ 10) y)
        → utf8_encode cs ≡ r
        → and_then o r ≡ some bs
        → All (λ b. b ≢ 10) bs
    both none r hd ih tl e = absurd (cc)
    both (some x) none hd ih tl e = absurd (cc)
    both (some x) (some y) hd ih tl e =
        let p : x ++ y ≡ bs = cc in
        subst (λ l. All (λ b. b ≢ 10) l) p
          (All-join x y (encode_char-delimiter c x hd h.0) (ih y tl))
