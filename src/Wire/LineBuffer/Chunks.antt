-- ===== src/Wire/LineBuffer/Chunks.antt =====
-- `feed` over a whole stream: the cut into chunks does not matter, and the buffer stays bounded.
use socket_to_ciphertext.Prelude.{
  ℕ, zero, suc, ◌+◌, ◌≤◌, ◌<◌, ◌≡◌, ◌≢◌, refl, ap, ◌∙◌, inl, inr, none, some, List, [], ◌∷◌, ◌++◌,
  append-nil, append_assoc, arith, length, length-append, Option-cases, subst, All,
}
use socket_to_ciphertext.Wire.LineBuffer.{
  Fed, lines, not_utf8, line_too_long, out_of_fuel, cut, drain, feed, check_length, add_line,
  rstrip_cr, put_back,
}
use socket_to_ciphertext.Wire.LineBuffer.Loop.{
  drain_ends, drain_fuel, drain_left, drain_out, drain-append, in_front, drain-good, drain-ended,
}
use socket_to_ciphertext.Wire.LineBuffer.Utf8.{utf8_decode}
use native.Mathlib.Numerals.{add-one}

-- `feed` returns `ls` and keeps `left` exactly if the loop does and `left` is within the bound.
feed-eq-lines :
    (m : ℕ) (buffer chunk left : List ℕ) (ls : List (List ℕ))
    → feed m buffer chunk ≡ lines ls left
    → (drain (length (buffer ++ chunk) + 1) (buffer ++ chunk) [] ≡ lines ls left)
      × (length left ≤ m)
unfolding feed
feed-eq-lines m buffer chunk left ls e =
    go (drain (length (buffer ++ chunk) + 1) (buffer ++ chunk) []) e
  where
    go : (r : Fed) → check_length m r ≡ lines ls left → (r ≡ lines ls left) × (length left ≤ m)
    go (lines out b) e = ground arith
    go (not_utf8 b) e = cc
    go (line_too_long b) e = cc
    go out_of_fuel e = cc

lines-eq-feed :
    (m : ℕ) (buffer chunk left : List ℕ) (ls : List (List ℕ))
    → drain (length (buffer ++ chunk) + 1) (buffer ++ chunk) [] ≡ lines ls left
    → length left ≤ m
    → feed m buffer chunk ≡ lines ls left
unfolding feed
lines-eq-feed m buffer chunk left ls e h = rw e (ground arith)

-- The loop of `feed` always ends by its test: the fuel in the definition is enough.
pub feed_ends : (m : ℕ) (buffer chunk : List ℕ) → feed m buffer chunk ≢ out_of_fuel
unfolding feed
feed_ends m buffer chunk e =
    drain_ends (length (buffer ++ chunk) + 1) (buffer ++ chunk) [] (omega arith)
      (go (drain (length (buffer ++ chunk) + 1) (buffer ++ chunk) []) e)
  where
    go : (r : Fed) → check_length m r ≡ out_of_fuel → r ≡ out_of_fuel
    go (lines out b) e = ground arith
    go (not_utf8 b) e = e
    go (line_too_long b) e = e
    go out_of_fuel e = e

-- After a call that returns, the buffer holds no delimiter and at most the maximum of bytes.
pub feed_bounds :
    (m : ℕ) (buffer chunk left : List ℕ) (ls : List (List ℕ))
    → feed m buffer chunk ≡ lines ls left
    → (cut left ≡ none) × (length left ≤ m)
feed_bounds m buffer chunk left ls e =
    let (d, h) = feed-eq-lines m buffer chunk left ls e in
    ((drain_left _ (buffer ++ chunk) left [] ls d).0, h)

-- Two chunks that are read one after the other are read as the one chunk that joins them.
pub feed-append :
    (m : ℕ) (buffer chunk more left rest : List ℕ) (ls ks : List (List ℕ))
    → feed m buffer chunk ≡ lines ls left
    → feed m left more ≡ lines ks rest
    → feed m buffer (chunk ++ more) ≡ lines (ls ++ ks) rest
feed-append m buffer chunk more left rest ls ks e k =
    let (d, _) = feed-eq-lines m buffer chunk left ls e in
    let (c, h) = feed-eq-lines m left more rest ks k in
    let whole : List ℕ = (buffer ++ chunk) ++ more in
    let bound = (drain_left _ (buffer ++ chunk) left [] ls d).1 in
    let loop : drain (length whole + 1) whole [] ≡ lines (ls ++ ks) rest =
      drain-append (length whole + 1) (buffer ++ chunk) more left [] ls (omega arith) (
        drain_fuel _ _ (buffer ++ chunk) [] (omega (arith, length-append (buffer ++ chunk) more))
          (omega arith)
        ∙ d)
      ∙ drain_out _ (left ++ more) ls
      ∙ ap (in_front ls) (
          drain_fuel _ _ (left ++ more) []
            (omega (arith, bound, length-append (buffer ++ chunk) more, length-append left more))
            (omega arith)
          ∙ c) in
    lines-eq-feed m buffer (chunk ++ more) rest (ls ++ ks)
      (rw (← append_assoc buffer chunk more) loop) h

-- What the rest of the stream adds to the lines of its first chunk.
abbrev then_rest : (List ℕ → Fed) → Fed → Fed
then_rest rest (lines ls left) = in_front ls (rest left)
then_rest rest r = r

-- The chunks of a connection, one `recv` each, up to the first error: the loop of `_read_loop`.
unfoldable pub feed_all : ℕ → List ℕ → List (List ℕ) → Fed
feed_all m buffer [] = lines [] buffer
feed_all m buffer (chunk ∷ chunks) =
    then_rest (λ left. feed_all m left chunks) (feed m buffer chunk)

abbrev pub joined : List (List ℕ) → List ℕ
joined [] = []
joined (c ∷ cs) = c ++ joined cs

in_front-eq-lines :
    (out ls : List (List ℕ)) (left : List ℕ) (r : Fed)
    → in_front out r ≡ lines ls left
    → (more : List (List ℕ)) × (r ≡ lines more left) × (out ++ more ≡ ls)
in_front-eq-lines out ls left (lines more b) e = (more, cc, cc)
in_front-eq-lines out ls left (not_utf8 b) e = absurd (cc)
in_front-eq-lines out ls left (line_too_long b) e = absurd (cc)
in_front-eq-lines out ls left out_of_fuel e = absurd (cc)

-- A stream that is read through starts with a chunk that is.
feed_all-eq-lines :
    (m : ℕ) (chunks : List (List ℕ)) (left : List ℕ) (ls : List (List ℕ)) (r : Fed)
    → then_rest (λ b. feed_all m b chunks) r ≡ lines ls left
    → (first more : List (List ℕ)) × (b : List ℕ) × (r ≡ lines first b)
      × (feed_all m b chunks ≡ lines more left)
      × (first ++ more ≡ ls)
feed_all-eq-lines m chunks left ls (lines first b) e =
    let (more, p, q) = in_front-eq-lines first ls left (feed_all m b chunks) e in
    (first, more, b, refl, p, q)
feed_all-eq-lines m chunks left ls (not_utf8 b) e = absurd (cc)
feed_all-eq-lines m chunks left ls (line_too_long b) e = absurd (cc)
feed_all-eq-lines m chunks left ls out_of_fuel e = absurd (cc)

-- Once each chunk of a stream has been read without an error, the lines and the rest of the buffer
-- are those of the whole stream read as a single chunk, wherever the chunks were cut.
pub feed_all-joined :
    (m : ℕ) (buffer chunk left : List ℕ) (chunks : List (List ℕ)) (ls : List (List ℕ))
    → feed_all m buffer (chunk ∷ chunks) ≡ lines ls left
    → feed m buffer (joined (chunk ∷ chunks)) ≡ lines ls left
unfolding feed_all
feed_all-joined m buffer chunk left [] ls e =
    let (first, more, b, f, r, q) = feed_all-eq-lines m [] left ls (feed m buffer chunk) e in
    rw append-nil (f ∙ cc (append-nil first))
feed_all-joined m buffer chunk left (next ∷ chunks) ls e =
    let (first, more, b, f, r, q) =
      feed_all-eq-lines m (next ∷ chunks) left ls (feed m buffer chunk) e in
    subst (λ l. feed m buffer (chunk ++ joined (next ∷ chunks)) ≡ lines l left) q
      (feed-append m buffer chunk (joined (next ∷ chunks)) b left first more f
        (feed_all-joined m b next left chunks more r))

-- A line without the delimiter, sent with one behind it.
abbrev pub terminated : List ℕ → List ℕ
terminated raw = raw ++ 10 ∷ []

cut-terminated : (raw : List ℕ) → cut raw ≡ none → cut (terminated raw) ≡ some (raw, [])
unfolding cut
cut-terminated [] e = refl
cut-terminated (b ∷ bs) e = elim (Option-cases (cut bs)) [
  | inl n ↦ ground (arith, cut-terminated bs n)
  | inr ((r, q), s) ↦ ground arith
]

module _ (m : ℕ) (raw text : List ℕ) (whole : cut raw ≡ none) where
  feed-terminated :
      utf8_decode raw ≡ some text
      → feed m [] (terminated raw) ≡ lines (add_line [] (rstrip_cr text)) []
  feed-terminated t =
      lines-eq-feed m [] (terminated raw) [] (add_line [] (rstrip_cr text))
        (rw add-one (
          drain-good (length (terminated raw)) (terminated raw) [] (cut-terminated raw whole) t
          ∙ drain-once (length (terminated raw)) (add_line [] (rstrip_cr text))
              (omega (arith, length-append raw (10 ∷ [])))))
        (omega arith)
    where
      drain-once : (f : ℕ) (out : List (List ℕ)) → 0 < f → drain f [] out ≡ lines out []
      drain-once zero out h = absurd (omega arith)
      drain-once (suc f) out h = drain-ended f [] out (unfold cut in refl)

abbrev pub carriage_returns : ℕ → List ℕ
carriage_returns zero = []
carriage_returns (suc k) = 13 ∷ carriage_returns k

-- The text does not end with a carriage return.
abbrev pub IsBare : List ℕ → Type 0
IsBare [] = Unit
IsBare (c ∷ []) = c ≢ 13
IsBare (c ∷ d ∷ ds) = IsBare (d ∷ ds)

-- A line as it is sent: its bytes, the text that they hold, and how many carriage returns come
-- between the text and the delimiter. No byte is the delimiter.
abbrev pub IsLine : List ℕ × List ℕ × ℕ → Type 0
IsLine (raw, text, k) =
    All (λ b. b ≢ 10) raw × (utf8_decode raw ≡ some (text ++ carriage_returns k)) × IsBare text

abbrev pub stream : List (List ℕ × List ℕ × ℕ) → List ℕ
stream [] = []
stream ((raw, text, k) ∷ rest) = terminated raw ++ stream rest

-- The texts that are not empty.
abbrev pub shown : List (List ℕ × List ℕ × ℕ) → List (List ℕ)
shown [] = []
shown ((raw, [], k) ∷ rest) = shown rest
shown ((raw, c ∷ cs, k) ∷ rest) = (c ∷ cs) ∷ shown rest

whole_line : (raw : List ℕ) → All (λ b. b ≢ 10) raw → cut raw ≡ none
unfolding cut
whole_line [] h = refl
whole_line (b ∷ bs) h = ground (arith, whole_line bs h.1)

rstrip_cr-returns : (k : ℕ) → rstrip_cr (carriage_returns k) ≡ []
rstrip_cr-returns zero = refl
rstrip_cr-returns (suc k) = ap (put_back 13) (rstrip_cr-returns k)

rstrip_cr-bare :
    (text : List ℕ) (k : ℕ) → IsBare text → rstrip_cr (text ++ carriage_returns k) ≡ text
rstrip_cr-bare [] k h = rstrip_cr-returns k
rstrip_cr-bare (c ∷ []) k h = ap (put_back c) (rstrip_cr-returns k) ∙ ground arith
rstrip_cr-bare (c ∷ d ∷ ds) k h = ap (put_back c) (rstrip_cr-bare (d ∷ ds) k h)

shown-first :
    (raw text : List ℕ) (k : ℕ) (rest : List (List ℕ × List ℕ × ℕ))
    → IsBare text
    → add_line [] (rstrip_cr (text ++ carriage_returns k)) ++ shown rest
      ≡ shown ((raw, text, k) ∷ rest)
shown-first raw [] k rest h = ap (λ t. add_line [] t ++ shown rest) (rstrip_cr-bare [] k h)
shown-first raw (c ∷ cs) k rest h =
    ap (λ t. add_line [] t ++ shown rest) (rstrip_cr-bare (c ∷ cs) k h)

-- Whatever lines were sent, each with some text in UTF-8, then any number of carriage returns and the
-- delimiter: `feed` returns the texts that are not empty as they are, in order, and keeps nothing. The
-- lines may be of any length, since the maximum is on what stays in the buffer.
pub feed-stream :
    (m : ℕ) (sent : List (List ℕ × List ℕ × ℕ))
    → All IsLine sent
    → feed m [] (stream sent) ≡ lines (shown sent) []
feed-stream m [] h = lines-eq-feed m [] [] [] [] (unfold drain cut in refl) (omega arith)
feed-stream m ((raw, text, k) ∷ rest) h =
    feed-append m [] (terminated raw) (stream rest) [] []
      (add_line [] (rstrip_cr (text ++ carriage_returns k))) (shown rest)
      (feed-terminated m raw (text ++ carriage_returns k) (whole_line raw h.0.0) h.0.1)
      (feed-stream m rest h.1)
    ∙ ap (λ l. lines l []) (shown-first raw text k rest h.0.2)
