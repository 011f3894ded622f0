-- ===== src/Wire/Codec.antt =====
-- im/common/codec.py: encode and decode. json.dumps and json.loads are parameters; a text is the list
-- of its code points.
use socket_to_ciphertext.Prelude.{
  ℕ, ◌≡◌, ◌≢◌, refl, sym, ap, ◌∙◌, Option, none, some, List, [], ◌∷◌, ◌++◌, ℤ, String, map, All,
  append-nil,
}
use socket_to_ciphertext.Prelude.Assoc.{Dict}
use socket_to_ciphertext.Wire.Value.{Value, obj, of_entries}
use socket_to_ciphertext.Wire.Frame.{Frame, wire, refused, to_dict, Decoded, frame, from_dict}
use socket_to_ciphertext.Wire.Frame.RoundTrip.{IsWire, from_dict-to_dict}
use socket_to_ciphertext.Wire.LineBuffer.{delimiter, feed, lines}
use socket_to_ciphertext.Wire.LineBuffer.Encoder.{
  utf8_encode, utf8_decode-encode, utf8_encode-delimiter,
}
use socket_to_ciphertext.Wire.LineBuffer.Chunks.{IsBare, IsLine, stream, shown, feed-stream}

-- What `decode` answers: a ProtocolError for a line that is no JSON, or what `from_dict` answers.
pub data Parsed : Type 0 where
  not_json : Parsed
  parsed : Decoded → Parsed

abbrev pub delimited : Option (List ℕ) → Option (List ℕ)
delimited none = none
delimited (some bytes) = some (bytes ++ delimiter ∷ [])

module _ (dumps : Dict Value → List ℕ) (loads : List ℕ → Option Value) where
  -- `none`: `to_dict` raises, or the text has a surrogate, which UTF-8 cannot encode.
  unfoldable pub encode : Frame → Option (List ℕ)
  unfolding to_dict utf8_encode
  encode f = elim (to_dict f) [ wire d ↦ delimited (utf8_encode (dumps d)) | refused e ↦ none ]

  unfoldable pub decode : List ℕ → String → ℤ → Parsed
  unfolding from_dict
  decode line new now = elim (loads line) [
    | none ↦ not_json
    | some raw ↦ parsed (from_dict raw new now)
  ]

  -- Frames that are encoded one after the other.
  unfoldable pub encode_all : List Frame → Option (List ℕ)
  unfolding encode
  encode_all [] = some []
  encode_all (f ∷ fs) = elim (encode f) [
    | none ↦ none
    | some bytes ↦ elim (encode_all fs) [ none ↦ none | some rest ↦ some (bytes ++ rest) ]
  ]

  -- A frame of version 1 with an id and no reserved key among its data, whose JSON text is one line
  -- without a carriage return at its end, can be encoded, and is read back by json.loads.
  pub record Sendable (f : Frame) : Type 0 where
    pub shape : IsWire f
    pub dict : Dict Value
    pub is_dict : to_dict f ≡ wire dict
    pub first : ℕ
    pub others : List ℕ
    pub text : dumps dict ≡ first ∷ others
    pub one_line : All (λ c. c ≢ 10) (first ∷ others)
    pub bare : IsBare (first ∷ others)
    pub bytes : List ℕ
    pub encodable : utf8_encode (first ∷ others) ≡ some bytes
    pub loaded : loads (first ∷ others) ≡ some (obj (of_entries dict))

  encode-Sendable : (f : Frame) (s : Sendable f) → encode f ≡ some (s.bytes ++ delimiter ∷ [])
  unfolding encode
  encode-Sendable f s = rw (s.is_dict, encode, s.text, s.encodable) refl

  decode-Sendable :
      (f : Frame) (s : Sendable f) (new : String) (now : ℤ)
      → decode (s.first ∷ s.others) new now ≡ parsed (frame f)
  unfolding decode
  decode-Sendable f s new now =
      let (d, written, back) = from_dict-to_dict f new now s.shape in
      let same : wire d ≡ wire s.dict = sym written ∙ s.is_dict in
      let same_dict : d ≡ s.dict = cc in
      rw (s.loaded, decode)
        (ap parsed (ap (λ e. from_dict (obj (of_entries e)) new now) (sym same_dict) ∙ back))

  -- The lines that are sent for some frames.
  sent_for : (fs : List Frame) → All Sendable fs → List (List ℕ × List ℕ × ℕ)
  sent_for [] h = []
  sent_for (f ∷ fs) h = ((h.0).bytes, (h.0).first ∷ (h.0).others, 0) ∷ sent_for fs h.1

  sent_for-IsLine : (fs : List Frame) (h : All Sendable fs) → All IsLine (sent_for fs h)
  unfolding sent_for
  sent_for-IsLine [] h = tt
  sent_for-IsLine (f ∷ fs) h =
      let s = h.0 in
      (
        (
          utf8_encode-delimiter (s.first ∷ s.others) s.bytes s.encodable s.one_line,
          utf8_decode-encode (s.first ∷ s.others) s.bytes s.encodable
              ∙ ap some (sym (append-nil (s.first ∷ s.others))),
          s.bare,
        ),
        sent_for-IsLine fs h.1,
      )

  encode_all-sent_for :
      (fs : List Frame) (h : All Sendable fs) → encode_all fs ≡ some (stream (sent_for fs h))
  unfolding encode_all sent_for
  encode_all-sent_for [] h = refl
  encode_all-sent_for (f ∷ fs) h =
      rw (encode-Sendable f h.0, encode_all, encode_all-sent_for fs h.1) refl

  decode-sent_for :
      (fs : List Frame) (h : All Sendable fs) (new : String) (now : ℤ)
      → map (λ line. decode line new now) (shown (sent_for fs h)) ≡ map (λ f. parsed (frame f)) fs
  unfolding sent_for
  decode-sent_for [] h new now = refl
  decode-sent_for (f ∷ fs) h new now =
      ap (λ p. p ∷ map (λ line. decode line new now) (shown (sent_for fs h.1)))
        (decode-Sendable f h.0 new now)
      ∙ ap (λ ps. parsed (frame f) ∷ ps) (decode-sent_for fs h.1 new now)

  -- Frames of version 1 with ids and no reserved keys among their data. Their JSON texts are not empty,
  -- have no line feed and no carriage return at the end, can be encoded in UTF-8, and are read back
  -- by json.loads. Then `encode` gives bytes for each, `feed` of all these bytes returns lines and
  -- keeps nothing, and `decode` of the lines gives the frames, in order, whatever new id and time it
  -- has at hand.
  pub decode-encode :
      (m : ℕ) (fs : List Frame) (new : String) (now : ℤ)
      → All Sendable fs
      → (bytes : List ℕ) × (texts : List (List ℕ)) × (encode_all fs ≡ some bytes)
        × (feed m [] bytes ≡ lines texts [])
        × (map (λ line. decode line new now) texts ≡ map (λ f. parsed (frame f)) fs)
  decode-encode m fs new now h = (
    stream (sent_for fs h),
    shown (sent_for fs h),
    encode_all-sent_for fs h,
    feed-stream m (sent_for fs h) (sent_for-IsLine fs h),
    decode-sent_for fs h new now,
  )
