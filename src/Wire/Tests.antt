-- ===== src/Wire/Tests.antt =====
-- The wire's theorems at concrete inputs.
use socket_to_ciphertext.Prelude.{
  arith, map, Option, ◌≡◌, ◌≢◌, ◌≤◌, refl, none, some, List, [], ◌∷◌, pos, length, ℕ,
}
use socket_to_ciphertext.Prelude.Assoc.{Dict}
use socket_to_ciphertext.Wire.Value.{Value, int, str, obj, of_entries}
use socket_to_ciphertext.Wire.Frame.{
  MessageType, Frame, wire_name, wire, refused, collides, to_dict, from_dict, frame,
}
use socket_to_ciphertext.Wire.Frame.RoundTrip.{from_dict-to_dict, here, later, to_dict-Collides}
use socket_to_ciphertext.Wire.Codec.{parsed, encode_all, decode, Sendable, decode-encode}
use socket_to_ciphertext.Wire.LineBuffer.Encoder.{utf8_encode}
use socket_to_ciphertext.Wire.LineBuffer.{max_line_bytes, cut, drain, lines, out_of_fuel, feed}
use socket_to_ciphertext.Wire.LineBuffer.Utf8.{utf8_decode}
use socket_to_ciphertext.Wire.LineBuffer.Chunks.{
  feed_ends, feed_bounds, feed_all, joined, feed_all-joined, stream, feed-stream,
}

abbrev hello : Frame
hello = record {
  type = MessageType.msg;
  sender = none;
  to = some "bob";
  body = some "hello";
  nonce = none;
  payload = ("env", str "x") ∷ [];
  id = "1";
  ts = pos 5;
  v = int (pos 1);
}

from_dict-to_dict_example :
    (d : Dict Value) × (to_dict hello ≡ wire d)
    × (from_dict (obj (of_entries d)) "new" (pos 9) ≡ frame hello)
from_dict-to_dict_example =
    from_dict-to_dict hello "new" (pos 9)
      (record { version = refl; named = refl; keys = (refl, tt) })

abbrev hello_dict : Dict Value
hello_dict =
    ("v", int (pos 1))
    ∷ ("id", str "1")
    ∷ ("type", str "MSG")
    ∷ ("ts", int (pos 5))
    ∷ ("to", str "bob")
    ∷ ("body", str "hello")
    ∷ ("env", str "x")
    ∷ []

hello_written : to_dict hello ≡ wire hello_dict
unfolding to_dict wire_name
hello_written = refl

-- A text of three characters, one of them of two bytes.
abbrev braces : List ℕ
braces = 0x7b ∷ 0xe9 ∷ 0x7d ∷ []

abbrev hello_dumps : Dict Value → List ℕ
hello_dumps d = braces

abbrev hello_loads : List ℕ → Option Value
hello_loads line = some (obj (of_entries hello_dict))

braces_bytes : utf8_encode braces ≡ some (0x7b ∷ 0xc3 ∷ 0xa9 ∷ 0x7d ∷ [])
unfolding utf8_encode
braces_bytes = refl

hello-Sendable : Sendable hello_dumps hello_loads hello
hello-Sendable = record {
  shape = record { version = refl; named = refl; keys = (refl, tt) };
  dict = hello_dict;
  is_dict = hello_written;
  first = 0x7b;
  others = 0xe9 ∷ 0x7d ∷ [];
  text = refl;
  one_line = ((λ p. ground arith), ((λ p. ground arith), ((λ p. ground arith), tt)));
  bare = λ p. ground arith;
  bytes = 0x7b ∷ 0xc3 ∷ 0xa9 ∷ 0x7d ∷ [];
  encodable = braces_bytes;
  loaded = refl;
}

decode-encode_example :
    (bytes : List ℕ) × (texts : List (List ℕ)) × (encode_all hello_dumps hello_loads
        (hello ∷ hello ∷ [])
      ≡ some bytes)
    × (feed max_line_bytes [] bytes ≡ lines texts [])
    × (map (λ line. decode hello_dumps hello_loads line "new" (pos 9)) texts
        ≡ map (λ f. parsed (frame f)) (hello ∷ hello ∷ []))
decode-encode_example =
    decode-encode hello_dumps hello_loads max_line_bytes (hello ∷ hello ∷ []) "new" (pos 9)
      (hello-Sendable, (hello-Sendable, tt))

abbrev clash : Frame
clash = record hello { payload = ("room", str "#a") ∷ ("id", str "2") ∷ [] }

to_dict-Collides_example : to_dict clash ≡ refused (collides "id")
to_dict-Collides_example =
    to_dict-Collides clash "id" (later "room" (str "#a") _ refl (here (str "2") [] refl))

-- "hi", CR, LF, and the first byte of the next line.
abbrev first_chunk : List ℕ
first_chunk = 104 ∷ 105 ∷ 13 ∷ 10 ∷ 195 ∷ []

-- The other byte of "é", and LF.
abbrev second_chunk : List ℕ
second_chunk = 169 ∷ 10 ∷ []

feed_ends_example : feed max_line_bytes [] first_chunk ≢ out_of_fuel
feed_ends_example = feed_ends max_line_bytes [] first_chunk

first_fed : feed max_line_bytes [] first_chunk ≡ lines ((104 ∷ 105 ∷ []) ∷ []) (195 ∷ [])
unfolding feed drain cut utf8_decode
first_fed = refl

abbrev half : List ℕ
half = 195 ∷ []

feed_bounds_example : (cut half ≡ none) × (length half ≤ max_line_bytes)
feed_bounds_example =
    feed_bounds max_line_bytes [] first_chunk (195 ∷ []) ((104 ∷ 105 ∷ []) ∷ []) first_fed

both_fed :
    feed_all max_line_bytes [] (first_chunk ∷ second_chunk ∷ [])
    ≡ lines ((104 ∷ 105 ∷ []) ∷ (233 ∷ []) ∷ []) []
unfolding feed_all feed drain cut utf8_decode
both_fed = refl

feed_all-joined_example :
    feed max_line_bytes [] (joined (first_chunk ∷ second_chunk ∷ []))
    ≡ lines ((104 ∷ 105 ∷ []) ∷ (233 ∷ []) ∷ []) []
feed_all-joined_example =
    feed_all-joined max_line_bytes [] first_chunk [] (second_chunk ∷ [])
      ((104 ∷ 105 ∷ []) ∷ (233 ∷ []) ∷ []) both_fed

abbrev sent : List (List ℕ × List ℕ × ℕ)
sent = (104 ∷ 105 ∷ 13 ∷ [], 104 ∷ 105 ∷ [], 1) ∷ (195 ∷ 169 ∷ [], 233 ∷ [], 0) ∷ []

decoded :
    (utf8_decode (104 ∷ 105 ∷ 13 ∷ []) ≡ some (104 ∷ 105 ∷ 13 ∷ []))
    × (utf8_decode (195 ∷ 169 ∷ []) ≡ some (233 ∷ []))
unfolding utf8_decode
decoded = (refl, refl)

feed-stream_example :
    feed max_line_bytes [] (stream sent) ≡ lines ((104 ∷ 105 ∷ []) ∷ (233 ∷ []) ∷ []) []
feed-stream_example = feed-stream max_line_bytes sent (
  (
    ((λ p. ground arith), ((λ p. ground arith), ((λ p. ground arith), tt))),
    decoded.0,
    (λ p. ground arith),
  ),
  ((((λ p. ground arith), ((λ p. ground arith), tt)), decoded.1, (λ p. ground arith)), tt),
)
