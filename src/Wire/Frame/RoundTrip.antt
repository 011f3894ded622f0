-- ===== src/Wire/Frame/RoundTrip.antt =====
-- A frame survives its JSON form, and a payload that names a reserved key is refused.
use socket_to_ciphertext.Prelude.{
  String, ◌≡◌, refl, ap, subst, sym, ◌∙◌, true, false, Option, none, some, [], ◌∷◌, ◌++◌,
  append_assoc, append-nil, arith, ◌==◌, eq_iff, ℤ, pos, All, Bool-cases, inl, inr, false≢true,
}
use socket_to_ciphertext.Prelude.Assoc.{Dict, get}
use socket_to_ciphertext.Wire.Value.{Value, int, str, obj, of_entries, entries-of_entries}
use socket_to_ciphertext.Wire.Frame.{
  MessageType, wire_name, type_named, Frame, is_reserved, wire, refused, collides, copy_payload,
  head_entries, to_dict, frame, build, from_entries, from_dict, unreserved,
}

-- Every wire name is read back as its own type.
pub type_named-wire_name : (t : MessageType) → type_named (str (wire_name t)) ≡ some t
unfolding type_named wire_name
type_named-wire_name MessageType.register = refl
type_named-wire_name _ = refl

abbrev pub IsPayload : Dict Value → Type 0
IsPayload = All (λ e. is_reserved e.0 ≡ false)

copy_payload-wire : (d out : Dict Value) → IsPayload d → copy_payload d out ≡ wire (out ++ d)
unfolding copy_payload
copy_payload-wire [] out h = rw append-nil
copy_payload-wire ((k, x) ∷ d) out h =
    rw h.0 (copy_payload-wire d (out ++ (k, x) ∷ []) h.1 ∙ ap wire (append_assoc out _ d))

-- A reserved key is not among the keys of a payload.
get-payload : (d : Dict Value) (k : String) → IsPayload d → is_reserved k ≡ true → get d k ≡ none
get-payload [] k h r = refl
get-payload ((j, x) ∷ d) k h r = elim (Bool-cases (j == k)) [
  | inl e ↦ absurd (false≢true (sym h.0 ∙ ap is_reserved ((eq_iff j k).0 e) ∙ r))
  | inr n ↦ rw n (get-payload d k h.1 r)
]

unreserved-payload : (d : Dict Value) → IsPayload d → unreserved d ≡ d
unreserved-payload [] h = refl
unreserved-payload ((k, x) ∷ d) h = rw h.0 (ap (λ r. (k, x) ∷ r) (unreserved-payload d h.1))

-- The frames that the program builds: version 1, an id, and no reserved key in the payload.
pub record IsWire (f : Frame) : Type 0 where
  pub version : f.v ≡ int (pos 1)
  pub named : (f.id == "") ≡ false
  pub keys : IsPayload f.payload

from_entries-head :
    (t : MessageType) (sender to body nonce : Option String) (d : Dict Value) (id : String) (ts : ℤ)
    (new : String) (now : ℤ)
    → IsPayload d
    → (id == "") ≡ false
    → let f : Frame = record {
      type = t;
      sender = sender;
      to = to;
      body = body;
      nonce = nonce;
      payload = d;
      id = id;
      ts = ts;
      v = int (pos 1);
    } in
      from_entries (head_entries f ++ d) new now ≡ frame f
unfolding from_entries build head_entries
from_entries-head t none none none none d id ts new now h n = ground (
  arith,
  type_named-wire_name t,
  unreserved-payload d h,
  get-payload d "from" h refl,
  get-payload d "to" h refl,
  get-payload d "body" h refl,
  get-payload d "n" h refl,
)
from_entries-head t _ _ _ _ d id ts new now h n = ground (
  arith,
  type_named-wire_name t,
  unreserved-payload d h,
  get-payload d "from" h refl,
  get-payload d "to" h refl,
  get-payload d "body" h refl,
  get-payload d "n" h refl,
)

from_entries-to_dict :
    (f : Frame) (new : String) (now : ℤ)
    → IsWire f
    → from_entries (head_entries f ++ f.payload) new now ≡ frame f
from_entries-to_dict f new now w =
    subst
      (λ x.
        let g : Frame = record f { v = x } in
        from_entries (head_entries g ++ g.payload) new now ≡ frame g)
      (sym w.version)
      (from_entries-head f.type f.sender f.to f.body f.nonce f.payload f.id f.ts new now w.keys
        w.named)

-- A frame of version 1 with an id and no reserved key among its data comes back from its JSON form
-- as it was, whatever new id and time the decoder has at hand.
pub from_dict-to_dict :
    (f : Frame) (new : String) (now : ℤ)
    → IsWire f
    → (d : Dict Value) × (to_dict f ≡ wire d) × (from_dict (obj (of_entries d)) new now ≡ frame f)
unfolding to_dict from_dict
from_dict-to_dict f new now w = (
  head_entries f ++ f.payload,
  copy_payload-wire f.payload (head_entries f) w.keys,
  ap (λ d. from_entries d new now) (entries-of_entries (head_entries f ++ f.payload))
      ∙ from_entries-to_dict f new now w,
)

-- The first reserved key of the payload is named by the error that `to_dict` raises.
pub data Collides (k : String) : Dict Value → Type 0 where
  here : (x : Value) (d : Dict Value) → is_reserved k ≡ true → Collides k ((k, x) ∷ d)
  later :
      (j : String) (x : Value) (d : Dict Value)
      → is_reserved j ≡ false
      → Collides k d
      → Collides k ((j, x) ∷ d)

copy_payload-Collides :
    (k : String) {d : Dict Value} (out : Dict Value)
    → Collides k d
    → copy_payload d out ≡ refused (collides k)
unfolding copy_payload
copy_payload-Collides k out (here x d r) = rw r
copy_payload-Collides k out (later j x d r c) = rw r (copy_payload-Collides k _ c)

-- A frame whose payload names a reserved key is refused, and the error names the first such key.
pub to_dict-Collides :
    (f : Frame) (k : String) → Collides k f.payload → to_dict f ≡ refused (collides k)
unfolding to_dict
to_dict-Collides f k c = copy_payload-Collides k (head_entries f) c
