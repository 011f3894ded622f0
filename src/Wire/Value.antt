-- ===== src/Wire/Value.antt =====
-- The values that `json.loads` gives: the dynamic side of a frame.
use socket_to_ciphertext.Prelude.{
  ℕ, ◌%◌, String, ◌≡◌, refl, ap, Bool, true, false, not, Option, none, some, List, [], ◌∷◌, ◌==◌,
  eqb, ℤ, pos,
}
use socket_to_ciphertext.Prelude.Assoc.{Dict}

mutual
  -- A float is held by its IEEE 754 bit pattern.
  pub data Value : Type 0 where
    null : Value
    bool : Bool → Value
    int : ℤ → Value
    float : ℕ → Value
    str : String → Value
    arr : Items → Value
    obj : Fields → Value

  -- The entries of a decoded object: one for each key, in order.
  pub data Fields : Type 0 where
    end : Fields
    field : String → Value → Fields → Fields

  pub data Items : Type 0 where
    nil : Items
    cons : Value → Items → Items

abbrev pub items : Items → List Value
items nil = []
items (cons v vs) = v ∷ items vs

abbrev pub of_items : List Value → Items
of_items [] = nil
of_items (v ∷ vs) = cons v (of_items vs)

abbrev pub entries : Fields → Dict Value
entries end = []
entries (field k v fs) = (k, v) ∷ entries fs

abbrev pub of_entries : Dict Value → Fields
of_entries [] = end
of_entries ((k, v) ∷ d) = field k v (of_entries d)

pub entries-of_entries : (d : Dict Value) → entries (of_entries d) ≡ d
entries-of_entries [] = refl
entries-of_entries ((k, v) ∷ d) = ap (λ e. (k, v) ∷ e) (entries-of_entries d)

-- Python's `bool(value)`, with `None` for a missing key: the test of `if not value`.
abbrev pub truthy : Value → Bool
truthy null = false
truthy (bool b) = b
truthy (int (pos n)) = not (eqb n 0)
truthy (int n) = true
truthy (float bits) = not (eqb (bits % 9223372036854775808) 0)
truthy (str s) = not (s == "")
truthy (arr nil) = false
truthy (arr vs) = true
truthy (obj end) = false
truthy (obj fs) = true

-- `d.get(k)`
abbrev pub or_null : Option Value → Value
or_null none = null
or_null (some v) = v

-- `isinstance(value, str)`
abbrev pub text? : Value → Option String
text? (str s) = some s
text? v = none
