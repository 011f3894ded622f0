-- ===== src/Prelude/Assoc.antt =====
-- A Python `dict` with text keys: entries in insertion order, one for each key. Assigning to a key
-- that is there keeps its place; a new key goes to the end.
use socket_to_ciphertext.Prelude.Tests.{if◌then◌else◌}
use mathlib.Core.Path.{◌≡◌, refl}
use mathlib.Core.Bool.{Bool, true, false}
use mathlib.Core.Option.{Option, none, some}
use mathlib.Core.List.{List, [], ◌∷◌, map}
use native.Mathlib.Omega.{arith}
use Prim.Native.String.{String}
use text.Mathlib.Text.{◌==◌}
use text.Mathlib.TextEquality.{eq_iff}

abbrev pub Dict {ℓ} : Type ℓ → Type ℓ
Dict V = List (String × V)

module _ {ℓ} {V : Type ℓ} where
  -- `d.get(k)`
  abbrev pub get : Dict V → String → Option V
  get [] k = none
  get ((j, v) ∷ d) k = if j == k then some v else get d k

  -- `k in d`
  abbrev pub has : Dict V → String → Bool
  has [] k = false
  has ((j, v) ∷ d) k = if j == k then true else has d k

  -- `d[k] = v`
  abbrev pub put : Dict V → String → V → Dict V
  put [] k v = (k, v) ∷ []
  put ((j, w) ∷ d) k v = if j == k then (k, v) ∷ d else (j, w) ∷ put d k v

  -- `d.pop(k, None)`
  abbrev pub pop : Dict V → String → Dict V
  pop [] k = []
  pop ((j, w) ∷ d) k = if j == k then pop d k else (j, w) ∷ pop d k

  pub get-put :
      (d : Dict V) (k l : String) (v : V) → get (put d k v) l ≡ (if k == l then some v else get d l)
  get-put [] k l v = refl
  get-put ((i, w) ∷ d) k l v = ground (arith, eq_iff k l, eq_iff i k, eq_iff i l, get-put d k l v)

  pub get-pop : (d : Dict V) (k j : String) → get (pop d k) j ≡ (if k == j then none else get d j)
  get-pop [] k j = ground arith
  get-pop ((i, w) ∷ d) k j = ground (arith, eq_iff k j, eq_iff i k, eq_iff i j, get-pop d k j)

  pub has-put :
      (d : Dict V) (k j : String) (v : V) → has (put d k v) j ≡ (if k == j then true else has d j)
  has-put [] k j v = refl
  has-put ((i, w) ∷ d) k j v = ground (arith, eq_iff k j, eq_iff i k, eq_iff i j, has-put d k j v)

  pub has-pop : (d : Dict V) (k j : String) → has (pop d k) j ≡ (if k == j then false else has d j)
  has-pop [] k j = ground arith
  has-pop ((i, w) ∷ d) k j = ground (arith, eq_iff k j, eq_iff i k, eq_iff i j, has-pop d k j)

  -- `has` and `get` agree.
  pub get-none_of_has : (d : Dict V) (k : String) → has d k ≡ false → get d k ≡ none
  get-none_of_has [] k h = refl
  get-none_of_has ((i, w) ∷ d) k h = ground (arith, get-none_of_has d k)

  pub has_of_get : (d : Dict V) (k : String) (v : V) → get d k ≡ some v → has d k ≡ true
  has_of_get [] k v h = ground arith
  has_of_get ((i, w) ∷ d) k v h = ground (arith, has_of_get d k v)

  -- The keys, in order of insertion.
  abbrev pub keys : Dict V → List String
  keys = map (λ e. e.0)
