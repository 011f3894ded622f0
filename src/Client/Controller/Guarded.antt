-- ===== src/Client/Controller/Guarded.antt =====
-- ChatController: what an operation keeps while it sends.
pub mod Gestures
pub mod Sending
pub mod Inbound
pub mod Answers
pub mod Sealed
use socket_to_ciphertext.Prelude.{
  ℕ, suc, String, ◌≡◌, refl, sym, ap, subst, ◌∙◌, ◌⊎◌, inl, inr, Bool, true, false, Option, none,
  some, List, [], ◌∷◌, ◌++◌, ℤ, pos, All, if◌then◌else◌,
}
use socket_to_ciphertext.Prelude.Assoc.{Dict, get, keys}
use socket_to_ciphertext.Wire.Frame.{Frame, MessageType}
use socket_to_ciphertext.Crypto.Primitives.{Bytes, Primitives}
use socket_to_ciphertext.Crypto.Keyring.{Keyring}
use socket_to_ciphertext.Crypto.Keyring.Cache.{Coherent, Kept}
use socket_to_ciphertext.Crypto.Keyring.Sealing.{SealedBy}
use socket_to_ciphertext.Client.Chat.{ChatModel}
use socket_to_ciphertext.Client.Requests
use socket_to_ciphertext.Client.Controller.{
  Outside, Controller, Action, continue, ◌>>=◌, ◌>>◌, when, attempt, swallowed, each, update,
  submit, request,
}

abbrev pub is_msg : MessageType → Bool
is_msg MessageType.msg = true
is_msg t = false

All-snoc {ℓ κ} :
    {A : Type ℓ} (P : A → Type κ) (xs : List A) (x : A) → All P xs → P x → All P (xs ++ x ∷ [])
All-snoc P [] x h q = (q, tt)
All-snoc P (y ∷ xs) x h q = (h.0, All-snoc P xs x h.1 q)

module _ (o : Outside) (i : Bytes) where
  -- One body and one nonce, made under a key of this identity.
  abbrev pub IsSealedForOne : Frame → Type 0
  IsSealedForOne f =
      (text : String) × (sender : String) × (x : String × String) × SealedBy o.primitives i text
        sender x
      × (f.body ≡ some x.0)
      × (f.nonce ≡ some x.1)

  -- An empty body, and in `env` at least one entry, each made under a key of this identity.
  abbrev pub IsSealedForMembers : Frame → Type 0
  IsSealedForMembers f =
      (text : String) × (sender : String) × (d : Dict (String × String)) × All
        (λ (e : String × (String × String)). SealedBy o.primitives i text sender e.1) d
      × (f.body ≡ some "")
      × (f.payload ≡ ("env", Requests.env_value d) ∷ [])

  -- A frame that carries no message, or only a sealed one.
  abbrev pub IsSealed : Frame → Type 0
  IsSealed f = (is_msg f.type ≡ false) ⊎ (IsSealedForOne f ⊎ IsSealedForMembers f)

  -- There is a keyring, of this identity and with a coherent cache.
  pub record HasRing (k : Option Keyring) : Type 0 where
    pub ring : Keyring
    pub present : k ≡ some ring
    pub coherent : Coherent o.primitives ring
    pub own : ring.identity ≡ i

  abbrev pub Guarded : Controller → Type 0
  Guarded c = HasRing c.keyring × All IsSealed c.sent

  abbrev pub Preserves : {A : Type 0} → Action A → Type 0
  Preserves m = (c : Controller) → Guarded c → Guarded (m c).0

  continue-Guarded :
      {A B : Type 0} (x : Controller × Option A) (f : A → Action B)
      → Guarded x.0
      → ((a : A) → Preserves (f a))
      → Guarded (continue x f).0
  continue-Guarded (c, none) f g h = g
  continue-Guarded (c, some a) f g h = h a c g

  pub bind-Preserves :
      {A B : Type 0} (m : Action A) (f : A → Action B)
      → Preserves m
      → ((a : A) → Preserves (f a))
      → Preserves (m >>= f)
  bind-Preserves m f h k c g = continue-Guarded (m c) f (h c g) k

  pub then-Preserves :
      {A B : Type 0} (m : Action A) (n : Action B) → Preserves m → Preserves n → Preserves (m >> n)
  then-Preserves m n h k = bind-Preserves m (λ a. n) h (λ a. k)

  pub when-Preserves : (b : Bool) (m : Action (Unit {0})) → Preserves m → Preserves (when b m)
  when-Preserves true m h c g = h c g
  when-Preserves false m h c g = g

  swallowed-Guarded :
      {A : Type 0} (x : Controller × Option A) → Guarded x.0 → Guarded (swallowed x).0
  swallowed-Guarded (c, r) g = g

  pub attempt-Preserves : {A : Type 0} (m : Action A) → Preserves m → Preserves (attempt m)
  attempt-Preserves m h c g = swallowed-Guarded (m c) (h c g)

  pub each-Preserves :
      {A : Type 0} (f : A → Action (Unit {0})) (l : List A)
      → ((a : A) → Preserves (f a))
      → Preserves (each f l)
  each-Preserves f [] h c g = g
  each-Preserves f (a ∷ l) h c g = then-Preserves (f a) (each f l) (h a) (each-Preserves f l h) c g

  pub submit-Preserves :
      (make : String → ℤ → Frame)
      → ((id : String) (ts : ℤ) → IsSealed (make id ts))
      → Preserves (submit o make)
  unfolding submit
  submit-Preserves make h c g = by_answer (o.takes c.calls)
    where
      f : Frame
      f = make (o.env.new_id c.calls) (pos (o.env.now_ms c.calls))

      by_answer :
          (b : Bool)
          → Guarded
              (if◌then◌else◌ {A = Controller × Option Frame} b
                (record c { sent = c.sent ++ f ∷ []; calls = suc c.calls }, some f)
                (record c { calls = suc c.calls }, none)).0
      by_answer true = (
        g.0,
        All-snoc IsSealed c.sent f g.1 (h (o.env.new_id c.calls) (pos (o.env.now_ms c.calls))),
      )
      by_answer false = g

  pub request-Preserves :
      (make : String → ℤ → Frame)
      → ((id : String) (ts : ℤ) → is_msg (make id ts).type ≡ false)
      → Preserves (request o make)
  request-Preserves make h =
      then-Preserves (submit o make) (λ c. (c, some tt))
        (submit-Preserves make (λ id ts. inl (h id ts))) (λ c g. g)

  -- A keyring that keeps what it holds is still the client's.
  pub HasRing-Kept : (r x : Keyring) → HasRing (some r) → Kept o.primitives r x → HasRing (some x)
  HasRing-Kept r x h kept =
      let same : r ≡ h.ring = cc in
      record {
        ring = x;
        present = refl;
        coherent = kept.coherent (subst (Coherent o.primitives) (sym same) h.coherent);
        own = kept.identity ∙ ap (λ (y : Keyring). y.identity) same ∙ h.own;
      }
