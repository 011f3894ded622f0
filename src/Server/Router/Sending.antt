-- ===== src/Server/Router/Sending.antt =====
-- What a handler does to the sessions, the accounts and the frames sent, as a relation between two
-- worlds with a rule for each way to build a handler.
pub mod Handlers
pub mod Rooms
pub mod Recording
pub mod Messages
pub mod Copies
pub mod Handled
pub mod Anonymous
pub mod Dispatch
pub mod Relayed
use socket_to_ciphertext.Prelude.{
  ℕ, suc, String, ◌≡◌, refl, sym, ap, ◌∙◌, Bool, true, false, Option, none, some, List, [], ◌∷◌,
  ◌++◌, append-nil, append_assoc, All, if◌then◌else◌,
}
use socket_to_ciphertext.Prelude.Assoc.{Dict, get}
use socket_to_ciphertext.Wire.Value.{Value}
use socket_to_ciphertext.Wire.Frame.{Frame, MessageType}
use socket_to_ciphertext.Server.Env.{Env}
use socket_to_ciphertext.Server.Registry.{Conn}
use socket_to_ciphertext.Server.Router.World.{
  World, send, send_to, send_each, make, tick, post, refuse, error_payload,
}

-- From `w` to `x`: nobody logs in or out, no account changes, and frames are only added, each of
-- them one of which `P` holds.
pub record Sends (P : Conn × Frame → Type 0) (w x : World) : Type 0 where
  pub sessions : x.sessions ≡ w.sessions
  pub username : x.username ≡ w.username
  pub users : x.users ≡ w.users
  pub new : List (Conn × Frame)
  pub sent : x.sent ≡ w.sent ++ new
  pub all : All P new

pub All-append :
    (P : Conn × Frame → Type 0) (xs ys : List (Conn × Frame))
    → All P xs
    → All P ys
    → All P (xs ++ ys)
All-append P [] ys h k = k
All-append P (x ∷ xs) ys h k = (h.0, All-append P xs ys h.1 k)

module _ {P : Conn × Frame → Type 0} where
  pub Sends-none :
      (w x : World)
      → x.sessions ≡ w.sessions
      → x.username ≡ w.username
      → x.users ≡ w.users
      → x.sent ≡ w.sent
      → Sends P w x
  Sends-none w x s n u e = record {
    sessions = s;
    username = n;
    users = u;
    new = [];
    sent = e ∙ sym (append-nil w.sent);
    all = tt;
  }

  pub Sends-refl : (w : World) → Sends P w w
  Sends-refl w = Sends-none w w refl refl refl refl

  pub Sends-trans : {w x y : World} → Sends P w x → Sends P x y → Sends P w y
  Sends-trans {w} {x} {y} h k = record {
    sessions = k.sessions ∙ h.sessions;
    username = k.username ∙ h.username;
    users = k.users ∙ h.users;
    new = h.new ++ k.new;
    sent =
        k.sent
        ∙ ap (λ (l : List (Conn × Frame)). l ++ k.new) h.sent
        ∙ append_assoc w.sent h.new k.new;
    all = All-append P h.new k.new h.all k.all;
  }

  pub Sends-send : (w : World) (c : Conn) (f : Frame) → P (c, f) → Sends P w (send w c f)
  unfolding send
  Sends-send w c f p = record {
    sessions = refl;
    username = refl;
    users = refl;
    new = (c, f) ∷ [];
    sent = refl;
    all = (p, tt);
  }

  pub Sends-if :
      (b : Bool) (w x y : World)
      → (b ≡ true → Sends P w x)
      → (b ≡ false → Sends P w y)
      → Sends P w (if b then x else y)
  Sends-if true w x y h k = h refl
  Sends-if false w x y h k = k refl

  pub Sends-option {ℓ} :
      {A : Type ℓ} (o : Option A) (w x : World) (f : A → World)
      → (o ≡ none → Sends P w x)
      → ((a : A) → o ≡ some a → Sends P w (f a))
      → Sends P w (elim o [ none ↦ x | some a ↦ f a ])
  Sends-option none w x f h k = h refl
  Sends-option (some a) w x f h k = k a refl

  pub Sends-send_to :
      (w : World) (name : String) (f : Frame)
      → ((c : Conn) → get w.sessions name ≡ some c → P (c, f))
      → Sends P w (send_to w name f)
  unfolding send_to
  Sends-send_to w name f p =
      Sends-option (get w.sessions name) w _ _ (λ _. Sends-refl w) (λ c e. Sends-send w c f (p c e))

  pub Sends-send_each :
      (w : World) (names : List String) (f : Frame)
      → ((c : Conn) → P (c, f))
      → Sends P w (send_each w names f)
  unfolding send_each
  Sends-send_each w [] f p = Sends-refl w
  Sends-send_each w (name ∷ names) f p =
      Sends-trans (Sends-send_to w name f (λ c _. p c))
        (Sends-send_each (send_to w name f) names f p)

  module _ (env : Env) where
    pub Sends-post :
        (w : World) (c : Conn) (type : MessageType) (to : Option String) (payload : Dict Value)
        → P (c, make env w.calls type none to payload)
        → Sends P w (post env w c type to payload)
    unfolding post
    Sends-post w c type to payload p =
        Sends-trans (Sends-send w c _ p) (Sends-none _ _ refl refl refl refl)

    pub Sends-refuse :
        (w : World) (c : Conn) (code message : String)
        → P (c, make env w.calls MessageType.error none none (error_payload code message))
        → Sends P w (refuse env w c code message)
    unfolding refuse
    Sends-refuse w c code message p = Sends-post w c MessageType.error none _ p
