-- ===== src/Server/Router/Sessions.antt =====
-- The session registry and the `username` of the connections agree, whatever arrives.
pub mod Login
pub mod Run
pub mod Passwords
pub mod Texts
pub mod Values
use socket_to_ciphertext.Prelude.{
  ℕ, String, ◌≡◌, ◌≢◌, refl, sym, ap, subst, ◌∙◌, Bool, true, false, not, ◌||◌, Option, none, some,
  List, [], ◌∷◌, ◌==◌, eq_iff, eqb, eqb_refl, if◌then◌else◌, Option-cases, Bool-cases, inl, inr,
  ◌⊎◌, arith, false≢true, map,
}
use socket_to_ciphertext.Prelude.Assoc.{Dict, get, has, put, pop, get-put, get-pop, get-none_of_has}
use socket_to_ciphertext.Wire.Value.{Value, or_null, truthy, text?}
use socket_to_ciphertext.Wire.Frame.{Frame, MessageType}
use socket_to_ciphertext.Server.Env.{Env}
use socket_to_ciphertext.Server.Registry
use socket_to_ciphertext.Server.Registry.{Conn}
use socket_to_ciphertext.Server.Store.Users
use socket_to_ciphertext.Server.Store.Messages
use socket_to_ciphertext.Server.Store.Messages.{Row}
use socket_to_ciphertext.Server.Router.World.{
  World, Outcome, done, abort, world, set_username, is_room, send, make, tick, post, refuse,
}
use socket_to_ciphertext.Server.Router.Rows.{
  Opened, open_row, row_frame, hand_over, flush_pending, skipped, opened, raised,
}
use socket_to_ciphertext.Server.Router.Accounts.{
  send_all, announce, store_account, user_exists, register, welcome, enter, enter_with,
  check_password, login, on_disconnect,
}
use socket_to_ciphertext.Server.Router.Handle.{
  dispatch, logged_in, by_type, handle, Event, arrives, closes, settled, step, run,
}
use socket_to_ciphertext.Server.Router.Sending.{
  Sends, Sends-none, Sends-refl, Sends-trans, Sends-send, Sends-post, Sends-refuse,
}
use socket_to_ciphertext.Server.Router.Sending.Handlers.{Attributed}
use socket_to_ciphertext.Server.Router.Sending.Dispatch.{dispatch-Sends}

-- A name is in the registry with a connection exactly when that connection has the name.
pub record Consistent (w : World) : Type 0 where
  pub owned : (u : String) (c : Conn) → get w.sessions u ≡ some c → w.username c ≡ some u
  pub claimed : (u : String) (c : Conn) → w.username c ≡ some u → get w.sessions u ≡ some c

-- Neither changes.
pub record SameSessions (w x : World) : Type 0 where
  pub sessions : x.sessions ≡ w.sessions
  pub username : x.username ≡ w.username

pub SameSessions-Consistent : {w x : World} → SameSessions w x → Consistent w → Consistent x
SameSessions-Consistent {w} {x} s k = record {
  owned = λ u c e. ap (λ f. f c) s.username ∙ k.owned u c (ap (λ r. get r u) (sym s.sessions) ∙ e);
  claimed =
      λ u c e. ap (λ r. get r u) s.sessions ∙ k.claimed u c (ap (λ f. f c) (sym s.username) ∙ e);
}

pub Sends-SameSessions : {P : Conn × Frame → Type 0} {w x : World} → Sends P w x → SameSessions w x
Sends-SameSessions h = record { sessions = h.sessions; username = h.username }

-- What holds of the world after each branch holds of the world after the branching.
module _ (P : World → Type 0) where
  pub world-if :
      (b : Bool) (x y : Outcome)
      → (b ≡ true → P (world x))
      → (b ≡ false → P (world y))
      → P (world (if b then x else y))
  world-if true x y h k = h refl
  world-if false x y h k = k refl

  pub world-option {ℓ} :
      {A : Type ℓ} (o : Option A) (x : Outcome) (f : A → Outcome)
      → (o ≡ none → P (world x))
      → ((a : A) → o ≡ some a → P (world (f a)))
      → P (world (elim o [ none ↦ x | some a ↦ f a ]))
  world-option none x f h k = h refl
  world-option (some a) x f h k = k a refl

  -- The same where the second branch is the one with a value.
  pub world-known {ℓ} :
      {A : Type ℓ} (o : Option A) (x : Outcome) (f : A → Outcome)
      → (o ≡ none → P (world x))
      → ((a : A) → o ≡ some a → P (world (f a)))
      → P (world (elim o [ some a ↦ f a | none ↦ x ]))
  world-known none x f h k = h refl
  world-known (some a) x f h k = k a refl

-- No condition on the frames.
abbrev pub Any : Conn × Frame → Type 0
Any e = Unit

send_all-Sends : (w : World) (cs : List Conn) (f : Frame) → Sends Any w (send_all w cs f)
unfolding send_all
send_all-Sends w [] f = Sends-refl w
send_all-Sends w (c ∷ cs) f = Sends-trans (Sends-send w c f tt) (send_all-Sends (send w c f) cs f)

module _ (env : Env) where
  pub announce-Sends : (w : World) (u state : String) → Sends Any w (announce env w u state)
  unfolding announce
  announce-Sends w u state =
      Sends-trans (Sends-none w (tick env w) refl refl refl refl)
        (send_all-Sends (tick env w) (Registry.others w.sessions u) _)

  hand_over-Sends :
      (w : World) (c : Conn) (u : String) (rows : List Row)
      → Sends Any w (world (hand_over env w c u rows))
  unfolding hand_over
  hand_over-Sends w c u [] = Sends-refl w
  hand_over-Sends w c u (row ∷ rows) =
      by_opened (open_row env row u) (λ x. hand_over-Sends x c u rows)
    where
      by_opened :
          (o : Opened)
          → ((x : World) → Sends Any x (world (hand_over env x c u rows)))
          → Sends Any w (
              world (elim o [
                | raised ↦ abort w
                | skipped ↦ hand_over env w c u rows
                | opened body n ↦ hand_over env (send w c (row_frame env row body n)) c u rows
              ]))
      by_opened raised ih = Sends-refl w
      by_opened skipped ih = ih w
      by_opened (opened body n) ih =
          Sends-trans (Sends-send w c (row_frame env row body n) tt) (ih _)

  flush_pending-Sends :
      (w : World) (c : Conn) (u : String) → Sends Any w (world (flush_pending env w c u))
  unfolding flush_pending
  flush_pending-Sends w c u = by_store w.messages
    where
      by_store :
          (o : Option Messages.Messages)
          → Sends Any w (
              world (elim o [
                | none ↦ done w
                | some t ↦
                    let (rows, t') = Messages.flush t u in
                    hand_over env (record w { messages = some t' }) c u rows
              ]))
      by_store none = Sends-refl w
      by_store (some t) = Sends-trans (Sends-none w _ refl refl refl refl) (
          hand_over-Sends (record w { messages = some (Messages.flush t u).1 }) c u
            (Messages.flush t u).0)

  pub entered-Sends :
      (w : World) (c : Conn) (u : String)
      → Sends Any w (world (flush_pending env (announce env (welcome env w c u) u "ONLINE") c u))
  unfolding welcome
  entered-Sends w c u =
      let hello : World = welcome env w c u in
      Sends-trans (Sends-post env w c _ _ _ tt) (
        Sends-trans (announce-Sends hello u "ONLINE")
          (flush_pending-Sends (announce env hello u "ONLINE") c u))
