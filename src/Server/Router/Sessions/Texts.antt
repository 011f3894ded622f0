-- ===== src/Server/Router/Sessions/Texts.antt =====
-- How the handlers end, as lemmas on their outcomes.
use socket_to_ciphertext.Prelude.{
  String, ◌≡◌, refl, Bool, true, false, not, ◌||◌, Option, none, some, List, [], ◌∷◌, if◌then◌else◌,
  contains, ◌==◌,
}
use socket_to_ciphertext.Prelude.Assoc.{get}
use socket_to_ciphertext.Wire.Value.{Value, str, or_null, truthy, text?}
use socket_to_ciphertext.Wire.Frame.{Frame, MessageType}
use socket_to_ciphertext.Server.Env.{Env, py_str}
use socket_to_ciphertext.Server.Registry
use socket_to_ciphertext.Server.Registry.{Conn}
use socket_to_ciphertext.Server.Store.Users
use socket_to_ciphertext.Server.Store.Messages
use socket_to_ciphertext.Server.Store.Messages.{Row, direct_conversation}
use socket_to_ciphertext.Server.Store.Rooms
use socket_to_ciphertext.Server.Router.Contacts.{or_empty}
use socket_to_ciphertext.Server.Router.World.{
  World, Outcome, done, abort, outside, is_room, send, post, tick, set_username,
}
use socket_to_ciphertext.Server.Router.Accounts.{
  announce, welcome, user_exists, store_account, register, enter, enter_with, check_password,
}
use socket_to_ciphertext.Server.Router.Rows.{
  Opened, skipped, opened, raised, row_frame, hand_over, flush_pending, open_row, history_entries,
}
use socket_to_ciphertext.Server.Router.Delivery.{
  Taken, taken, refused, message, acknowledge, to_room, to_user, rebuilt, dict?,
}
use socket_to_ciphertext.Server.Router.History.{
  read_before, read_limit, history_target, history, answer_history, send_history,
}
use socket_to_ciphertext.Server.Router.Handle.{dispatch, logged_in}

-- What holds of each branch holds of the branching.
module _ (P : Outcome → Type 0) where
  pub outcome-if :
      (b : Bool) (x y : Outcome) → (b ≡ true → P x) → (b ≡ false → P y) → P (if b then x else y)
  outcome-if true x y h k = h refl
  outcome-if false x y h k = k refl

  pub outcome-option {ℓ} :
      {A : Type ℓ} (o : Option A) (x : Outcome) (f : A → Outcome)
      → (o ≡ none → P x)
      → ((a : A) → o ≡ some a → P (f a))
      → P (elim o [ none ↦ x | some a ↦ f a ])
  outcome-option none x f h k = h refl
  outcome-option (some a) x f h k = k a refl

  pub outcome-known {ℓ} :
      {A : Type ℓ} (o : Option A) (x : Outcome) (f : A → Outcome)
      → (o ≡ none → P x)
      → ((a : A) → o ≡ some a → P (f a))
      → P (elim o [ some a ↦ f a | none ↦ x ])
  outcome-known none x f h k = h refl
  outcome-known (some a) x f h k = k a refl

abbrev pub Inside : Outcome → Type 0
Inside (done w) = Unit
Inside (abort w) = Unit
Inside (outside w) = true ≡ false

-- The handler stays with usernames that are texts.
pub record Stays (o : Outcome) : Type 0 where
  pub inside : Inside o

pub Stays-outside : (o : Outcome) (w : World) → Stays o → o ≡ outside w → true ≡ false
Stays-outside (done x) w h e = absurd (cc)
Stays-outside (abort x) w h e = absurd (cc)
Stays-outside (outside x) w h e = h.inside

module _ (env : Env) where
  hand_over-Stays :
      (w : World) (c : Conn) (u : String) (rows : List Row) → Stays (hand_over env w c u rows)
  unfolding hand_over
  hand_over-Stays w c u [] = record { inside = tt }
  hand_over-Stays w c u (row ∷ rows) =
      by_opened (open_row env row u) (λ x. hand_over-Stays x c u rows)
    where
      by_opened :
          (o : Opened)
          → ((x : World) → Stays (hand_over env x c u rows))
          → Stays (elim o [
            | raised ↦ abort w
            | skipped ↦ hand_over env w c u rows
            | opened body n ↦ hand_over env (send w c (row_frame env row body n)) c u rows
          ])
      by_opened raised ih = record { inside = tt }
      by_opened skipped ih = ih w
      by_opened (opened body n) ih = ih _

  flush_pending-Stays : (w : World) (c : Conn) (u : String) → Stays (flush_pending env w c u)
  unfolding flush_pending
  flush_pending-Stays w c u =
      outcome-option Stays w.messages _ _ (λ _. (record { inside = tt }))
        λ t _.
          hand_over-Stays (record w { messages = some (Messages.flush t u).1 }) c u
            (Messages.flush t u).0

  enter_with-Stays :
      (w : World) (c : Conn) (u : String) (r : Registry.SessionRegistry × Bool)
      → Stays (enter_with env w c u r)
  unfolding enter_with
  enter_with-Stays w c u (s, false) = record { inside = tt }
  enter_with-Stays w c u (s, true) =
      let here : World = record w { sessions = s; username = set_username w.username c (some u) } in
      flush_pending-Stays (announce env (welcome env here c u) u "ONLINE") c u

  pub check_password-Stays :
      (w : World) (c : Conn) (u p : String) → Stays (check_password env w c u p)
  unfolding check_password enter
  check_password-Stays w c u p =
      outcome-if Stays (Users.verify env w.users u p) _ _
        (λ _. enter_with-Stays w c u (Registry.login w.sessions u c))
        (λ _. (record { inside = tt }))

  store_account-Stays :
      (w : World) (c : Conn) (u p : String) (key : Value) → Stays (store_account env w c u p key)
  unfolding store_account
  store_account-Stays w c u p key = go (Users.exists w.users u)
    where
      go :
          (b : Bool)
          → Stays (elim b [
            | true ↦ done (user_exists env w c u)
            | false ↦ elim (env.bind_text key) [
              | none ↦ abort w
              | some pubkey ↦
                  let users = (Users.register env w.calls w.users u p pubkey).0 in
                  done (
                    post env
                      (tick env (record w { users = users }))
                      c
                      MessageType.ok
                      none
                      (("user", str u) ∷ []))
            ]
          ])
      go true = record { inside = tt }
      go false =
          outcome-option Stays (env.bind_text key) _ _ (λ _. (record { inside = tt }))
            (λ _ _. (record { inside = tt }))

  pub register-Stays : (w : World) (c : Conn) (frame : Frame) → Stays (register env w c frame)
  unfolding register
  register-Stays w c frame =
      outcome-if Stays
        (not (truthy (or_null (get frame.payload "user")))
          || not (truthy (or_null (get frame.payload "pass_hash"))))
        _ _ (λ _. (record { inside = tt }))
        λ _.
          outcome-option Stays (text? (or_null (get frame.payload "user"))) _ _
            (λ _. (record { inside = tt }))
            λ u _.
              outcome-if Stays (is_room u) _ _ (λ _. (record { inside = tt }))
                λ _.
                  outcome-option Stays (text? (or_null (get frame.payload "pass_hash"))) _ _
                    (λ _. (record { inside = tt }))
                    (λ p _. store_account-Stays w c u p (or_null (get frame.payload "pubkey")))

  acknowledge-Stays :
      (w : World) (c : Conn) (ref : String) (k : Taken) → Stays (acknowledge env w c ref k)
  acknowledge-Stays w c ref (taken x) = record { inside = tt }
  acknowledge-Stays w c ref (refused x) = record { inside = tt }
  acknowledge-Stays w c ref Taken.raised = record { inside = tt }

  answer_history-Stays :
      (w : World) (c : Conn) (t : Messages.Messages) (me target conversation : String)
      (frame : Frame)
      → Stays (answer_history env w c t me target conversation frame)
  unfolding answer_history
  answer_history-Stays w c t me target conversation frame =
      outcome-option Stays (read_before env (or_null (get frame.payload "before"))) _ _
        (λ _. (record { inside = tt }))
        λ before _.
          outcome-option Stays (read_limit env (or_null (get frame.payload "limit"))) _ _
            (λ _. (record { inside = tt }))
            λ limit _.
              outcome-option Stays (Messages.history t conversation before limit) _ _
                (λ _. (record { inside = tt })) (λ rows _. sent (history_entries env rows me))
    where
      sent : (o : Option (List Value)) → Stays (send_history env w c target o)
      sent none = record { inside = tt }
      sent (some es) = record { inside = tt }

  history-Stays :
      (w : World) (c : Conn) (me : String) (frame : Frame) → Stays (history env w c me frame)
  unfolding history
  history-Stays w c me frame =
      let target : String = py_str env (history_target env frame) in
      outcome-option Stays w.messages _ _ (λ _. record { inside = tt })
        λ t _.
          outcome-if Stays (not (truthy (history_target env frame))) _ _
            (λ _. record { inside = tt })
            λ _.
              outcome-if Stays (is_room target) _ _
                (λ _.
                  outcome-if Stays (contains (Rooms.members w.rooms target) me) _ _
                    (λ _. answer_history-Stays w c t me target target frame)
                    (λ _. record { inside = tt }))
                (λ _. answer_history-Stays w c t me target (direct_conversation me target) frame)

  message-Stays :
      (w : World) (c : Conn) (me : String) (frame : Frame) → Stays (message env w c me frame)
  unfolding message
  message-Stays w c me frame =
      let target : String = or_empty frame.to in
      outcome-if Stays (target == "") _ _ (λ _. record { inside = tt })
        λ _. acknowledge-Stays w c frame.id (
          if is_room target
          then to_room env w c me target (rebuilt frame me target)
              (dict? (or_null (get frame.payload "env")))
          else to_user env w c me target (rebuilt frame me target))

  dispatch-Stays :
      (w : World) (c : Conn) (me : String) (type : MessageType) (frame : Frame)
      → Stays (dispatch env w c me type frame)
  unfolding dispatch
  dispatch-Stays w c me MessageType.msg frame = message-Stays w c me frame
  dispatch-Stays w c me MessageType.history frame = history-Stays w c me frame
  dispatch-Stays w c me _ frame = record { inside = tt }

  pub logged_in-Stays :
      (w : World) (c : Conn) (frame : Frame) (me : Option String)
      → Stays (logged_in env w c frame me)
  logged_in-Stays w c frame none = record { inside = tt }
  logged_in-Stays w c frame (some me) = dispatch-Stays w c me frame.type frame
