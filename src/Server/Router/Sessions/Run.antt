-- ===== src/Server/Router/Sessions/Run.antt =====
-- Every sequence of arrivals and closings keeps the registry consistent.
use socket_to_ciphertext.Prelude.{
  String, ◌≡◌, refl, sym, ap, subst, ◌∙◌, Option, Option-cases, inl, inr, none, some, List, [], ◌∷◌,
}
use socket_to_ciphertext.Prelude.Assoc.{get}
use socket_to_ciphertext.Wire.Frame.{Frame, MessageType}
use socket_to_ciphertext.Server.Env.{Env}
use socket_to_ciphertext.Server.Registry.{Conn}
use socket_to_ciphertext.Server.Router.World.{World, Outcome, done, abort, outside, world}
use socket_to_ciphertext.Server.Router.Accounts.{on_disconnect}
use socket_to_ciphertext.Server.Router.Handle.{
  logged_in, by_type, handle, Event, arrives, closes, settled, step, run,
}
use socket_to_ciphertext.Server.Router.Sending.{Sends-post}
use socket_to_ciphertext.Server.Router.Sending.Dispatch.{dispatch-Sends}
use socket_to_ciphertext.Server.Router.Sessions.{
  Consistent, SameSessions-Consistent, Sends-SameSessions, Any,
}
use socket_to_ciphertext.Server.Router.Sessions.Login.{
  refuse-Same, register-Consistent, login-Consistent, on_disconnect-Consistent,
}

-- Nobody holds a name before the first connection.
abbrev pub Unclaimed : World → Type 0
Unclaimed w = (w.sessions ≡ []) × ((c : Conn) → w.username c ≡ none)

pub start_Consistent :
    (w : World) → w.sessions ≡ [] → ((c : Conn) → w.username c ≡ none) → Consistent w
start_Consistent w e f = record {
  owned = λ u c h. let z : none ≡ some c = ap (λ r. get r u) (sym e) ∙ h in cc;
  claimed = λ u c h. let z : none ≡ some u = sym (f c) ∙ h in cc;
}

module _ (env : Env) where
  logged_in-Consistent :
      (w : World) (c : Conn) (frame : Frame) (me : Option String)
      → Consistent w
      → Consistent (world (logged_in env w c frame me))
  logged_in-Consistent w c frame none k = SameSessions-Consistent (refuse-Same env w c _ _) k
  logged_in-Consistent w c frame (some me) k =
      SameSessions-Consistent (Sends-SameSessions (dispatch-Sends env me w c frame.type frame)) k

  by_type-Consistent :
      (w : World) (c : Conn) (type : MessageType) (frame : Frame)
      → Consistent w
      → Consistent (world (by_type env w c type frame))
  by_type-Consistent w c MessageType.ping frame k =
      SameSessions-Consistent
        (Sends-SameSessions (Sends-post {P = Any} env w c MessageType.pong none [] tt)) k
  by_type-Consistent w c MessageType.register frame k = register-Consistent env w c frame k
  by_type-Consistent w c MessageType.login frame k = login-Consistent env w c frame k
  by_type-Consistent w c _ frame k = logged_in-Consistent w c frame (w.username c) k

  settled-Consistent :
      (c : Conn) (o : Outcome) (x : World)
      → settled env c o ≡ some x
      → Consistent (world o)
      → Consistent x
  settled-Consistent c (done w) x e k = let same : w ≡ x = cc in subst Consistent same k
  settled-Consistent c (abort w) x e k =
      let same : on_disconnect env w c ≡ x = cc in
      subst Consistent same (on_disconnect-Consistent env w c k)
  settled-Consistent c (outside w) x e k = absurd (cc)

  step-Consistent : (w x : World) (e : Event) → step env w e ≡ some x → Consistent w → Consistent x
  unfolding step handle
  step-Consistent w x (arrives c frame) s k =
      settled-Consistent c (handle env w c frame) x s (by_type-Consistent w c frame.type frame k)
  step-Consistent w x (closes c) s k =
      let same : on_disconnect env w c ≡ x = cc in
      subst Consistent same (on_disconnect-Consistent env w c k)

  run-step :
      (w x : World) (e : Event) (es : List Event)
      → run env w (e ∷ es) ≡ some x
      → (y : World) × (step env w e ≡ some y) × (run env y es ≡ some x)
  unfolding run
  run-step w x e es h = elim (Option-cases (step env w e)) [
    | inl n ↦ absurd (cc)
    | inr (y, p) ↦
        (y, p, (let q : run env w (e ∷ es) ≡ run env y es = rw (p, run) refl in sym q ∙ h))
  ]

  -- Whatever frames arrive, on whatever connections and in whatever order with connections that
  -- close, and also where a handler raises and so ends its connection, as long as nobody logs in
  -- under a value that is not a text (then `run` has no result): if the registry and the
  -- usernames of the connections agreed at the start, they agree at the end, which means that a
  -- name is registered with a connection exactly when that connection has the name.
  pub run-Consistent :
      (w x : World) (es : List Event) → run env w es ≡ some x → Consistent w → Consistent x
  unfolding run
  run-Consistent w x [] h k = let same : w ≡ x = cc in subst Consistent same k
  run-Consistent w x (e ∷ es) h k =
      let (y, s, r) = run-step w x e es h in run-Consistent y x es r (step-Consistent w y e s k)
