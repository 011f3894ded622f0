-- ===== src/Server/Router/Sending/Handled.antt =====
-- MessageRouter.handle: what a connection can bring about before and after it has logged in.
use socket_to_ciphertext.Prelude.{
  String, ◌≡◌, ◌≢◌, refl, subst, sym, ap, ◌∙◌, Option, none, some, List, [], ◌∷◌, ◌++◌, ◌⊎◌, inl,
  inr, All, append_assoc,
}
use socket_to_ciphertext.Wire.Frame.{Frame, MessageType}
use socket_to_ciphertext.Server.Env.{Env}
use socket_to_ciphertext.Prelude.Assoc.{pop}
use socket_to_ciphertext.Server.Registry
use socket_to_ciphertext.Server.Registry.{Conn}
use socket_to_ciphertext.Server.Router.World.{
  World, Outcome, done, abort, outside, world, set_username, send, tick,
}
use socket_to_ciphertext.Server.Router.Accounts.{login, send_all, announce, on_disconnect}
use socket_to_ciphertext.Server.Router.Handle.{
  dispatch, logged_in, by_type, handle, arrives, settled, step,
}
use socket_to_ciphertext.Server.Router.Sending.{
  Sends, Sends-none, Sends-refl, Sends-trans, Sends-send, All-append,
}
use socket_to_ciphertext.Server.Router.Sending.Handlers.{Attributed, refuse-Sends, post-Sends}
use socket_to_ciphertext.Server.Router.Sending.Dispatch.{dispatch-Sends}
use socket_to_ciphertext.Server.Router.Sessions.{world-known}

module _ (env : Env) (me : String) (w : World) (c : Conn) (frame : Frame) where
  login-Sends : w.username c ≡ some me → Sends (Attributed me) w (world (login env w c frame))
  unfolding login
  login-Sends h =
      world-known (Sends (Attributed me) w) (w.username c) _ _
        (λ fresh. let z : none ≡ some me = sym fresh ∙ h in absurd (cc))
        (λ u _. refuse-Sends env me w c _ _)

  logged_in-Sends :
      (o : Option String)
      → o ≡ some me
      → Sends (Attributed me) w (world (logged_in env w c frame o))
  logged_in-Sends none h = absurd (cc)
  logged_in-Sends (some u) h =
      let p : me ≡ u = cc in
      subst (λ v. Sends (Attributed me) w (world (dispatch env w c v frame.type frame))) p
        (dispatch-Sends env me w c frame.type frame)

  by_type-Sends :
      (type : MessageType)
      → type ≢ MessageType.register
      → w.username c ≡ some me
      → Sends (Attributed me) w (world (by_type env w c type frame))
  by_type-Sends MessageType.ping n h = post-Sends env me w c MessageType.pong none []
  by_type-Sends MessageType.register n h = absurd (n refl)
  by_type-Sends MessageType.login n h = login-Sends h
  by_type-Sends _ n h = logged_in-Sends (w.username c) h

  -- Up to the handler's return, or to the exception that it raises.
  handle-Attributed :
      w.username c ≡ some me
      → frame.type ≢ MessageType.register
      → Sends (Attributed me) w (world (handle env w c frame))
  unfolding handle
  handle-Attributed h n = by_type-Sends frame.type n h

send_all-Sends :
    {P : Conn × Frame → Type 0} (w : World) (cs : List Conn) (f : Frame)
    → ((c : Conn) → P (c, f))
    → Sends P w (send_all w cs f)
unfolding send_all
send_all-Sends w [] f p = Sends-refl w
send_all-Sends w (c ∷ cs) f p =
    Sends-trans (Sends-send w c f (p c)) (send_all-Sends (send w c f) cs f p)

-- From `w` to `x`, which a frame from `c` brought about: accounts stay, every frame that went out
-- names no sender or `me`, and either nobody logged in or out, or `me` alone was logged out.
pub record Served (me : String) (c : Conn) (w x : World) : Type 0 where
  pub users : x.users ≡ w.users
  pub new : List (Conn × Frame)
  pub sent : x.sent ≡ w.sent ++ new
  pub all : All (Attributed me) new
  pub names :
      ((x.sessions ≡ w.sessions) × (x.username ≡ w.username))
      ⊎ ((x.sessions ≡ pop w.sessions me) × (x.username ≡ set_username w.username c none))

module _ (env : Env) (me : String) where
  announce-Sends : (w : World) (u state : String) → Sends (Attributed me) w (announce env w u state)
  unfolding announce Attributed
  announce-Sends w u state =
      Sends-trans (Sends-none w (tick env w) refl refl refl refl)
        (send_all-Sends (tick env w) (Registry.others w.sessions u) _ (λ c. inl refl))

  -- What the end of a connection adds.
  signed_off-Served :
      (w y : World) (c : Conn)
      → Sends (Attributed me) w y
      → w.username c ≡ some me
      → Served me c w (on_disconnect env y c)
  unfolding on_disconnect
  signed_off-Served w y c h e =
      let name : y.username c ≡ some me = ap (λ f. f c) h.username ∙ e in
      let out : World = record y {
        sessions = pop y.sessions me;
        username = set_username y.username c none;
      } in
      let told = announce-Sends out me "OFFLINE" in
      rw (name, on_disconnect)
        (record {
          users = told.users ∙ h.users;
          new = h.new ++ told.new;
          sent =
              told.sent
              ∙ ap (λ (l : List (Conn × Frame)). l ++ told.new) h.sent
              ∙ append_assoc w.sent h.new told.new;
          all = All-append (Attributed me) h.new told.new h.all told.all;
          names = inr (
            told.sessions ∙ ap (λ r. pop r me) h.sessions,
            told.username ∙ ap (λ f. set_username f c none) h.username,
          );
        })

  settled-Served :
      (w x : World) (c : Conn) (o : Outcome)
      → Sends (Attributed me) w (world o)
      → w.username c ≡ some me
      → settled env c o ≡ some x
      → Served me c w x
  settled-Served w x c (done y) h e s =
      let same : y ≡ x = cc in
      subst (Served me c w) same (record {
        users = h.users;
        new = h.new;
        sent = h.sent;
        all = h.all;
        names = inl (h.sessions, h.username);
      })
  settled-Served w x c (abort y) h e s =
      let same : on_disconnect env y c ≡ x = cc in
      subst (Served me c w) same (signed_off-Served w y c h e)
  settled-Served w x c (outside y) h e s = absurd (cc)

  -- Whatever frame other than a REGISTER comes from a logged-in connection, and also if its handler
  -- raises and so ends the connection: no account changes, and each frame that goes out, to whomever,
  -- names no sender or the user of that connection, whatever sender the frame that came in claims.
  -- Either nobody is logged in or out, or that user alone is logged out.
  pub step-Attributed :
      (w x : World) (c : Conn) (frame : Frame)
      → w.username c ≡ some me
      → frame.type ≢ MessageType.register
      → step env w (arrives c frame) ≡ some x
      → Served me c w x
  unfolding step
  step-Attributed w x c frame h n s =
      settled-Served w x c (handle env w c frame) (handle-Attributed env me w c frame h n) h s
