-- ===== src/Server/Router/Sessions/Passwords.antt =====
-- Who holds a name has shown the account's password.
use socket_to_ciphertext.Prelude.{
  String, ◌≡◌, refl, sym, ap, subst, ◌∙◌, Bool, true, false, not, ◌||◌, Option, none, some, [], eqb,
  if◌then◌else◌, Bool-cases, inl, inr, ◌⊎◌, arith,
}
use socket_to_ciphertext.Prelude.Assoc.{get, has, put}
use socket_to_ciphertext.Wire.Value.{Value, str, or_null, truthy, text?}
use socket_to_ciphertext.Wire.Frame.{Frame, MessageType}
use socket_to_ciphertext.Server.Env.{Env}
use socket_to_ciphertext.Server.Registry
use socket_to_ciphertext.Server.Registry.{Conn}
use socket_to_ciphertext.Server.Store.Users
use socket_to_ciphertext.Server.Router.World.{
  World, Outcome, done, abort, outside, world, set_username, is_room, post,
}
use socket_to_ciphertext.Server.Router.Accounts.{
  announce, store_account, register, enter, enter_with, check_password, login, on_disconnect,
}
use socket_to_ciphertext.Server.Router.Handle.{
  logged_in, by_type, handle, Event, arrives, closes, settled, step,
}
use socket_to_ciphertext.Server.Router.Sending.{Sends-post}
use socket_to_ciphertext.Server.Router.Sending.Dispatch.{dispatch-Sends}
use socket_to_ciphertext.Server.Router.Sessions.{
  SameSessions, Sends-SameSessions, world-if, world-option, world-known, Any, announce-Sends,
  entered-Sends,
}
use socket_to_ciphertext.Server.Router.Sessions.Login.{
  refuse-Same, login_as_value-Same, login-taken, login-free,
}

-- The LOGIN frame names the account and carries a password that opens it.
pub record Proven (env : Env) (w : World) (frame : Frame) (u : String) : Type 0 where
  pub password : String
  pub type : frame.type ≡ MessageType.login
  pub user : get frame.payload "user" ≡ some (str u)
  pub pass : get frame.payload "pass_hash" ≡ some (str password)
  pub verified : Users.verify env w.users u password ≡ true

text_of : (o : Option Value) (s : String) → text? (or_null o) ≡ some s → o ≡ some (str s)
text_of none s h = ground arith
text_of (some (str t)) s h = cc
text_of (some _) s h = ground arith

module _ (env : Env) (w : World) (c : Conn) (frame : Frame) where
  -- Every name that a connection has in `x` it had in `w`, or it is `c` and has proven it.
  pub record NoNewNames (x : World) : Type 0 where
    pub earned :
        (d : Conn) (u : String)
        → x.username d ≡ some u
        → w.username d ≡ some u ⊎ ((d ≡ c) × Proven env w frame u)

  same-names : {x : World} → SameSessions w x → NoNewNames x
  same-names s = record { earned = λ d u h. inl (ap (λ f. f d) (sym s.username) ∙ h) }

  NoNewNames-claim :
      (u : String)
      → Proven env w frame u
      → {x : World} → x.username ≡ set_username w.username c (some u)
      → NoNewNames x
  NoNewNames-claim u proven {x} e = record {
    earned = λ d v h. go d v (eqb c d) refl (ap (λ (f : Conn → Option String). f d) (sym e) ∙ h);
  }
    where
      go :
          (d : Conn) (v : String) (b : Bool)
          → eqb c d ≡ b
          → (if b then some u else w.username d) ≡ some v
          → w.username d ≡ some v ⊎ ((d ≡ c) × Proven env w frame v)
      go d v true same k =
          let here : d ≡ c = ground arith in
          let name : u ≡ v = cc in inr (here, subst (Proven env w frame) name proven)
      go d v false other k = inl k

  enter-NoNewNames : (u : String) → Proven env w frame u → NoNewNames (world (enter env w c u))
  unfolding enter enter_with
  enter-NoNewNames u proven = elim (Bool-cases (has w.sessions u)) [
    | inl taken ↦ rw (login-taken env w.sessions u c taken) (same-names (refuse-Same env w c _ _))
    | inr free ↦
        let here : World = record w {
          sessions = put w.sessions u c;
          username = set_username w.username c (some u);
        } in
        rw (login-free env w.sessions u c free)
          (NoNewNames-claim u proven (Sends-SameSessions (entered-Sends env here c u)).username)
  ]

  login-NoNewNames : frame.type ≡ MessageType.login → NoNewNames (world (login env w c frame))
  unfolding login check_password
  login-NoNewNames type =
      let refused = λ (code message : String). same-names (refuse-Same env w c code message) in
      let user : Value = or_null (get frame.payload "user") in
      let pass : Value = or_null (get frame.payload "pass_hash") in
      let same : NoNewNames w = record { earned = λ d u h. inl h } in
      world-known NoNewNames (w.username c) _ _
        (λ fresh.
          world-if NoNewNames (not (truthy user) || not (truthy pass)) _ _ (λ _. refused _ _)
            λ _.
              world-option NoNewNames (text? user) _ _
                (λ _. same-names (login_as_value-Same env w c user pass))
                λ u hu.
                  world-option NoNewNames (text? pass) _ _ (λ _. same)
                    λ p hp.
                      world-if NoNewNames (Users.verify env w.users u p) _ _
                        (λ ok. enter-NoNewNames u (record {
                          password = p;
                          type = type;
                          user = text_of (get frame.payload "user") u hu;
                          pass = text_of (get frame.payload "pass_hash") p hp;
                          verified = ok;
                        }))
                        (λ _. refused _ _))
        (λ me _. refused _ _)

  store_account-Same :
      (u p : String) (key : Value) → SameSessions w (world (store_account env w c u p key))
  unfolding store_account post
  store_account-Same u p key = elim (Bool-cases (Users.exists w.users u)) [
    | inl taken ↦ rw (taken, store_account) (refuse-Same env w c _ _)
    | inr free ↦
        rw (free, store_account)
          (world-option (SameSessions w) (env.bind_text key) _ _
            (λ _. record { sessions = refl; username = refl })
            (λ pubkey _. record { sessions = refl; username = refl }))
  ]

  register-Same : SameSessions w (world (register env w c frame))
  unfolding register
  register-Same =
      let same : SameSessions w w = record { sessions = refl; username = refl } in
      let user : Value = or_null (get frame.payload "user") in
      let pass : Value = or_null (get frame.payload "pass_hash") in
      world-if (SameSessions w) (not (truthy user) || not (truthy pass)) _ _
        (λ _. refuse-Same env w c _ _)
        λ _.
          world-option (SameSessions w) (text? user) _ _ (λ _. same)
            λ u _.
              world-if (SameSessions w) (is_room u) _ _ (λ _. refuse-Same env w c _ _)
                λ _.
                  world-option (SameSessions w) (text? pass) _ _ (λ _. same)
                    λ p _. store_account-Same u p _

  logged_in-Same : (me : Option String) → SameSessions w (world (logged_in env w c frame me))
  logged_in-Same none = refuse-Same env w c _ _
  logged_in-Same (some me) = Sends-SameSessions (dispatch-Sends env me w c frame.type frame)

  by_type-NoNewNames :
      (type : MessageType) → frame.type ≡ type → NoNewNames (world (by_type env w c type frame))
  by_type-NoNewNames MessageType.ping e =
      same-names (Sends-SameSessions (Sends-post {P = Any} env w c MessageType.pong none [] tt))
  by_type-NoNewNames MessageType.register e = same-names register-Same
  by_type-NoNewNames MessageType.login e = login-NoNewNames e
  by_type-NoNewNames _ e = same-names (logged_in-Same (w.username c))

module _ (env : Env) where
  -- What `on_disconnect` makes of the connection's name.
  abbrev signed_off : World → Conn → Option String → World
  signed_off w c none = w
  signed_off w c (some v) =
      announce env
        (record w {
          sessions = Registry.logout w.sessions v;
          username = set_username w.username c none;
        })
        v "OFFLINE"

  on_disconnect-username :
      (w : World) (c d : Conn) (u : String)
      → (on_disconnect env w c).username d ≡ some u
      → w.username d ≡ some u
  unfolding on_disconnect
  on_disconnect-username w c d u = go (w.username c)
    where
      go : (o : Option String) → (signed_off w c o).username d ≡ some u → w.username d ≡ some u
      go none h = h
      go (some v) h =
          let out : World = record w {
            sessions = Registry.logout w.sessions v;
            username = set_username w.username c none;
          } in
          let same = (Sends-SameSessions (announce-Sends env out v "OFFLINE")).username in
          let k : (if eqb c d then none else w.username d) ≡ some u =
            ap (λ (f : Conn → Option String). f d) (sym same) ∙ h in
          ground arith

  settled-username :
      (c : Conn) (o : Outcome) (x : World) (d : Conn) (u : String)
      → settled env c o ≡ some x
      → x.username d ≡ some u
      → (world o).username d ≡ some u
  settled-username c (done y) x d u e h =
      let same : y ≡ x = cc in ap (λ (z : World). z.username d) same ∙ h
  settled-username c (abort y) x d u e h =
      let same : on_disconnect env y c ≡ x = cc in
      on_disconnect-username y c d u (ap (λ (z : World). z.username d) same ∙ h)
  settled-username c (outside y) x d u e h = absurd (cc)

  -- Nobody gets a name without its password: after an event, a connection that has a name had it before,
  -- or the event is a LOGIN frame of that very connection that names the account and carries a
  -- password which the store of accounts, as it was before, verifies for it. The event is any but a
  -- LOGIN that succeeds under a value that is not a text, where `step` has no result.
  pub step_names :
      (w x : World) (e : Event) (d : Conn) (u : String)
      → step env w e ≡ some x
      → x.username d ≡ some u
      → (w.username d ≡ some u) ⊎ ((frame : Frame) × (e ≡ arrives d frame) × Proven env w frame u)
  unfolding step handle
  step_names w x (arrives c frame) d u s h =
      elim ((by_type-NoNewNames env w c frame frame.type refl).earned d u
        (settled-username c (handle env w c frame) x d u s h)) [
          | inl old ↦ inl old
          | inr (here, proven) ↦ inr (frame, ap (λ x. arrives x frame) (sym here), proven)
        ]
  step_names w x (closes c) d u s h =
      let same : on_disconnect env w c ≡ x = cc in
      inl (on_disconnect-username w c d u (ap (λ (z : World). z.username d) same ∙ h))
