-- ===== src/Server/Router/Sessions/Login.antt =====
-- REGISTER, LOGIN and the end of a connection keep the registry consistent.
use socket_to_ciphertext.Prelude.{
  String, ◌≡◌, refl, true, false, not, ◌||◌, Option, none, some, eq_iff, eqb_refl, Bool-cases, inl,
  inr, arith,
}
use socket_to_ciphertext.Prelude.Assoc.{get, has, put, pop, get-put, get-pop, get-none_of_has}
use socket_to_ciphertext.Wire.Value.{Value, or_null, truthy, text?}
use socket_to_ciphertext.Wire.Frame.{Frame}
use socket_to_ciphertext.Server.Env.{Env}
use socket_to_ciphertext.Server.Registry
use socket_to_ciphertext.Server.Registry.{Conn}
use socket_to_ciphertext.Server.Store.Users
use socket_to_ciphertext.Server.Router.World.{World, world, set_username, is_room, post, refuse}
use socket_to_ciphertext.Server.Router.Accounts.{
  announce, store_account, register, enter, enter_with, check_password, opens, login_as_value,
  login, on_disconnect,
}
use socket_to_ciphertext.Server.Router.Sending.{Sends-refuse}
use socket_to_ciphertext.Server.Router.Sessions.{
  Consistent, SameSessions, SameSessions-Consistent, Sends-SameSessions, world-if, world-option,
  world-known, Any, announce-Sends, entered-Sends,
}

module _ (env : Env) where
  -- A connection without a name takes a free one.
  claim-Consistent :
      (w : World) (c : Conn) (u : String)
      → Consistent w
      → w.username c ≡ none
      → has w.sessions u ≡ false
      → Consistent (record w {
        sessions = put w.sessions u c;
        username = set_username w.username c (some u);
      })
  claim-Consistent w c u k fresh free = record {
    owned = λ j d e. ground (arith, get-put w.sessions u j c, eq_iff u j, k.owned j d, eqb_refl c);
    claimed = λ j d e. ground (
      arith,
      get-put w.sessions u j c,
      eq_iff u j,
      k.claimed j d,
      get-none_of_has w.sessions u free,
    );
  }

  release-Consistent :
      (w : World) (c : Conn) (u : String)
      → Consistent w
      → w.username c ≡ some u
      → Consistent
          (record w { sessions = pop w.sessions u; username = set_username w.username c none })
  release-Consistent w c u k mine = record {
    owned = λ j d e.
        ground (arith, get-pop w.sessions u j, eq_iff u j, k.owned j d, k.claimed u c mine);
    claimed = λ j d e.
        ground (arith, get-pop w.sessions u j, eq_iff u j, k.claimed j d, k.claimed u c mine);
  }

  pub refuse-Same :
      (w : World) (c : Conn) (code message : String) → SameSessions w (refuse env w c code message)
  refuse-Same w c code message = Sends-SameSessions (Sends-refuse {P = Any} env w c code message tt)

  pub login-taken :
      (s : Registry.SessionRegistry) (u : String) (c : Conn)
      → has s u ≡ true
      → Registry.login s u c ≡ (s, false)
  unfolding Registry.login
  login-taken s u c h = rw (h, Registry.login)

  pub login-free :
      (s : Registry.SessionRegistry) (u : String) (c : Conn)
      → has s u ≡ false
      → Registry.login s u c ≡ (put s u c, true)
  unfolding Registry.login
  login-free s u c h = rw (h, Registry.login)

  enter-Consistent :
      (w : World) (c : Conn) (u : String)
      → Consistent w
      → w.username c ≡ none
      → Consistent (world (enter env w c u))
  unfolding enter enter_with
  enter-Consistent w c u k fresh = elim (Bool-cases (has w.sessions u)) [
    | inl taken ↦
        rw (login-taken w.sessions u c taken) (SameSessions-Consistent (refuse-Same w c _ _) k)
    | inr free ↦
        let here : World = record w {
          sessions = put w.sessions u c;
          username = set_username w.username c (some u);
        } in
        rw (login-free w.sessions u c free) (
          SameSessions-Consistent (Sends-SameSessions (entered-Sends env here c u))
            (claim-Consistent w c u k fresh free))
  ]

  check_password-Consistent :
      (w : World) (c : Conn) (u p : String)
      → Consistent w
      → w.username c ≡ none
      → Consistent (world (check_password env w c u p))
  unfolding check_password
  check_password-Consistent w c u p k fresh =
      world-if Consistent (Users.verify env w.users u p) _ _ (λ _. enter-Consistent w c u k fresh)
        (λ _. SameSessions-Consistent (refuse-Same w c _ _) k)

  pub login_as_value-Same :
      (w : World) (c : Conn) (user pass : Value)
      → SameSessions w (world (login_as_value env w c user pass))
  unfolding login_as_value
  login_as_value-Same w c user pass =
      let same : SameSessions w w = record { sessions = refl; username = refl } in
      world-option (SameSessions w) (env.bind_text user) _ _ (λ _. same)
        λ bound _.
          world-option (SameSessions w) (text? pass) _ _ (λ _. same)
            λ p _.
              world-if (SameSessions w) (opens env w bound p) _ _ (λ _. same)
                (λ _. refuse-Same w c _ _)

  pub login-Consistent :
      (w : World) (c : Conn) (frame : Frame)
      → Consistent w
      → Consistent (world (login env w c frame))
  unfolding login
  login-Consistent w c frame k =
      let refused =
        λ (code message : String). SameSessions-Consistent (refuse-Same w c code message) k in
      let user : Value = or_null (get frame.payload "user") in
      let pass : Value = or_null (get frame.payload "pass_hash") in
      world-known Consistent (w.username c) _ _
        (λ fresh.
          world-if Consistent (not (truthy user) || not (truthy pass)) _ _ (λ _. refused _ _)
            λ _.
              world-option Consistent (text? user) _ _
                (λ _. SameSessions-Consistent (login_as_value-Same w c user pass) k)
                λ u _.
                  world-option Consistent (text? pass) _ _ (λ _. k)
                    λ p _. check_password-Consistent w c u p k fresh)
        (λ me _. refused _ _)

  store_account-Consistent :
      (w : World) (c : Conn) (u p : String) (key : Value)
      → Consistent w
      → Consistent (world (store_account env w c u p key))
  unfolding store_account post
  store_account-Consistent w c u p key k = elim (Bool-cases (Users.exists w.users u)) [
    | inl taken ↦ rw (taken, store_account) (SameSessions-Consistent (refuse-Same w c _ _) k)
    | inr free ↦
        rw (free, store_account)
          (world-option Consistent (env.bind_text key) _ _ (λ _. k)
            λ pubkey _. SameSessions-Consistent (record { sessions = refl; username = refl }) k)
  ]

  pub register-Consistent :
      (w : World) (c : Conn) (frame : Frame)
      → Consistent w
      → Consistent (world (register env w c frame))
  unfolding register
  register-Consistent w c frame k =
      let refused =
        λ (code message : String). SameSessions-Consistent (refuse-Same w c code message) k in
      let user : Value = or_null (get frame.payload "user") in
      let pass : Value = or_null (get frame.payload "pass_hash") in
      world-if Consistent (not (truthy user) || not (truthy pass)) _ _ (λ _. refused _ _)
        λ _.
          world-option Consistent (text? user) _ _ (λ _. k)
            λ u _.
              world-if Consistent (is_room u) _ _ (λ _. refused _ _)
                λ _.
                  world-option Consistent (text? pass) _ _ (λ _. k)
                    λ p _. store_account-Consistent w c u p _ k

  pub on_disconnect-Consistent :
      (w : World) (c : Conn) → Consistent w → Consistent (on_disconnect env w c)
  unfolding on_disconnect
  on_disconnect-Consistent w c k = go (w.username c) refl
    where
      go :
          (o : Option String)
          → w.username c ≡ o
          → Consistent (elim o [
            | none ↦ w
            | some u ↦
                announce env
                  (record w {
                    sessions = Registry.logout w.sessions u;
                    username = set_username w.username c none;
                  })
                  u
                  "OFFLINE"
          ])
      go none e = k
      go (some u) e =
          SameSessions-Consistent (Sends-SameSessions (announce-Sends env _ u "OFFLINE"))
            (release-Consistent w c u k e)
