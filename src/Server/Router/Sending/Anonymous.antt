-- ===== src/Server/Router/Sending/Anonymous.antt =====
-- MessageRouter.handle: what a connection can bring about before it has logged in.
use socket_to_ciphertext.Prelude.{
  String, ◌≡◌, ◌≢◌, refl, sym, ap, not, ◌||◌, Option, none, some, List, [], ◌∷◌, ◌++◌, Bool-cases,
  inl, inr, append-nil, All,
}
use socket_to_ciphertext.Prelude.Assoc.{Dict, get}
use socket_to_ciphertext.Wire.Value.{Value, or_null, truthy, text?}
use socket_to_ciphertext.Wire.Frame.{Frame, MessageType}
use socket_to_ciphertext.Server.Env.{Env}
use socket_to_ciphertext.Server.Registry.{Conn}
use socket_to_ciphertext.Server.Store.Users
use socket_to_ciphertext.Server.Router.World.{World, world, is_room, send, make, tick, post, refuse}
use socket_to_ciphertext.Server.Router.Accounts.{store_account, register}
use socket_to_ciphertext.Server.Router.Handle.{logged_in, by_type, handle}
use socket_to_ciphertext.Server.Router.Sessions.{world-if, world-option}

-- From `w` to `x` nothing changes but the accounts, and only `c` is sent anything.
pub record Confined (c : Conn) (w x : World) : Type 0 where
  pub sessions : x.sessions ≡ w.sessions
  pub username : x.username ≡ w.username
  pub rooms : x.rooms ≡ w.rooms
  pub messages : x.messages ≡ w.messages
  pub contacts : x.contacts ≡ w.contacts
  pub new : List (Conn × Frame)
  pub sent : x.sent ≡ w.sent ++ new
  pub all : All (λ e. e.0 ≡ c) new

module _ (env : Env) (w : World) (c : Conn) where
  Confined-refl : Confined c w w
  Confined-refl = record {
    sessions = refl;
    username = refl;
    rooms = refl;
    messages = refl;
    contacts = refl;
    new = [];
    sent = sym (append-nil w.sent);
    all = tt;
  }

  Confined-post :
      (x : World) (type : MessageType) (payload : Dict Value)
      → Confined c w x
      → x.sent ≡ w.sent
      → Confined c w (post env x c type none payload)
  unfolding post send
  Confined-post x type payload k e = record {
    sessions = k.sessions;
    username = k.username;
    rooms = k.rooms;
    messages = k.messages;
    contacts = k.contacts;
    new = (c, make env x.calls type none none payload) ∷ [];
    sent =
        ap (λ (l : List (Conn × Frame)). l ++ (c, make env x.calls type none none payload) ∷ []) e;
    all = (refl, tt);
  }

  Confined-refuse : (code message : String) → Confined c w (refuse env w c code message)
  unfolding refuse
  Confined-refuse code message = Confined-post w MessageType.error _ Confined-refl refl

  store_account-Confined :
      (u p : String) (key : Value) → Confined c w (world (store_account env w c u p key))
  unfolding store_account
  store_account-Confined u p key = elim (Bool-cases (Users.exists w.users u)) [
    | inl taken ↦ rw (taken, store_account) (Confined-refuse _ _)
    | inr free ↦
        rw (free, store_account)
          (world-option (Confined c w) (env.bind_text key) _ _ (λ _. Confined-refl)
            λ pubkey _.
              Confined-post
                (tick env (record w { users = (Users.register env w.calls w.users u p pubkey).0 }))
                MessageType.ok _
                (record {
                  sessions = refl;
                  username = refl;
                  rooms = refl;
                  messages = refl;
                  contacts = refl;
                  new = [];
                  sent = sym (append-nil w.sent);
                  all = tt;
                })
                refl)
  ]

  register-Confined : (frame : Frame) → Confined c w (world (register env w c frame))
  unfolding register
  register-Confined frame =
      let user : Value = or_null (get frame.payload "user") in
      let pass : Value = or_null (get frame.payload "pass_hash") in
      world-if (Confined c w) (not (truthy user) || not (truthy pass)) _ _
        (λ _. Confined-refuse _ _)
        λ _.
          world-option (Confined c w) (text? user) _ _ (λ _. Confined-refl)
            λ u _.
              world-if (Confined c w) (is_room u) _ _ (λ _. Confined-refuse _ _)
                λ _.
                  world-option (Confined c w) (text? pass) _ _ (λ _. Confined-refl)
                    λ p _. store_account-Confined u p _

  logged_in-Confined :
      (frame : Frame) (o : Option String)
      → o ≡ none
      → Confined c w (world (logged_in env w c frame o))
  logged_in-Confined frame none h = Confined-refuse _ _
  logged_in-Confined frame (some u) h = absurd (cc)

  by_type-Confined :
      (type : MessageType) (frame : Frame)
      → type ≢ MessageType.login
      → w.username c ≡ none
      → Confined c w (world (by_type env w c type frame))
  by_type-Confined MessageType.ping frame n h =
      Confined-post w MessageType.pong [] Confined-refl refl
  by_type-Confined MessageType.register frame n h = register-Confined frame
  by_type-Confined MessageType.login frame n h = absurd (n refl)
  by_type-Confined _ frame n h = logged_in-Confined frame (w.username c) h

  -- Before it has logged in, and whatever frame other than a LOGIN it sends, a connection changes
  -- nothing but the accounts, logs nobody in or out, and causes no frame to anybody but itself.
  pub handle-Confined :
      (frame : Frame)
      → w.username c ≡ none
      → frame.type ≢ MessageType.login
      → Confined c w (world (handle env w c frame))
  unfolding handle
  handle-Confined frame h n = by_type-Confined frame.type frame n h
