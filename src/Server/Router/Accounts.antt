-- ===== src/Server/Router/Accounts.antt =====
-- im/server/router.py: accounts, presence and public keys.
use socket_to_ciphertext.Prelude.{
  String, Bool, true, false, not, ◌||◌, Option, none, some, List, [], ◌∷◌, map, ◌==◌, keep_if,
  concat, if◌then◌else◌,
}
use socket_to_ciphertext.Prelude.Assoc.{get}
use socket_to_ciphertext.Wire.Value.{Value, str, arr, of_items, or_null, truthy, text?}
use socket_to_ciphertext.Wire.Frame.{Frame, MessageType}
use socket_to_ciphertext.Server.Env.{Env, py_str}
use socket_to_ciphertext.Server.Registry
use socket_to_ciphertext.Server.Registry.{Conn}
use socket_to_ciphertext.Server.Store.Users
use socket_to_ciphertext.Server.Store.Rooms
use socket_to_ciphertext.Server.Router.World.{
  World, Outcome, done, abort, outside, is_room, room_prefix, set_username, send, make, tick, post,
  refuse,
}
use socket_to_ciphertext.Server.Router.Contacts.{contact_states}
use socket_to_ciphertext.Server.Router.Rows.{flush_pending}

-- A frame to each of some connections.
unfoldable pub send_all : World → List Conn → Frame → World
unfolding send
send_all w [] f = w
send_all w (c ∷ cs) f = send_all (send w c f) cs f

abbrev pub texts : List String → Value
texts names = arr (of_items (map str names))

module _ (env : Env) where
  -- Tell everyone else that a user arrived or left.
  unfoldable pub announce : World → String → String → World
  unfolding send_all Registry.others
  announce w username state = send_all (tick env w) (Registry.others w.sessions username) (
      make env w.calls MessageType.presence none none
        (("user", str username) ∷ ("state", str state) ∷ []))

  abbrev pub user_exists : World → Conn → String → World
  user_exists w c username = refuse env w c "USER_EXISTS" (concat (username ∷ " is taken" ∷ []))

  -- `self.users.register(…)`: the name is looked up before the key is bound to its column.
  unfoldable pub store_account : World → Conn → String → String → Value → Outcome
  unfolding Users.register post
  store_account w c username pass_hash key = elim (Users.exists w.users username) [
    | true ↦ done (user_exists w c username)
    | false ↦ elim (env.bind_text key) [
      | none ↦ abort w
      | some pubkey ↦
          let users = (Users.register env w.calls w.users username pass_hash pubkey).0 in
          done (
            post env (tick env (record w { users = users })) c MessageType.ok none
              (("user", str username) ∷ []))
    ]
  ]

  unfoldable pub register : World → Conn → Frame → Outcome
  unfolding refuse store_account
  register w c frame =
      let user = or_null (get frame.payload "user") in
      let pass = or_null (get frame.payload "pass_hash") in
      if not (truthy user) || not (truthy pass)
      then done (refuse env w c "BAD_REGISTER" "user and pass_hash are required")
      else elim (text? user) [
        | none ↦ abort w
        | some username ↦
            if is_room username
            then done (
                refuse env w c "BAD_USERNAME"
                  (concat ("a username may not start with " ∷ room_prefix ∷ [])))
            else elim (text? pass) [
              | none ↦ abort w
              | some pass_hash ↦
                  store_account w c username pass_hash (or_null (get frame.payload "pubkey"))
            ]
      ]

  -- The LOGIN_OK frame, sent once the session is registered under its name.
  unfoldable pub welcome : World → Conn → String → World
  unfolding post contact_states Registry.usernames Rooms.rooms_of
  welcome w c username = post env w c MessageType.login_ok (some username) (
      ("user", str username)
      ∷ ("roster", texts (keep_if (λ u. not (u == username)) (Registry.usernames w.sessions)))
      ∷ ("contacts", arr (of_items (contact_states w username)))
      ∷ ("rooms", texts (Rooms.rooms_of w.rooms username))
      ∷ [])

  -- What follows a correct password, by whether the name was free.
  unfoldable pub enter_with : World → Conn → String → Registry.SessionRegistry × Bool → Outcome
  unfolding refuse welcome announce flush_pending
  enter_with w c username (sessions, false) =
      done
        (refuse env w c "ALREADY_ONLINE" (concat (username ∷ " is connected from elsewhere" ∷ [])))
  enter_with w c username (sessions, true) =
      let here : World = record w {
        sessions = sessions;
        username = set_username w.username c (some username);
      } in
      flush_pending env (announce (welcome here c username) username "ONLINE") c username

  unfoldable pub enter : World → Conn → String → Outcome
  unfolding enter_with
  enter w c username = enter_with w c username (Registry.login w.sessions username c)

  unfoldable pub check_password : World → Conn → String → String → Outcome
  unfolding Users.verify refuse enter
  check_password w c username pass_hash =
      if Users.verify env w.users username pass_hash
      then enter w c username
      else done (refuse env w c "BAD_CREDENTIALS" "unknown user or wrong password")

  -- Whether the password opens the account whose name sqlite finds equal to what was bound.
  abbrev pub opens : World → Option String → String → Bool
  opens w none pass_hash = false
  opens w (some username) pass_hash = Users.verify env w.users username pass_hash

  -- A `user` that is not a text: bound to the TEXT column it is compared as a text, and where the
  -- password is right the login goes on under the value itself.
  unfoldable pub login_as_value : World → Conn → Value → Value → Outcome
  unfolding Users.verify refuse
  login_as_value w c user pass = elim (env.bind_text user) [
    | none ↦ abort w
    | some bound ↦ elim (text? pass) [
      | none ↦ abort w
      | some pass_hash ↦
          if opens w bound pass_hash
          then outside w
          else done (refuse env w c "BAD_CREDENTIALS" "unknown user or wrong password")
    ]
  ]

  unfoldable pub login : World → Conn → Frame → Outcome
  unfolding refuse check_password login_as_value
  login w c frame = elim (w.username c) [
    | some me ↦
        done (refuse env w c "ALREADY_LOGGED_IN" (concat ("this connection is already " ∷ me ∷ [])))
    | none ↦
        let user = or_null (get frame.payload "user") in
        let pass = or_null (get frame.payload "pass_hash") in
        if not (truthy user) || not (truthy pass)
        then done (refuse env w c "BAD_LOGIN" "user and pass_hash are required")
        else elim (text? user) [
          | none ↦ login_as_value w c user pass
          | some username ↦ elim (text? pass) [
            | none ↦ abort w
            | some pass_hash ↦ check_password w c username pass_hash
          ]
        ]
  ]

  unfoldable pub on_disconnect : World → Conn → World
  unfolding announce
  on_disconnect w c = elim (w.username c) [
    | none ↦ w
    | some username ↦
        announce
          (record w {
            sessions = Registry.logout w.sessions username;
            username = set_username w.username c none;
          })
          username "OFFLINE"
  ]

  abbrev pub key_reply : World → Conn → String → Option String → World
  key_reply w c user none =
      refuse env w c "NO_KEY" (concat ("no public key is published for " ∷ user ∷ []))
  key_reply w c user (some pubkey) =
      post env w c MessageType.key none (("user", str user) ∷ ("pubkey", str pubkey) ∷ [])

  unfoldable pub get_key : World → Conn → Frame → World
  unfolding refuse post Users.pubkey
  get_key w c frame =
      let user = or_null (get frame.payload "user") in
      if not (truthy user)
      then refuse env w c "NO_RECIPIENT" "GET_KEY needs a user"
      else key_reply w c (py_str env user) (Users.pubkey w.users (py_str env user))
