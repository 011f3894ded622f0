-- ===== src/Server/Tests/Sessions.antt =====
-- The router's theorems at concrete inputs.
use socket_to_ciphertext.Prelude.{
  false, ◌≡◌, pos, ◌⊎◌, refl, true, none, some, Option, List, [], ◌∷◌, contains,
}
use socket_to_ciphertext.Wire.Frame.{Frame}
use socket_to_ciphertext.Server.Registry
use socket_to_ciphertext.Server.Store.Rooms
use socket_to_ciphertext.Server.Router.World.{World, world, outside}
use socket_to_ciphertext.Server.Router.Delivery.{to_room, taken, Taken, rebuilt}
use socket_to_ciphertext.Server.Router.Handle.{Event, arrives, closes, handle, step, run}
use socket_to_ciphertext.Server.Router.Sending.{Sends}
use socket_to_ciphertext.Server.Router.Sending.Handled.{Served, step-Attributed}
use socket_to_ciphertext.Server.Router.Sending.Anonymous.{Confined, handle-Confined}
use socket_to_ciphertext.Server.Router.Sending.Copies.{Copy, to_room_members}
use socket_to_ciphertext.Server.Router.Sessions.{Consistent}
use socket_to_ciphertext.Server.Router.Sessions.Run.{start_Consistent, run-Consistent}
use socket_to_ciphertext.Server.Router.Sessions.Passwords.{Proven, step_names}
use socket_to_ciphertext.Server.Tests.{test_env, start, together, login_frame, forged}
use socket_to_ciphertext.Prelude.Assoc.{Dict}
use socket_to_ciphertext.Wire.Value.{Value, int, str, arr, nil, cons}
use socket_to_ciphertext.Wire.Frame.{MessageType}
use socket_to_ciphertext.Server.Store.Users
use socket_to_ciphertext.Server.Router.World.{is_room}
use socket_to_ciphertext.Server.Router.Membership.{invite}
use socket_to_ciphertext.Server.Router.Membership.Invited.{invite_members}

-- The world that there is, or the one before.
abbrev or_before : World → Option World → World
or_before w none = w
or_before w (some x) = x

-- Connection 7 logs in with the right password.
abbrev logged_in : World
logged_in = or_before start (step test_env start (arrives 7 login_frame))

is_logged_in : step test_env start (arrives 7 login_frame) ≡ some logged_in
unfolding step Registry.login
is_logged_in = refl

alice_here : logged_in.username 7 ≡ some "alice"
unfolding step Registry.login
alice_here = refl

step_names_example :
    (start.username 7 ≡ some "alice")
    ⊎ ((frame : Frame) × (arrives 7 login_frame ≡ arrives 7 frame)
        × Proven test_env start frame "alice")
step_names_example =
    step_names test_env start logged_in (arrives 7 login_frame) 7 "alice" is_logged_in alice_here

-- The third frame is refused by `int`, which ends the connection.
abbrev scroll : Frame
scroll = record login_frame {
  type = MessageType.history;
  payload = ("room", str "bob") ∷ ("before", str "x") ∷ [];
}

abbrev visit : List Event
visit =
    arrives 7 login_frame
    ∷ arrives 7 forged
    ∷ arrives 7 scroll
    ∷ arrives 8 login_frame
    ∷ closes 8
    ∷ []

abbrev after_visit : World
after_visit = or_before start (run test_env start visit)

is_visited : run test_env start visit ≡ some after_visit
unfolding run step Registry.login
is_visited = refl

run-Consistent_example : Consistent after_visit
run-Consistent_example =
    run-Consistent test_env start after_visit visit is_visited
      (start_Consistent start refl (λ c. refl))

-- An account whose name is a number, and a login that gives the number itself.
abbrev numbered : World
numbered = record start {
  users =
      (
        "5",
        record {
          salt = 3 ∷ [];
          digest = test_env.scrypt "secret" (3 ∷ []);
          pubkey = none;
          created_at = 1;
        },
      )
      ∷ [];
}

abbrev by_number : Frame
by_number = record login_frame {
  payload = ("user", int (pos 5)) ∷ ("pass_hash", str "secret") ∷ [];
}

is_outside : handle test_env numbered 7 by_number ≡ outside numbered
unfolding handle
is_outside = refl

-- A HISTORY frame that raises: alice is logged out.
abbrev after_scroll : World
after_scroll = or_before together (step test_env together (arrives 7 scroll))

is_scrolled : step test_env together (arrives 7 scroll) ≡ some after_scroll
unfolding step
is_scrolled = refl

now_out : after_scroll.username 7 ≡ none
unfolding step
now_out = refl

step-Attributed_example : Served "alice" 7 together after_scroll
step-Attributed_example =
    step-Attributed test_env "alice" together after_scroll 7 scroll refl (λ p. cc) is_scrolled

handle-Confined_example : Confined 7 start (world (handle test_env start 7 forged))
handle-Confined_example = handle-Confined test_env start 7 forged refl (λ p. cc)

abbrev taken_world : World → Taken → World
taken_world w (taken x) = x
taken_world w t = w

abbrev envelopes : Dict Value
envelopes =
    ("alice", arr (cons (str "for alice") (cons (str "n1") nil)))
    ∷ ("bob", arr (cons (str "for bob") (cons (str "n2") nil)))
    ∷ []

abbrev delivered : World
delivered =
    taken_world together (
      to_room test_env together 7 "alice" "#team" (rebuilt forged "alice" "#team") (some envelopes))

is_taken :
    to_room test_env together 7 "alice" "#team" (rebuilt forged "alice" "#team") (some envelopes)
    ≡ taken delivered
unfolding to_room
is_taken = refl

to_room_members_example :
    (Rooms.exists together.rooms "#team" ≡ true)
    × (contains (Rooms.members together.rooms "#team") "alice" ≡ true)
    × Sends
        (Copy test_env together "alice"
          (Rooms.members together.rooms "#team")
          (rebuilt forged "alice" "#team")
          (some envelopes))
        together
        delivered
to_room_members_example =
    to_room_members test_env together delivered 7 "alice" "#team" (rebuilt forged "alice" "#team")
      (some envelopes) is_taken

-- Alice is in the room alone, and invites bob.
abbrev alone : World
alone = record together {
  rooms = record { rooms = ("#team", 1) ∷ []; memberships = ("#team", "alice") ∷ [] };
}

abbrev invitation : Frame
invitation = record login_frame {
  type = MessageType.invite;
  payload = ("room", str "#team") ∷ ("members", arr (cons (str "bob") nil)) ∷ [];
}

bob_invited :
    Rooms.is_member (invite test_env alone 7 "alice" invitation).rooms "#team" "bob" ≡ true
unfolding invite
bob_invited = refl

invite_members_example :
    (Rooms.is_member alone.rooms "#team" "bob" ≡ true)
    ⊎ ((contains (Rooms.members alone.rooms "#team") "alice" ≡ true)
        × (Users.exists alone.users "bob" ≡ true)
        × (is_room "bob" ≡ false))
invite_members_example =
    invite_members test_env alone 7 "alice" "#team" "bob" invitation bob_invited
