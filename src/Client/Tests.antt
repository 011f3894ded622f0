-- ===== src/Client/Tests.antt =====
-- The client's theorems at concrete inputs.
use socket_to_ciphertext.Prelude.{◌≡◌, ◌↔◌, refl, true, false, none, some, List, [], ◌∷◌, pos}
use socket_to_ciphertext.Client.State.{
  ConnectionState, Event, Machine, fresh, can_send, transition, is_closed, target, enter,
}
use socket_to_ciphertext.Client.State.Paths.{can_send_by_login, run, Told, run-Told}
use socket_to_ciphertext.Client.Backoff.{Backoff, reset, next_delay, after, next_delay-after}
use socket_to_ciphertext.Client.Conversation.{Message}
use socket_to_ciphertext.Client.Conversation.Unread.{Action, added, was_read, unread_since}
use socket_to_ciphertext.Client.Chat
use socket_to_ciphertext.Client.Chat.{move_forward}
use socket_to_ciphertext.Client.Chat.Receipts.{Forward, move_forward-Forward}
use socket_to_ciphertext.Client.Chat.Unread

abbrev authenticating : Machine
authenticating = record { state = ConnectionState.authenticating; seen = [] }

abbrev online : Machine
online = record { state = ConnectionState.online; seen = ConnectionState.online ∷ [] }

logged_in : transition authenticating Event.login_ok ≡ some online
unfolding transition target enter
logged_in = refl

cannot_yet : can_send authenticating ≡ false
unfolding can_send
cannot_yet = refl

can_now : can_send online ≡ true
unfolding can_send
can_now = refl

can_send_by_login_example :
    (authenticating.state ≡ ConnectionState.authenticating) × (Event.login_ok ≡ Event.login_ok)
can_send_by_login_example =
    can_send_by_login authenticating online Event.login_ok logged_in cannot_yet can_now

abbrev connecting : Machine
connecting = record {
  state = ConnectionState.retrying;
  seen = ConnectionState.connecting ∷ ConnectionState.retrying ∷ [];
}

tried : run fresh (Event.connect ∷ Event.socket_failed ∷ []) ≡ some connecting
unfolding run transition target enter
tried = refl

run-Told_example : Told ConnectionState.disconnected connecting.seen connecting.state
run-Told_example = run-Told (Event.connect ∷ Event.socket_failed ∷ []) connecting tried

still_open : is_closed online ≡ false
unfolding is_closed
still_open = refl

abbrev retrying : Machine
retrying = record { state = ConnectionState.retrying; seen = [] }

abbrev again : Machine
again = record { state = ConnectionState.connecting; seen = ConnectionState.connecting ∷ [] }

abbrev up : Machine
up = record {
  state = ConnectionState.authenticating;
  seen = ConnectionState.connecting ∷ ConnectionState.authenticating ∷ [];
}

first_step : transition retrying Event.backoff_expired ≡ some again
unfolding transition target enter
first_step = refl

second_step : transition again Event.socket_ready ≡ some up
unfolding transition target enter
second_step = refl

abbrev worn_out : Backoff
worn_out = record { attempts = 1024 }

next_delay-after_example : (next_delay (after 5 (reset worn_out))).0 ≡ some 30
next_delay-after_example = next_delay-after worn_out 5

abbrev hello : Message
hello = record {
  id = "1";
  sender = "bob";
  body = "hello";
  ts = pos 5;
  mine = false;
  state = "SENT";
}

abbrev day : List Action
day = added hello false ∷ was_read ∷ added hello false ∷ added hello true ∷ []

-- One of the two messages since the reading came while the chat was on screen.
day_count : unread_since 0 day ≡ 1
unfolding unread_since
day_count = refl

abbrev mine : Message
mine = record hello { mine = true; state = "DELIVERED" }

abbrev seen : Message
seen = record mine { state = "READ" }

is_moved :
    (move_forward (mine ∷ hello ∷ []) "1" "READ" ≡ some (seen ∷ hello ∷ []))
    × (move_forward (seen ∷ hello ∷ []) "1" "DELIVERED" ≡ none)
unfolding move_forward
is_moved = (refl, refl)

move_forward-Forward_example :
    (move_forward (mine ∷ hello ∷ []) "1" "READ" ≡ some (seen ∷ hello ∷ []))
    ↔ Forward "1" "READ" (mine ∷ hello ∷ []) (seen ∷ hello ∷ [])
move_forward-Forward_example =
    move_forward-Forward (mine ∷ hello ∷ []) (seen ∷ hello ∷ []) "1" "READ"

abbrev evening : List Unread.Action
evening =
    Unread.arrives "bob" hello
    ∷ Unread.selected (some "bob")
    ∷ Unread.arrives "bob" hello
    ∷ Unread.reported "bob" "1" "READ"
    ∷ []

act_all-Quiet_example : Unread.Quiet (Unread.act_all Chat.fresh evening)
act_all-Quiet_example =
    Unread.act_all-Quiet Chat.fresh evening (record { nothing_unread = λ k e. absurd (cc) })
