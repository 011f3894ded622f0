-- ===== src/Server/Tests/Stores.antt =====
-- The stores' theorems at concrete inputs.
use socket_to_ciphertext.Server.Store.Contacts
use socket_to_ciphertext.Prelude.{◌≡◌, ◌↔◌, ◌≤◌, refl, true, none, some, List, [], ◌∷◌, pos, length}
use socket_to_ciphertext.Server.Store.Users
use socket_to_ciphertext.Server.Store.Users.Passwords.{verify-register, register-keeps}
use socket_to_ciphertext.Server.Store.Rooms
use socket_to_ciphertext.Server.Store.Rooms.Operations.{Operation, run_memory, run_disk}
use socket_to_ciphertext.Server.Store.Rooms.Agreement.{Agree, run-Agree, empty-Agree}
use socket_to_ciphertext.Server.Store.Messages.{
  Messages, Row, delivered, find_row, mark, flush, history, in_conversation, clamp_limit,
}
use socket_to_ciphertext.Server.Store.Messages.Receipts.{Received, mark_monotone}
use socket_to_ciphertext.Server.Store.Messages.Pending.{flush_others}
use socket_to_ciphertext.Server.Store.Messages.Flushed.{Flushed, flush_once}
use socket_to_ciphertext.Server.Store.Messages.Pages.{IsPage, history-IsPage}
use socket_to_ciphertext.Server.Tests.{test_env, accounts}

verify-register_example :
    Users.verify test_env (Users.register test_env 9 accounts "carol" "new" none).0 "carol" "old"
      ≡ true
    ↔ test_env.scrypt "new" (9 ∷ []) ≡ test_env.scrypt "old" (9 ∷ [])
verify-register_example = verify-register test_env 9 accounts "carol" "new" "old" none refl

register-keeps_example :
    Users.verify test_env (Users.register test_env 9 accounts "alice" "new" none).0 "alice" "secret"
    ≡ Users.verify test_env accounts "alice" "secret"
register-keeps_example = register-keeps test_env 9 accounts "alice" "alice" "new" "secret" none refl

abbrev requests : List Operation
requests =
    Operation.create "#a" 1
    ∷ Operation.join "#a" "alice" 2
    ∷ Operation.join "#b" "alice" 3
    ∷ Operation.leave "#a" "alice"
    ∷ Operation.forget "bob"
    ∷ []

run-Agree_example : Agree (run_memory [] requests) (run_disk Rooms.empty requests)
run-Agree_example = run-Agree [] Rooms.empty requests empty-Agree

abbrev letter : Row
letter = record {
  id = "m1";
  conversation = "alice-bob";
  sender = "alice";
  recipient = "bob";
  body = some "hello";
  nonce = none;
  ts = pos 5;
  delivered_at = some 6;
  read_at = some 7;
}

abbrev kept : Messages
kept = record { rows = letter ∷ []; pending = ("m1", "bob") ∷ ("m1", "carol") ∷ [] }

mark_monotone_example :
    (new : Row) × (find_row (mark kept "m1" delivered 9).0.rows "m1" ≡ some new)
    × Received "m1" delivered 9 letter new
mark_monotone_example = mark_monotone kept "m1" "m1" delivered 9 letter refl

flush_once_example : Flushed kept "bob" (flush kept "bob").0 (flush (flush kept "bob").1 "bob").0
flush_once_example = flush_once kept "bob"

flush_others_example : (flush (flush kept "bob").1 "carol").0 ≡ (flush kept "carol").0
flush_others_example = flush_others kept "bob" "carol" (λ p. cc)

history-IsPage_example :
    (rows : List Row) × (history kept "alice-bob" (some (pos 9)) (pos 1000) ≡ some rows)
    × IsPage (clamp_limit (pos 1000)) (in_conversation "alice-bob" (some (pos 9))) kept.rows rows
    × (length rows ≤ 200)
history-IsPage_example = history-IsPage kept "alice-bob" (some (pos 9)) (pos 1000) refl

abbrev friends : Contacts.Contacts
friends = record { owner = "alice"; contact = "bob"; added_at = 5 } ∷ []
