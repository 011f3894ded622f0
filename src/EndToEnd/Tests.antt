-- ===== src/EndToEnd/Tests.antt =====
-- Alice writes to bob, at concrete inputs.
use socket_to_ciphertext.Prelude.{
  ℤ, pos, ◌≡◌, refl, ap, true, false, none, some, [], is_blank, strip,
}
use socket_to_ciphertext.Wire.Frame.{Frame}
use socket_to_ciphertext.Crypto.Envelope.{public_b64}
use socket_to_ciphertext.Crypto.Toy.{toy, toy-IsLawful, alice, bob, alice-bob}
use socket_to_ciphertext.Crypto.Tests.{writer, reader, writer-Coherent, reader-Coherent}
use socket_to_ciphertext.Server.Tests.{test_env, together}
use socket_to_ciphertext.Server.Store.Messages
use socket_to_ciphertext.Server.Store.Messages.{direct_conversation, record_message}
use socket_to_ciphertext.Server.Router.World.{World}
use socket_to_ciphertext.Server.Router.Delivery.{rebuilt, record_row, stored}
use socket_to_ciphertext.Client.Chat
use socket_to_ciphertext.Client.Controller.{Controller}
use socket_to_ciphertext.EndToEnd.{
  CanWrite, CanRead, Connected, Arrives, writing, reading, send-Arrives,
}

abbrev at_alice : Controller
at_alice = record {
  model = record (Chat.fresh) { username = some "alice"; active = some "bob" };
  keyring = some writer;
  held = [];
  awaiting = [];
  pending_user = none;
  pending_room = none;
  sent = [];
  calls = 0;
}

abbrev at_bob : Controller
at_bob = record at_alice {
  model = record (Chat.fresh) { username = some "bob" };
  keyring = some reader;
}

alice-CanWrite : CanWrite toy at_alice writer "alice" "bob" (public_b64 toy bob)
alice-CanWrite = record {
  present = refl;
  coherent = writer-Coherent;
  known = refl;
  here = refl;
  self = refl;
  nothing_held = refl;
}

bob-CanRead : CanRead toy at_bob reader "alice" (public_b64 toy alice)
bob-CanRead = record { present = refl; coherent = reader-Coherent; known = refl }

both-Connected : Connected together 7 8 "alice" "bob"
both-Connected = record { writes_as = refl; reached_at = refl }

row_fits :
    (f : Frame)
    → f.ts ≡ pos 1000
    → (x : World) × (record_row test_env together
          (rebuilt f "alice" "bob")
          (direct_conversation "alice" "bob")
          "bob"
          f.body
          f.nonce
        ≡ some x)
unfolding record_row record_message
row_fits f e = (
  _,
  ap
      (λ (ts : ℤ).
        stored
          (record_message Messages.empty f.id (direct_conversation "alice" "bob") "alice" "bob"
            f.body f.nonce ts)
          together)
      e,
)

hello_filled : is_blank "hello" ≡ false
unfolding strip
hello_filled = refl

-- Bob's connection refuses his receipt.
send-Arrives_example :
    Arrives test_env
      (writing toy toy-IsLawful test_env test_env test_env (λ n. true) (λ n. false))
      (reading toy toy-IsLawful test_env test_env test_env (λ n. true) (λ n. false))
      together
      7
      8
      "alice"
      "bob"
      "hello"
      at_alice
      at_bob
send-Arrives_example =
    send-Arrives toy toy-IsLawful test_env test_env test_env (λ n. true) (λ n. false) at_alice
      at_bob writer reader "alice" "bob" "hello" together 7 8 alice-bob alice-CanWrite bob-CanRead
      both-Connected (λ n. refl) row_fits hello_filled refl refl refl
