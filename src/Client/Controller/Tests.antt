-- ===== src/Client/Controller/Tests.antt =====
-- The theorems on the controller at concrete inputs, and some runs of it.
use socket_to_ciphertext.Prelude.{
  ◌≡◌, refl, true, false, none, some, List, [], ◌∷◌, All, pos, is_blank, strip,
}
use socket_to_ciphertext.Wire.Value.{str, int}
use socket_to_ciphertext.Wire.Frame.{Frame, MessageType}
use socket_to_ciphertext.Server.Tests.{test_env}
use socket_to_ciphertext.Crypto.Envelope.{public_b64}
use socket_to_ciphertext.Crypto.Keyring
use socket_to_ciphertext.Crypto.Toy.{toy, toy-IsLawful, alice, bob, alice-bob}
use socket_to_ciphertext.Crypto.Tests.{writer, reader, writer-Coherent, reader-Coherent}
use socket_to_ciphertext.Client.Chat
use socket_to_ciphertext.Client.Controller.{Outside, Controller}
use socket_to_ciphertext.Client.Controller.Gestures.{release}
use socket_to_ciphertext.Client.Controller.Frames.{Occasion, typed, selects, receives, respond_all}
use socket_to_ciphertext.Client.Controller.Guarded.{IsSealed}
use socket_to_ciphertext.Client.Controller.Guarded.Sealed.{respond_all-IsSealed}
use socket_to_ciphertext.Client.Controller.Released.Read.{Released, release-Released}

abbrev outside : Outside
outside = record { env = test_env; primitives = toy; takes = λ n. true }

abbrev started : Controller
started = record {
  model = record (Chat.fresh) { username = some "alice" };
  keyring = some (Keyring.fresh alice "alice");
  held = [];
  awaiting = [];
  pending_user = none;
  pending_room = none;
  sent = [];
  calls = 0;
}

abbrev key_of_bob : Frame
key_of_bob = record {
  type = MessageType.key;
  sender = none;
  to = none;
  body = none;
  nonce = none;
  payload = ("user", str "bob") ∷ ("pubkey", str (public_b64 toy bob)) ∷ [];
  id = "k";
  ts = pos 7;
  v = int (pos 1);
}

-- Two texts are held until the key comes.
abbrev chat : List Occasion
chat = selects "bob" ∷ typed "hello" ∷ typed "are you there" ∷ receives key_of_bob ∷ []

respond_all-IsSealed_example : All (IsSealed outside alice) (respond_all outside started chat).sent
respond_all-IsSealed_example = respond_all-IsSealed outside alice "alice" started chat refl refl

abbrev waits : Controller
waits = record started {
  keyring = some writer;
  held = ("bob", "hello" ∷ "are you there" ∷ []) ∷ [];
}

not_blank : (is_blank "hello" ≡ false) × (is_blank "are you there" ≡ false)
unfolding strip
not_blank = (refl, refl)

release-Released_example : Released outside "bob" "alice" waits reader (release outside "bob" waits)
release-Released_example =
    release-Released outside "bob" "alice" toy-IsLawful waits writer reader alice-bob refl refl
      writer-Coherent reader-Coherent refl refl refl (not_blank.0, (not_blank.1, tt)) (λ n. refl)
