-- ===== src/Client/Controller/Released/Read.antt =====
-- ChatController: what was held reaches the person it was typed for.
use socket_to_ciphertext.Prelude.{
  ℕ, String, ◌≡◌, refl, sym, ap, subst, ◌∙◌, Bool, true, false, Option, none, some, List, [], ◌∷◌,
  ◌++◌, All, is_blank, append-nil, eq_refl, if◌then◌else◌,
}
use socket_to_ciphertext.Prelude.Assoc.{get, pop, get-pop}
use socket_to_ciphertext.Wire.Frame.{Frame, MessageType}
use socket_to_ciphertext.Crypto.Primitives.{Bytes, IsLawful, Agree}
use socket_to_ciphertext.Crypto.Envelope.{
  public_b64, derive_key, key_for, seal, plain, key_for-Agree,
}
use socket_to_ciphertext.Crypto.Keyring.{Keyring, open_from}
use socket_to_ciphertext.Crypto.Keyring.Cache.{Coherent}
use socket_to_ciphertext.Crypto.Keyring.Delivery.{open_from-shared}
use socket_to_ciphertext.Client.Controller.{Outside, Controller}
use socket_to_ciphertext.Client.Controller.Gestures.{
  is_room, listed, or_else, is_empty, put_back, send_all, release,
}
use socket_to_ciphertext.Client.Controller.Released.{CarriesAll, Ready, SentAll, send_all-SentAll}

-- The frame is a message to the person, and the reader opens it and reads the text.
abbrev pub Opens : Outside → Keyring → String → String → String → Frame → Type 0
Opens o reader user me text f =
    (body : String) × (nonce : String) × (f.type ≡ MessageType.msg)
    × (f.to ≡ some user)
    × (f.body ≡ some body)
    × (f.nonce ≡ some nonce)
    × ((open_from o.primitives reader me body nonce me).1 ≡ plain text)

-- One frame for each text, in order.
abbrev pub OpensAll : Outside → Keyring → String → String → List String → List Frame → Type 0
OpensAll o reader user me [] [] = Unit {0}
OpensAll o reader user me (t ∷ ts) (f ∷ fs) =
    Opens o reader user me t f × OpensAll o reader user me ts fs
OpensAll o reader user me ts fs = ⊥

module _ (o : Outside) (user me : String) where
  carried-OpensAll :
      (reader : Keyring) (k : Bytes) (texts : List String) (fs : List Frame)
      → ((call : ℕ) (text : String)
          → (let (b, n) = seal o.primitives call k text me in
              (open_from o.primitives reader me b n me).1)
            ≡ plain text)
      → CarriesAll o k user me texts fs
      → OpensAll o reader user me texts fs
  carried-OpensAll reader k [] [] opens h = tt
  carried-OpensAll reader k [] (f ∷ fs) opens h = h
  carried-OpensAll reader k (t ∷ ts) [] opens h = h
  carried-OpensAll reader k (t ∷ ts) (f ∷ fs) opens ((call, type, to, body, nonce), rest) =
      ((_, _, type, to, body, nonce, opens call t), carried-OpensAll reader k ts fs opens rest)

  -- The texts that wait for a person, in the order they were typed.
  abbrev pub waiting : Controller → List String
  waiting c = listed (get c.held user)

  -- The state in which a release ends.
  pub record Released (c : Controller) (reader : Keyring) (x : Controller × Option (Unit {0}))
      : Type 0 where
    pub returned : x.1 ≡ some tt
    pub nothing_held : get x.0.held user ≡ none
    pub same_screen : x.0.model.active ≡ c.model.active
    pub frames : List Frame
    pub opened : OpensAll o reader user me (waiting c) frames
    pub grew : x.0.sent ≡ c.sent ++ frames

  -- A client that holds a friend's public key, while the connection takes every frame: `_release`
  -- returns, holds nothing more for the friend, leaves the conversation on screen as it was, and has
  -- sent one message for each text that waited, in the order they were typed, each of which the friend,
  -- who holds this client's public key, opens and reads as it was typed; both caches are coherent, the
  -- waiting texts are not blank, and the primitives keep their promises.
  pub release-Released :
      (law : IsLawful o.primitives)
      → (c : Controller) (r reader : Keyring) → Agree o.primitives r.identity reader.identity
      → c.keyring ≡ some r
      → or_else c.model.username "me" ≡ me
      → Coherent o.primitives r
      → Coherent o.primitives reader
      → get r.pubkeys user ≡ some (public_b64 o.primitives reader.identity)
      → get reader.pubkeys me ≡ some (public_b64 o.primitives r.identity)
      → is_room user ≡ false
      → All (λ (t : String). is_blank t ≡ false) (waiting c)
      → ((n : ℕ) → o.takes n ≡ true)
      → Released c reader (release o user c)
  unfolding release
  release-Released law c r reader s present self cw cr known_w known_r person shown takes =
      by_waiting (is_empty (waiting c)) refl
    where
      k : Bytes
      k = derive_key o.primitives s.secret

      pk : String
      pk = public_b64 o.primitives reader.identity

      rest : Controller
      rest = record c { held = pop c.held user }

      on : Controller
      on = record rest { model = record (rest.model) { active = some user } }

      gone : get (pop c.held user) user ≡ none
      gone = get-pop c.held user user ∙ ap (λ b. if b then none else get c.held user) (eq_refl user)

      ready : Ready o r.identity user pk me k on
      ready = record {
        ring = r;
        present = present;
        coherent = cw;
        own = refl;
        known = known_w;
        here = refl;
        self = self;
        released = gone;
      }

      made : key_for o.primitives r.identity pk ≡ some k
      made = (key_for-Agree o.primitives law r.identity reader.identity s).0

      all :
          SentAll o r.identity user pk me k takes made person on
            (waiting c)
            (send_all o (waiting c) on)
      all = send_all-SentAll o r.identity user pk me k takes made person on (waiting c) ready shown

      opens :
          (fs : List Frame)
          → CarriesAll o k user me (waiting c) fs
          → OpensAll o reader user me (waiting c) fs
      opens fs = carried-OpensAll reader k (waiting c) fs (λ call text.
          open_from-shared o.primitives law reader r.identity me s call text cr known_r)

      back :
          (x : Controller × Option (Unit {0}))
          → SentAll o r.identity user pk me k takes made person on (waiting c) x
          → Released c reader (put_back o c.model.active x)
      back (d, answer) a = record {
        returned = a.returned;
        nothing_held = a.ready.released;
        same_screen = refl;
        frames = a.frames;
        opened = opens a.frames a.carries;
        grew = a.grew;
      }

      none_waiting : (l : List String) → is_empty l ≡ true → [] ≡ l
      none_waiting [] e = refl
      none_waiting (x ∷ l) e = absurd (cc)

      by_waiting :
          (b : Bool)
          → is_empty (waiting c) ≡ b
          → Released c reader (
              if◌then◌else◌ {A = Controller × Option (Unit {0})} b
                (rest, some tt)
                (put_back o c.model.active (send_all o (waiting c) on)))
      by_waiting true e = record {
        returned = refl;
        nothing_held = gone;
        same_screen = refl;
        frames = [];
        opened =
            subst (λ (l : List String). OpensAll o reader user me l []) (none_waiting (waiting c) e)
              tt;
        grew = sym (append-nil c.sent);
      }
      by_waiting false e = back (send_all o (waiting c) on) all
