-- ===== src/Client/Controller/Released.antt =====
-- ChatController: what waits for a key is sent when the key is there.
pub mod Read
use socket_to_ciphertext.Prelude.{
  ℕ, ℤ, pos, suc, String, ◌≡◌, refl, sym, ap, subst, ◌∙◌, Bool, true, false, Option, none, some,
  List, [], ◌∷◌, ◌++◌, ◌==◌, All, is_blank, append_assoc, append-nil, arith, eq_refl, if◌then◌else◌,
  map,
}
use socket_to_ciphertext.Prelude.Assoc.{Dict, get, pop, get-pop}
use socket_to_ciphertext.Wire.Frame.{Frame, MessageType}
use socket_to_ciphertext.Crypto.Primitives.{Bytes, IsLawful, Agree}
use socket_to_ciphertext.Crypto.Envelope.{
  public_b64, derive_key, key_for, seal, plain, key_for-Agree,
}
use socket_to_ciphertext.Crypto.Keyring.{
  Keyring, Sealed, sealed, no_key, sealing_failed, seal_for, open_from,
}
use socket_to_ciphertext.Crypto.Keyring.Cache.{Coherent, Kept}
use socket_to_ciphertext.Crypto.Keyring.Uses.{seal_for-Kept}
use socket_to_ciphertext.Crypto.Keyring.Delivery.{key-held, seal_for-held, open_from-shared}
use socket_to_ciphertext.Client.Conversation.{Message}
use socket_to_ciphertext.Client.Chat
use socket_to_ciphertext.Client.Requests
use socket_to_ciphertext.Client.Controller.{
  Outside, Controller, Action, continue, ◌>>=◌, ◌>>◌, return, skip, each, update, submit,
}
use socket_to_ciphertext.Client.Controller.Gestures.{
  is_room, listed, or_else, with_keyring, is_empty, own_message, shown, send_to_room, person_sealed,
  send_to_person, send_by, send_on, send, put_back, send_all, release,
}

-- A message of one's own leaves who one is, and which conversation is on screen.
add_message-active :
    (m : Chat.ChatModel) (key : String) (x : Message)
    → x.mine ≡ true
    → (Chat.add_message m key x).active ≡ m.active
unfolding Chat.add_message
add_message-active m key x mine = ground arith

add_message-username :
    (m : Chat.ChatModel) (key : String) (x : Message)
    → x.mine ≡ true
    → (Chat.add_message m key x).username ≡ m.username
unfolding Chat.add_message
add_message-username m key x mine = ground arith

-- The frame carries the text, sealed under the key, to the person.
abbrev pub Carries : Outside → Bytes → String → String → String → Frame → Type 0
Carries o k user me text f =
    (call : ℕ) × (f.type ≡ MessageType.msg)
    × (f.to ≡ some user)
    × (f.body ≡ some (seal o.primitives call k text me).0)
    × (f.nonce ≡ some (seal o.primitives call k text me).1)

-- One frame for each text, in order.
abbrev pub CarriesAll : Outside → Bytes → String → String → List String → List Frame → Type 0
CarriesAll o k user me [] [] = Unit {0}
CarriesAll o k user me (t ∷ ts) (f ∷ fs) = Carries o k user me t f × CarriesAll o k user me ts fs
CarriesAll o k user me ts fs = ⊥

module _ (o : Outside) (i : Bytes) (user pk me : String) (k : Bytes) where
  -- The client is about to send to the person, whose key it holds.
  pub record Ready (d : Controller) : Type 0 where
    pub ring : Keyring
    pub present : d.keyring ≡ some ring
    pub coherent : Coherent o.primitives ring
    pub own : ring.identity ≡ i
    pub known : get ring.pubkeys user ≡ some pk
    pub here : d.model.active ≡ some user
    pub self : or_else d.model.username "me" ≡ me
    pub released : get d.held user ≡ none

  pub record Sent (d : Controller) (text : String) (x : Controller × Option (Option Message))
      : Type 0 where
    pub answer : Option Message
    pub returned : x.1 ≡ some answer
    pub ready : Ready x.0
    pub frame : Frame
    pub carries : Carries o k user me text frame
    pub grew : x.0.sent ≡ d.sent ++ frame ∷ []
    pub stamped : frame.ts ≡ pos (o.env.now_ms d.calls)

  module _ (takes : (n : ℕ) → o.takes n ≡ true) (made : key_for o.primitives i pk ≡ some k) where
    submit-taken :
        (make : String → ℤ → Frame) (c : Controller)
        → submit o make c ≡ (
          record c {
            sent = c.sent ++ make (o.env.new_id c.calls) (pos (o.env.now_ms c.calls)) ∷ [];
            calls = suc c.calls;
          },
          some (make (o.env.new_id c.calls) (pos (o.env.now_ms c.calls))),
        )
    unfolding submit
    submit-taken make c = rw (submit, takes c.calls) refl

    -- A sealed text goes out, and is shown.
    person_sealed-Sent :
        (d : Controller) (text : String) (x : Keyring × Sealed) (call : ℕ)
        → Ready d
        → Coherent o.primitives x.0
        → x.0.identity ≡ i
        → get x.0.pubkeys user ≡ some pk
        → x.1 ≡ sealed (seal o.primitives call k text me).0 (seal o.primitives call k text me).1
        → Sent d text ((person_sealed o user text x >>= shown o user me text) d)
    unfolding Requests.message
    person_sealed-Sent d text (r, no_key) call h coherent own known e = absurd (cc)
    person_sealed-Sent d text (r, sealing_failed) call h coherent own known e = absurd (cc)
    person_sealed-Sent d text (r, sealed b n) call h coherent own known e =
        subst
          (λ (x : Controller × Option Frame).
            Sent d text (continue (continue x (λ f. return (some f))) (shown o user me text)))
          (sym (submit-taken (Requests.message user b (some n) []) (with_keyring d r)))
          (record {
            answer = some (own_message o me text f);
            returned = refl;
            ready = record {
              ring = r;
              present = refl;
              coherent = coherent;
              own = own;
              known = known;
              here = add_message-active d.model user (own_message o me text f) refl ∙ h.here;
              self =
                  ap (λ (u : Option String). or_else u "me")
                    (add_message-username d.model user (own_message o me text f) refl)
                  ∙ h.self;
              released = h.released;
            };
            frame = f;
            carries = (call, refl, refl, body, nonce);
            grew = refl;
            stamped = refl;
          })
      where
        f : Frame
        f = Requests.message user b (some n) [] (o.env.new_id d.calls) (pos (o.env.now_ms d.calls))

        body : some b ≡ some (seal o.primitives call k text me).0
        body = cc

        nonce : some n ≡ some (seal o.primitives call k text me).1
        nonce = cc

    module _ (person : is_room user ≡ false) where
      pub send-Sent :
          (d : Controller) (text : String)
          → Ready d
          → is_blank text ≡ false
          → Sent d text (send o text d)
      unfolding send send_to_person
      send-Sent d text h shows =
          subst (Sent d text) (sym (on_screen ∙ not_blank ∙ with_ring ∙ to_person ∙ as_me)) sent
        where
          ring : Keyring
          ring = h.ring

          x : Keyring × Sealed
          x = seal_for o.primitives ring user text me

          kept : Kept o.primitives ring x.0
          kept = seal_for-Kept o.primitives ring user text me

          sealed_by :
              (call : ℕ) × (x.1
                ≡ sealed (seal o.primitives call k text me).0 (seal o.primitives call k text me).1)
          sealed_by = seal_for-held o.primitives ring user text me k (
              key-held o.primitives ring user pk k h.coherent h.known
                (ap (λ (j : Bytes). key_for o.primitives j pk) h.own ∙ made))

          sent : Sent d text ((person_sealed o user text x >>= shown o user me text) d)
          sent =
              person_sealed-Sent d text x sealed_by.0 h (kept.coherent h.coherent)
                (kept.identity ∙ h.own) (kept.holds user pk h.known) sealed_by.1

          name : String
          name = or_else d.model.username "me"

          goes : Option Keyring → Controller × Option (Option Message)
          goes r = (send_by o r user text name >>= shown o user name text) d

          on_screen : send o text d ≡ send_on o (some user) text d
          on_screen = ap (λ (a : Option String). send_on o a text d) h.here

          not_blank : send_on o (some user) text d ≡ goes d.keyring
          not_blank = ap (λ b. if b then (d, some none) else goes d.keyring) shows

          with_ring : goes d.keyring ≡ goes (some ring)
          with_ring = ap goes h.present

          to_person :
              goes (some ring) ≡ (send_to_person o ring user text name >>= shown o user name text) d
          to_person =
              ap
                (λ b.
                  ((if◌then◌else◌ {A = Action (Option Frame)} b (send_to_room o ring user text name)
                        (send_to_person o ring user text name))
                      >>= shown o user name text)
                    d)
                person

          as_me :
              (send_to_person o ring user text name >>= shown o user name text) d
              ≡ (person_sealed o user text x >>= shown o user me text) d
          as_me =
              ap (λ (n : String). (send_to_person o ring user text n >>= shown o user n text) d)
                h.self

      -- All texts went out, in order.
      pub record SentAll (d : Controller) (texts : List String) (x : Controller × Option (Unit {0}))
          : Type 0 where
        pub returned : x.1 ≡ some tt
        pub ready : Ready x.0
        pub frames : List Frame
        pub carries : CarriesAll o k user me texts frames
        pub grew : x.0.sent ≡ d.sent ++ frames

      pub send_all-SentAll :
          (d : Controller) (texts : List String)
          → Ready d
          → All (λ (t : String). is_blank t ≡ false) texts
          → SentAll d texts (send_all o texts d)
      send_all-SentAll d [] h shows = record {
        returned = refl;
        ready = h;
        frames = [];
        carries = tt;
        grew = sym (append-nil d.sent);
      }
      send_all-SentAll d (t ∷ ts) h shows =
          after (send o t d) (send-Sent d t h shows.0) (λ e r. send_all-SentAll e ts r shows.1)
        where
          after :
              (x : Controller × Option (Option Message))
              → Sent d t x
              → ((e : Controller) → Ready e → SentAll e ts (send_all o ts e))
              → SentAll d (t ∷ ts) (continue (continue x (λ m. skip)) (λ u. send_all o ts))
          after (e, none) s rest = absurd (let q = s.returned in cc)
          after (e, some m) s rest =
              let r = rest e s.ready in
              record {
                returned = r.returned;
                ready = r.ready;
                frames = s.frame ∷ r.frames;
                carries = (s.carries, r.carries);
                grew =
                    r.grew
                    ∙ ap (λ (l : List Frame). l ++ r.frames) s.grew
                    ∙ append_assoc d.sent (s.frame ∷ []) r.frames;
              }
