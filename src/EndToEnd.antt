-- ===== src/EndToEnd.antt =====
-- The client's controller, the server's router and another client's controller, one after the other.
pub mod Tests
use socket_to_ciphertext.Prelude.{
  ℕ, ℤ, pos, String, ◌≡◌, refl, sym, ap, subst, ◌∙◌, Bool, true, false, Option, none, some, List,
  [], ◌∷◌, ◌++◌, ◌==◌, is_blank, if◌then◌else◌,
}
use socket_to_ciphertext.Prelude.Assoc.{get}
use socket_to_ciphertext.Wire.Frame.{Frame, MessageType}
use socket_to_ciphertext.Crypto.Primitives.{Bytes, Primitives, IsLawful, Agree}
use socket_to_ciphertext.Crypto.Envelope.{public_b64, derive_key, key_for, seal, key_for-Agree}
use socket_to_ciphertext.Crypto.Keyring.{Keyring}
use socket_to_ciphertext.Crypto.Keyring.Cache.{Coherent}
use socket_to_ciphertext.Crypto.Keyring.Delivery.{open_from-shared}
use socket_to_ciphertext.Server.Env.{Env}
use socket_to_ciphertext.Server.Registry.{Conn}
use socket_to_ciphertext.Server.Store.Messages.{direct_conversation}
use socket_to_ciphertext.Server.Router.World.{World}
use socket_to_ciphertext.Server.Router.Delivery.{rebuilt, record_row}
use socket_to_ciphertext.Server.Router.Handle.{handle}
use socket_to_ciphertext.Server.Router.Sending.Relayed.{Hands, handle-Hands}
use socket_to_ciphertext.Client.Controller.{Outside, Controller}
use socket_to_ciphertext.Client.Controller.Gestures.{is_room, or_else, send}
use socket_to_ciphertext.Client.Controller.Inbound.{text_or, incoming_message}
use socket_to_ciphertext.Client.Controller.Frames.{on_frame}
use socket_to_ciphertext.Client.Controller.Released.{Carries, Ready, Sent, send-Sent}
use socket_to_ciphertext.Client.Controller.Shown.{Shows, incoming_message-Shows}

-- A client that can write to a friend: its keyring is `ring`, the friend's conversation is on screen,
-- and nothing waits for the friend's key.
pub record CanWrite (p : Primitives) (c : Controller) (ring : Keyring) (me friend pk : String)
    : Type 0 where
  pub present : c.keyring ≡ some ring
  pub coherent : Coherent p ring
  pub known : get ring.pubkeys friend ≡ some pk
  pub here : c.model.active ≡ some friend
  pub self : or_else c.model.username "me" ≡ me
  pub nothing_held : get c.held friend ≡ none

-- A client that can read what an author writes to it.
pub record CanRead (p : Primitives) (c : Controller) (ring : Keyring) (author pk : String)
    : Type 0 where
  pub present : c.keyring ≡ some ring
  pub coherent : Coherent p ring
  pub known : get ring.pubkeys author ≡ some pk

-- Both are logged in, each on its connection.
pub record Connected (w : World) (c d : Conn) (me friend : String) : Type 0 where
  pub writes_as : w.username c ≡ some me
  pub reached_at : get w.sessions friend ≡ some d

-- What was typed has arrived.
pub record Arrives (server : Env) (o q : Outside) (w : World) (c d : Conn) (me friend text : String)
    (writer reader : Controller) : Type 0 where
  pub frame : Frame
  pub grew : (send o text writer).0.sent ≡ writer.sent ++ frame ∷ []
  pub relayed : Hands d (rebuilt frame me friend) (handle server w c frame)
  pub shown : Shows q reader me text (on_frame q (rebuilt frame me friend) reader)

module _ (p : Primitives) (law : IsLawful p) (server left right : Env)
    (taken later : ℕ → Bool) where
  -- The two clients, over the same primitives.
  abbrev writing : Outside
  writing = record { env = left; primitives = p; takes = taken }

  abbrev reading : Outside
  reading = record { env = right; primitives = p; takes = later }

  -- What one user types to another arrives as it was typed. The friend's conversation is on screen and
  -- nothing waits for the friend's key; the writer's connection takes frames, both are logged in, each
  -- holds the other's public key, both caches are coherent, the primitives keep their promises, the two
  -- key pairs agree, the store takes the row, the text is not blank, and the names are not empty and
  -- the friend no room. Then the writer's controller sends one frame, the router returns and has handed
  -- the reader's connection that message with the writer's own name, and the reader's controller, given
  -- it, adds to the conversation with the writer one message whose body is the text, whether or not the
  -- reader's connection takes the receipt.
  pub send-Arrives :
      (writer reader : Controller) (ring other : Keyring) (me friend text : String) (w : World)
      (c d : Conn)
      → Agree p ring.identity other.identity
      → CanWrite p writer ring me friend (public_b64 p other.identity)
      → CanRead p reader other me (public_b64 p ring.identity)
      → Connected w c d me friend
      → ((n : ℕ) → taken n ≡ true)
      → ((f : Frame)
          → f.ts ≡ pos (left.now_ms writer.calls)
          → (x : World) × (record_row server w
                (rebuilt f me friend)
                (direct_conversation me friend)
                friend
                f.body
                f.nonce
              ≡ some x))
      → is_blank text ≡ false
      → (me == "") ≡ false
      → (friend == "") ≡ false
      → is_room friend ≡ false
      → Arrives server writing reading w c d me friend text writer reader
  unfolding on_frame
  send-Arrives writer reader ring other me friend text w c d s cw cr on takes stores filled me_named
        friend_named person =
      record {
        frame = f;
        grew = went.grew;
        relayed =
            handle-Hands server w c d me friend f row.0 carried.1 on.writes_as carried.2
              friend_named person on.reached_at row.1;
        shown =
            incoming_message-Shows reading other g me text body nonce (public_b64 p ring.identity)
              refl me_named carried.3 carried.4 (law.nonce-filled call)
              (open_from-shared p law other ring.identity me s call text cr.coherent cr.known)
              reader cr.present cr.known
              (ap (λ b. is_room (if b then "" else friend)) friend_named ∙ person);
      }
    where
      k : Bytes
      k = derive_key p s.secret

      pk : String
      pk = public_b64 p other.identity

      made : key_for p ring.identity pk ≡ some k
      made = (key_for-Agree p law ring.identity other.identity s).0

      ready : Ready writing ring.identity friend pk me k writer
      ready = record {
        ring = ring;
        present = cw.present;
        coherent = cw.coherent;
        own = refl;
        known = cw.known;
        here = cw.here;
        self = cw.self;
        released = cw.nothing_held;
      }

      went : Sent writing ring.identity friend pk me k writer text (send writing text writer)
      went =
          send-Sent writing ring.identity friend pk me k takes made person writer text ready filled

      f : Frame
      f = went.frame

      g : Frame
      g = rebuilt f me friend

      carried : Carries writing k friend me text f
      carried = went.carries

      call : ℕ
      call = carried.0

      body : String
      body = (seal p call k text me).0

      nonce : String
      nonce = (seal p call k text me).1

      row :
          (x : World) × (record_row server w g (direct_conversation me friend) friend f.body f.nonce
            ≡ some x)
      row = stores f went.stamped
