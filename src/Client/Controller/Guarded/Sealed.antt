-- ===== src/Client/Controller/Guarded/Sealed.antt =====
-- ChatController: whatever it is asked, no body leaves in the clear.
use socket_to_ciphertext.Prelude.{String, ◌≡◌, refl, sym, subst, some, List, [], ◌∷◌, All}
use socket_to_ciphertext.Wire.Frame.{Frame, MessageType}
use socket_to_ciphertext.Crypto.Primitives.{Bytes}
use socket_to_ciphertext.Crypto.Keyring.{fresh}
use socket_to_ciphertext.Client.Requests
use socket_to_ciphertext.Client.Controller.{Outside, Controller}
use socket_to_ciphertext.Client.Controller.Frames.{
  dispatch, on_frame, Occasion, typed, selects, opens_conversation, adds_contact, removes_contact,
  joins, leaves, state_changes, pings, types, asks_history, creates_room, invites, opens_room,
  receives, respond, respond_all,
}
use socket_to_ciphertext.Client.Controller.Inbound.{replace_contacts, open_pending_user}
use socket_to_ciphertext.Client.Controller.Guarded.{
  IsSealed, Guarded, Preserves, then-Preserves, request-Preserves,
}
use socket_to_ciphertext.Client.Controller.Guarded.Sending.{
  send-Preserves, select-Preserves, typing-Preserves, request_history-Preserves,
  open_room-Preserves, open_conversation-Preserves,
}
use socket_to_ciphertext.Client.Controller.Guarded.Inbound.{
  incoming_message-Preserves, key-Preserves,
}
use socket_to_ciphertext.Client.Controller.Guarded.Answers
use socket_to_ciphertext.Client.Controller.Guarded.Answers.{
  replace_contacts-Preserves, open_pending_user-Preserves, room_state-Preserves, error-Preserves,
  logged_in-Preserves, presence-Preserves, receipt-Preserves, history_result-Preserves,
}

module _ (o : Outside) (i : Bytes) where
  dispatch-Preserves : (t : MessageType) (f : Frame) → Preserves o i (dispatch o t f)
  dispatch-Preserves MessageType.msg f = incoming_message-Preserves o i f
  dispatch-Preserves MessageType.presence f = presence-Preserves o i f.payload
  dispatch-Preserves MessageType.typing f = Answers.typing-Preserves o i f
  dispatch-Preserves MessageType.receipt f = receipt-Preserves o i f
  dispatch-Preserves MessageType.key f = key-Preserves o i f.payload
  dispatch-Preserves MessageType.history_result f = history_result-Preserves o i f
  dispatch-Preserves MessageType.contacts f =
      then-Preserves o i (replace_contacts o f.payload) (open_pending_user o)
        (replace_contacts-Preserves o i f.payload) (open_pending_user-Preserves o i)
  dispatch-Preserves MessageType.room_state f = room_state-Preserves o i f
  dispatch-Preserves MessageType.login_ok f = logged_in-Preserves o i f.payload
  dispatch-Preserves MessageType.error f = error-Preserves o i f.payload
  dispatch-Preserves t f = λ c g. g

  on_frame-Preserves : (f : Frame) → Preserves o i (on_frame o f)
  unfolding on_frame
  on_frame-Preserves f = dispatch-Preserves f.type f

  respond-Guarded : (e : Occasion) (c : Controller) → Guarded o i c → Guarded o i (respond o e c)
  unfolding respond
  respond-Guarded (typed text) c g = send-Preserves o i text c g
  respond-Guarded (selects k) c g = select-Preserves o i k c g
  respond-Guarded (opens_conversation user) c g = open_conversation-Preserves o i user c g
  respond-Guarded (adds_contact user) c g =
      request-Preserves o i (Requests.add_contact user) (λ id ts. refl) c g
  respond-Guarded (removes_contact user) c g =
      request-Preserves o i (Requests.remove_contact user) (λ id ts. refl) c g
  respond-Guarded (joins room) c g = request-Preserves o i (Requests.join room) (λ id ts. refl) c g
  respond-Guarded (leaves room) c g =
      request-Preserves o i (Requests.leave room) (λ id ts. refl) c g
  respond-Guarded (state_changes state) c g = g
  respond-Guarded pings c g = request-Preserves o i Requests.ping (λ id ts. refl) c g
  respond-Guarded (types on) c g = typing-Preserves o i on c g
  respond-Guarded (asks_history k limit) c g = request_history-Preserves o i k limit c g
  respond-Guarded (creates_room room members) c g =
      request-Preserves o i (Requests.create_room room members) (λ id ts. refl) c g
  respond-Guarded (invites room members) c g =
      request-Preserves o i (Requests.invite room members) (λ id ts. refl) c g
  respond-Guarded (opens_room room members) c g = open_room-Preserves o i room members c g
  respond-Guarded (receives f) c g = on_frame-Preserves f c g

  respond_all-Guarded :
      (c : Controller) (es : List Occasion) → Guarded o i c → Guarded o i (respond_all o c es)
  unfolding respond_all
  respond_all-Guarded c [] g = g
  respond_all-Guarded c (e ∷ es) g = respond_all-Guarded (respond o e c) es (respond-Guarded e c g)

-- A client that starts with a new keyring and has sent nothing: after any sequence of gestures and
-- inbound frames, whichever sends the connection takes, each frame that it took is no message, or holds
-- a body and a nonce sealed under a key that this identity shares with a public key, or has an empty
-- body and only entries that are so sealed.
pub respond_all-IsSealed :
    (o : Outside) (identity : Bytes) (me : String) (c : Controller) (es : List Occasion)
    → c.keyring ≡ some (fresh identity me)
    → c.sent ≡ []
    → All (IsSealed o identity) (respond_all o c es).sent
respond_all-IsSealed o identity me c es ring silent =
    (respond_all-Guarded o identity c es (
      record {
        ring = fresh identity me;
        present = ring;
        coherent = record { source = λ u k h. absurd (cc) };
        own = refl;
      },
      subst (All (IsSealed o identity)) (sym silent) tt,
    )).1
