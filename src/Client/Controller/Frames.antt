-- ===== src/Client/Controller/Frames.antt =====
-- ChatController: one inbound frame, by its type, and everything that the controller is asked to do.
use socket_to_ciphertext.Prelude.{ℕ, String, Bool, Option, List, [], ◌∷◌}
use socket_to_ciphertext.Wire.Frame.{Frame, MessageType}
use socket_to_ciphertext.Client.Chat
use socket_to_ciphertext.Client.Requests
use socket_to_ciphertext.Client.Controller.{
  Outside, Controller, Action, ◌>>◌, skip, update, submit, request,
}
use socket_to_ciphertext.Client.Controller.Gestures.{
  send, select, ping, typing, request_history, open_room, open_conversation,
}
use socket_to_ciphertext.Client.Controller.Inbound
use socket_to_ciphertext.Client.Controller.Inbound.{
  incoming_message, replace_contacts, open_pending_user, room_state, error, logged_in, presence,
}
use socket_to_ciphertext.Client.Controller.History.{history_result}

-- What a view, or the queue of inbound frames, makes the controller do.
pub data Occasion : Type 0 where
  typed : String → Occasion
  selects opens_conversation adds_contact removes_contact joins leaves state_changes :
      String → Occasion
  pings : Occasion
  types : Bool → Occasion
  asks_history : Option String → ℕ → Occasion
  creates_room invites opens_room : String → List String → Occasion
  receives : Frame → Occasion

module _ (o : Outside) where
  abbrev pub dispatch : MessageType → Frame → Action (Unit {0})
  dispatch MessageType.msg f = incoming_message o f
  dispatch MessageType.presence f = presence o f.payload
  dispatch MessageType.typing f = Inbound.typing o f
  dispatch MessageType.receipt f = Inbound.receipt o f
  dispatch MessageType.key f = Inbound.key o f.payload
  dispatch MessageType.history_result f = history_result o f
  dispatch MessageType.contacts f = replace_contacts o f.payload >> open_pending_user o
  dispatch MessageType.room_state f = room_state o f
  dispatch MessageType.login_ok f = logged_in o f.payload
  dispatch MessageType.error f = error o f.payload
  dispatch t f = skip

  unfoldable pub on_frame : Frame → Action (Unit {0})
  unfolding incoming_message presence Inbound.typing Inbound.receipt Inbound.key history_result
      replace_contacts open_pending_user room_state logged_in error
  on_frame f = dispatch f.type f

  abbrev pub on_state : String → Action (Unit {0})
  on_state state = update (λ m. Chat.set_connection_state m state)

  -- An exception ends the operation; what it had done stays.
  unfoldable pub respond : Occasion → Controller → Controller
  unfolding submit send select typing request_history open_room open_conversation on_frame
  respond (typed text) c = (send o text c).0
  respond (selects k) c = (select o k c).0
  respond (opens_conversation user) c = (open_conversation o user c).0
  respond (adds_contact user) c = (request o (Requests.add_contact user) c).0
  respond (removes_contact user) c = (request o (Requests.remove_contact user) c).0
  respond (joins room) c = (request o (Requests.join room) c).0
  respond (leaves room) c = (request o (Requests.leave room) c).0
  respond (state_changes state) c = (on_state state c).0
  respond pings c = (ping o c).0
  respond (types on) c = (typing o on c).0
  respond (asks_history k limit) c = (request_history o k limit c).0
  respond (creates_room room members) c = (request o (Requests.create_room room members) c).0
  respond (invites room members) c = (request o (Requests.invite room members) c).0
  respond (opens_room room members) c = (open_room o room members c).0
  respond (receives f) c = (on_frame f c).0

  unfoldable pub respond_all : Controller → List Occasion → Controller
  unfolding respond
  respond_all c [] = c
  respond_all c (e ∷ es) = respond_all (respond e c) es
