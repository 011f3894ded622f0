-- ===== src/Server/Router/Delivery.antt =====
-- im/server/router.py: MSG, to one person or to a room.
use socket_to_ciphertext.Prelude.{
  String, Bool, true, false, not, ◌&&◌, Option, none, some, List, [], ◌∷◌, ◌==◌, contains, concat,
  if◌then◌else◌, pos,
}
use socket_to_ciphertext.Prelude.Assoc.{Dict, get}
use socket_to_ciphertext.Prelude.Sort.{sorted}
use socket_to_ciphertext.Wire.Value.{Value, int, str, arr, obj, nil, cons, entries, or_null}
use socket_to_ciphertext.Wire.Frame.{Frame, MessageType}
use socket_to_ciphertext.Server.Env.{Env, py_str}
use socket_to_ciphertext.Server.Registry.{Conn}
use socket_to_ciphertext.Server.Store.Users
use socket_to_ciphertext.Server.Store.Rooms
use socket_to_ciphertext.Server.Store.Messages
use socket_to_ciphertext.Server.Store.Messages.{
  direct_conversation, envelopes_mark, record_message, queue_for,
}
use socket_to_ciphertext.Server.Router.World.{
  World, Outcome, done, abort, is_room, send, post, refuse,
}
use socket_to_ciphertext.Server.Router.Contacts.{note_contact, or_empty}

-- The frame that goes out: the sender comes from the session, the rest from the frame.
abbrev pub rebuilt : Frame → String → String → Frame
rebuilt frame me target = record {
  type = MessageType.msg;
  sender = some me;
  to = some target;
  body = frame.body;
  nonce = frame.nonce;
  payload = [];
  id = frame.id;
  ts = frame.ts;
  v = int (pos 1);
}

-- `isinstance(envelopes, dict)`
abbrev pub dict? : Value → Option (Dict Value)
dict? (obj fs) = some (entries fs)
dict? v = none

-- What a handler's helper answers: the world and whether the message was taken, or an exception.
pub data Taken : Type 0 where
  taken refused : World → Taken
  raised : Taken

abbrev pub stored : Option Messages.Messages → World → Option World
stored none w = none
stored (some t) w = some (record w { messages = some t })

module _ (env : Env) where
  -- `_record`: a server without a store keeps nothing.
  unfoldable pub record_row :
      World → Frame → String → String → Option String → Option String → Option World
  unfolding record_message
  record_row w outgoing conversation recipient body nonce = elim w.messages [
    | none ↦ some w
    | some t ↦
        stored
          (record_message t outgoing.id conversation (or_empty outgoing.sender) recipient body nonce
            outgoing.ts)
          w
  ]

  -- `_record_envelopes`: the whole map in one row.
  unfoldable pub record_envelopes : World → Frame → String → Dict Value → Option World
  unfolding record_row
  record_envelopes w outgoing room envelopes =
      record_row w outgoing room room (some (env.dumps envelopes)) (some envelopes_mark)

  -- `self.messages.queue_for(name, id)`, where there is a store.
  unfoldable pub queue : World → String → String → World
  unfolding queue_for
  queue w name id = elim w.messages [
    | none ↦ w
    | some t ↦ record w { messages = some (queue_for t name id) }
  ]

  -- The end of `_to_user`: to the recipient's connection, or to the queue.
  abbrev pub deliver_or_queue : World → Option Conn → String → Frame → World
  deliver_or_queue w none target outgoing = queue w target outgoing.id
  deliver_or_queue w (some c) target outgoing = send w c outgoing

  abbrev pub has_store : World → Bool
  has_store w = elim w.messages [ none ↦ false | some t ↦ true ]

  -- Somebody who is connected, or who has an account while there is a store to wait in.
  abbrev pub reachable : World → String → Bool
  reachable w target = elim (get w.sessions target) [
    | none ↦ has_store w && Users.exists w.users target
    | some c ↦ true
  ]

  unfoldable pub to_user : World → Conn → String → String → Frame → Taken
  unfolding refuse direct_conversation record_row note_contact queue send
  to_user w c me target outgoing =
      if not (reachable w target)
      then refused (refuse env w c "USER_OFFLINE" (concat (target ∷ " is not online" ∷ [])))
      else elim (record_row w outgoing (direct_conversation me target) target outgoing.body
          outgoing.nonce) [
            | none ↦ raised
            | some w' ↦ taken (
                deliver_or_queue (note_contact env (note_contact env w' me target) target me)
                  (get w.sessions target) target outgoing)
          ]

  abbrev pub sealed_copy : Frame → Value → Option Frame
  sealed_copy outgoing (arr (cons body (cons nonce nil))) =
      some (record outgoing { body = some (py_str env body); nonce = some (py_str env nonce) })
  sealed_copy outgoing v = none

  -- The copy of a room message that one member can open.
  unfoldable pub addressed_to : Frame → Option (Dict Value) → String → Option Frame
  addressed_to outgoing none name = some outgoing
  addressed_to outgoing (some envelopes) name = sealed_copy outgoing (or_null (get envelopes name))

  -- One turn of the loop over the members.
  unfoldable pub deliver_one : World → String → Frame → Option (Dict Value) → String → World
  unfolding addressed_to queue send
  deliver_one w me outgoing envelopes name =
      if name == me then w else elim (addressed_to outgoing envelopes name) [
        | none ↦ w
        | some addressed ↦ elim (get w.sessions name) [
          | some c ↦ send w c addressed
          | none ↦ queue w name outgoing.id
        ]
      ]

  unfoldable pub deliver_each : World → String → Frame → Option (Dict Value) → List String → World
  unfolding deliver_one
  deliver_each w me outgoing envelopes [] = w
  deliver_each w me outgoing envelopes (name ∷ names) =
      deliver_each (deliver_one w me outgoing envelopes name) me outgoing envelopes names

  abbrev pub record_room : World → Frame → String → Option (Dict Value) → Option World
  record_room w outgoing room none = record_row w outgoing room room outgoing.body outgoing.nonce
  record_room w outgoing room (some envelopes) = record_envelopes w outgoing room envelopes

  unfoldable pub to_room : World → Conn → String → String → Frame → Option (Dict Value) → Taken
  unfolding refuse sorted Rooms.members record_row record_envelopes deliver_each
  to_room w c me room outgoing envelopes =
      if not (Rooms.exists w.rooms room)
      then refused (refuse env w c "NO_SUCH_ROOM" (concat (room ∷ " does not exist" ∷ [])))
      else if not (contains (Rooms.members w.rooms room) me)
      then refused
          (refuse env w c "NOT_A_MEMBER" (concat ("join " ∷ room ∷ " before sending to it" ∷ [])))
      else elim (record_room w outgoing room envelopes) [
        | none ↦ raised
        | some w' ↦
            taken (deliver_each w' me outgoing envelopes (sorted (Rooms.members w.rooms room)))
      ]

  -- The ACK, for a message that was taken.
  abbrev pub acknowledge : World → Conn → String → Taken → Outcome
  acknowledge before c ref (taken w) =
      done (post env w c MessageType.ack none (("ref", str ref) ∷ []))
  acknowledge before c ref (refused w) = done w
  acknowledge before c ref raised = abort before

  unfoldable pub message : World → Conn → String → Frame → Outcome
  unfolding refuse to_room to_user post
  message w c me frame =
      let target = or_empty frame.to in
      if target == ""
      then done (refuse env w c "NO_RECIPIENT" "MSG needs a 'to'")
      else acknowledge w c frame.id (
          if is_room target
          then to_room w c me target (rebuilt frame me target)
              (dict? (or_null (get frame.payload "env")))
          else to_user w c me target (rebuilt frame me target))
