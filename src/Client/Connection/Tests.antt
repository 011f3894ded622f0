-- ===== src/Client/Connection/Tests.antt =====
-- The theorems on the connection at concrete inputs.
use socket_to_ciphertext.Prelude.{◌≡◌, refl, true, false, none, List, [], ◌∷◌, ◌++◌, pos}
use socket_to_ciphertext.Wire.Value.{int}
use socket_to_ciphertext.Wire.Frame.{Frame, MessageType, wire_name}
use socket_to_ciphertext.Client.State.{ConnectionState, can_send}
use socket_to_ciphertext.Client.Connection.{
  Connection, Item, fresh, deliver, ask, collect, answered,
}
use socket_to_ciphertext.Client.Connection.Heartbeat.{beats, beats-silent}
use socket_to_ciphertext.Client.Connection.Replies.{deliver_all, is_one_of, collect-ask}

abbrev typed_as : MessageType → Frame
typed_as t = record {
  type = t;
  sender = none;
  to = none;
  body = none;
  nonce = none;
  payload = [];
  id = "f";
  ts = pos 3;
  v = int (pos 1);
}

abbrev ping : Frame × List Item
ping = (typed_as MessageType.ping, [])

abbrev online : Connection
online = record fresh { machine = record { state = ConnectionState.online; seen = [] } }

beats-silent_example : can_send (beats online (ping ∷ ping ∷ ping ∷ [])).machine ≡ false
beats-silent_example = beats-silent online ping ping ping refl

abbrev expected : List MessageType
expected = MessageType.login_ok ∷ MessageType.error ∷ []

abbrev presence : Frame
presence = typed_as MessageType.presence

abbrev welcome : Frame
welcome = typed_as MessageType.login_ok

not_expected : is_one_of expected presence ≡ false
unfolding wire_name
not_expected = refl

is_expected : is_one_of expected welcome ≡ true
unfolding wire_name
is_expected = refl

collect-ask_example :
    (let d =
        deliver_all
          (deliver
            (deliver_all (ask fresh (typed_as MessageType.login) expected).0 (presence ∷ []))
            welcome)
          (welcome ∷ []) in
      ((collect d).1 ≡ answered welcome)
      × ((collect d).0.heard ≡ [] ++ (presence ∷ [] ++ welcome ∷ [])))
collect-ask_example =
    collect-ask fresh (typed_as MessageType.login) welcome expected (presence ∷ []) (welcome ∷ [])
      refl (not_expected, tt) is_expected
