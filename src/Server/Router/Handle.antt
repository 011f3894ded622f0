-- ===== src/Server/Router/Handle.antt =====
-- im/server/router.py, MessageRouter.handle: one frame from one connection.
use socket_to_ciphertext.Prelude.{String, Option, none, some, List, [], ◌∷◌, concat}
use socket_to_ciphertext.Wire.Frame.{Frame, MessageType, wire_name}
use socket_to_ciphertext.Server.Env.{Env}
use socket_to_ciphertext.Server.Registry.{Conn}
use socket_to_ciphertext.Server.Router.World.{World, Outcome, done, abort, outside, post, refuse}
use socket_to_ciphertext.Server.Router.Contacts.{add_contact, remove_contact}
use socket_to_ciphertext.Server.Router.Accounts.{register, login, get_key, on_disconnect}
use socket_to_ciphertext.Server.Router.Membership.{create_room, invite, join, leave}
use socket_to_ciphertext.Server.Router.Delivery.{message}
use socket_to_ciphertext.Server.Router.History.{history, receipt, typing}

-- What connections do to the router, one at a time.
pub data Event : Type 0 where
  arrives : Conn → Frame → Event
  closes : Conn → Event

module _ (env : Env) where
  -- The frames that need to know who is asking.
  unfoldable pub dispatch : World → Conn → String → MessageType → Frame → Outcome
  unfolding refuse message create_room join leave invite add_contact remove_contact typing receipt
      history get_key
  dispatch w c me MessageType.msg frame = message env w c me frame
  dispatch w c me MessageType.create_room frame = done (create_room env w c me frame)
  dispatch w c me MessageType.join frame = done (join env w c me frame)
  dispatch w c me MessageType.leave frame = done (leave env w c me frame)
  dispatch w c me MessageType.invite frame = done (invite env w c me frame)
  dispatch w c me MessageType.add_contact frame = done (add_contact env w c me frame)
  dispatch w c me MessageType.remove_contact frame = done (remove_contact env w c me frame)
  dispatch w c me MessageType.typing frame = done (typing env w c me frame)
  dispatch w c me MessageType.receipt frame = done (receipt env w c me frame)
  dispatch w c me MessageType.history frame = history env w c me frame
  dispatch w c me MessageType.get_key frame = done (get_key env w c frame)
  dispatch w c me type frame =
      done
        (refuse env w c "UNSUPPORTED" (concat (wire_name type ∷ " arrives in a later phase" ∷ [])))

  abbrev pub logged_in : World → Conn → Frame → Option String → Outcome
  logged_in w c frame none =
      done (refuse env w c "NOT_LOGGED_IN" "log in before sending anything else")
  logged_in w c frame (some me) = dispatch w c me frame.type frame

  abbrev pub by_type : World → Conn → MessageType → Frame → Outcome
  by_type w c MessageType.ping frame = done (post env w c MessageType.pong none [])
  by_type w c MessageType.register frame = register env w c frame
  by_type w c MessageType.login frame = login env w c frame
  by_type w c type frame = logged_in w c frame (w.username c)

  unfoldable pub handle : World → Conn → Frame → Outcome
  unfolding register login dispatch
  handle w c frame = by_type w c frame.type frame

  -- An exception ends the reader's loop, and with it the connection. `none`: a login under a value
  -- that is not a text, after which no World is that of the program.
  abbrev pub settled : Conn → Outcome → Option World
  settled c (done w) = some w
  settled c (abort w) = some (on_disconnect env w c)
  settled c (outside w) = none

  unfoldable pub step : World → Event → Option World
  unfolding handle on_disconnect
  step w (arrives c frame) = settled c (handle w c frame)
  step w (closes c) = some (on_disconnect env w c)

  unfoldable pub run : World → List Event → Option World
  unfolding step
  run w [] = some w
  run w (e ∷ es) = elim (step w e) [ none ↦ none | some x ↦ run x es ]
