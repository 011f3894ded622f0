-- ===== src/Server/Router/History.antt =====
-- im/server/router.py: scrollback, receipts and typing hints.
use socket_to_ciphertext.Prelude.{
  String, true, false, not, Option, none, some, List, [], ◌∷◌, ◌==◌, keep_if, contains, concat,
  if◌then◌else◌, ℤ, pos,
}
use socket_to_ciphertext.Prelude.Assoc.{get}
use socket_to_ciphertext.Prelude.Sort.{sorted}
use socket_to_ciphertext.Wire.Value.{Value, int, bool, float, str, arr, of_items, or_null, truthy}
use socket_to_ciphertext.Wire.Frame.{Frame, MessageType}
use socket_to_ciphertext.Server.Env.{Env, py_str}
use socket_to_ciphertext.Server.Registry.{Conn}
use socket_to_ciphertext.Server.Store.Rooms
use socket_to_ciphertext.Server.Store.Messages
use socket_to_ciphertext.Server.Store.Messages.{
  State, delivered, read, state_name, direct_conversation, default_limit,
}
use socket_to_ciphertext.Server.Router.World.{
  World, Outcome, done, abort, is_room, send_to, send_each, make, tick, post, refuse,
}
use socket_to_ciphertext.Server.Router.Contacts.{or_empty}
use socket_to_ciphertext.Server.Router.Rows.{history_entries, or_null_text}

-- `int(value)`; `none`: it raises.
abbrev pub int_of : Env → Value → Option ℤ
int_of env (int n) = some n
int_of env (bool true) = some (pos 1)
int_of env (bool false) = some (pos 0)
int_of env (float x) = env.to_int (float x)
int_of env (str s) = env.to_int (str s)
int_of env v = none

-- `int(before) if before else None`: the inner `none` is None.
abbrev pub read_before : Env → Value → Option (Option ℤ)
read_before env v =
    if truthy v then elim (int_of env v) [ none ↦ none | some n ↦ some (some n) ] else some none

-- `int(limit) if limit else 50`
abbrev pub read_limit : Env → Value → Option ℤ
read_limit env v = if truthy v then int_of env v else some (pos default_limit)

-- `state in (DELIVERED, READ)`, with the state that it names.
abbrev pub receipt_state : Value → Option State
receipt_state (str s) =
    if s == "DELIVERED" then some delivered else if s == "READ" then some read else none
receipt_state v = none

module _ (env : Env) where
  abbrev pub send_history : World → Conn → String → Option (List Value) → Outcome
  send_history w c target none = abort w
  send_history w c target (some es) = done (
      post env w c MessageType.history_result (some target)
        (("room", str target) ∷ ("messages", arr (of_items es)) ∷ []))

  -- The query and the reply, for a conversation that may be read.
  unfoldable pub answer_history :
      World → Conn → Messages.Messages → String → String → String → Frame → Outcome
  unfolding Messages.history history_entries post
  answer_history w c t me target conversation frame =
      elim (read_before env (or_null (get frame.payload "before"))) [
        | none ↦ abort w
        | some before ↦ elim (read_limit env (or_null (get frame.payload "limit"))) [
          | none ↦ abort w
          | some limit ↦ elim (Messages.history t conversation before limit) [
            | none ↦ abort w
            | some rows ↦ send_history w c target (history_entries env rows me)
          ]
        ]
      ]

  -- `frame.data.get("room") or frame.to`
  abbrev pub history_target : Frame → Value
  history_target frame =
      let room = or_null (get frame.payload "room") in
      if truthy room then room else or_null_text frame.to

  unfoldable pub history : World → Conn → String → Frame → Outcome
  unfolding refuse Rooms.members direct_conversation answer_history
  history w c me frame = elim w.messages [
    | none ↦ done (refuse env w c "UNSUPPORTED" "this server keeps no history")
    | some t ↦
        let target = py_str env (history_target frame) in
        if not (truthy (history_target frame))
        then done (refuse env w c "NO_RECIPIENT" "HISTORY needs a conversation")
        else if is_room target
        then (if contains (Rooms.members w.rooms target) me
            then answer_history w c t me target target frame
            else done (
                refuse env w c "NOT_A_MEMBER"
                  (concat ("join " ∷ target ∷ " to read its history" ∷ []))))
        else answer_history w c t me target (direct_conversation me target) frame
  ]

  -- The notice to the message's sender, if there is anyone to tell.
  abbrev pub notify_sender : World → String → Option String → Value → Value → World
  notify_sender w me none ref state = w
  notify_sender w me (some sender) ref state =
      if sender == me then w else elim (get w.sessions sender) [
        | none ↦ w
        | some theirs ↦ send_to (tick env w) sender (
            make env w.calls MessageType.receipt (some me) (some sender)
              (("ref", str (py_str env ref)) ∷ ("state", str (py_str env state)) ∷ []))
      ]

  unfoldable pub receipt : World → Conn → String → Frame → World
  unfolding refuse Messages.mark send_to
  receipt w c me frame = elim w.messages [
    | none ↦ w
    | some t ↦
        let ref = or_null (get frame.payload "ref") in
        let state = or_null (get frame.payload "state") in
        let bad = refuse env w c "BAD_RECEIPT" "a receipt needs a ref and a state" in
        elim (receipt_state state) [
          | none ↦ bad
          | some s ↦
              let (t', sender) = Messages.mark t (py_str env ref) s (env.now_ms w.calls) in
              if not (truthy ref)
              then bad
              else notify_sender (tick env (record w { messages = some t' })) me sender ref state
        ]
  ]

  -- Who gets a typing hint; `none` for a room that the sender is not in.
  abbrev pub typing_recipients : World → String → String → Option (List String)
  typing_recipients w me target =
      if is_room target
      then (if contains (Rooms.members w.rooms target) me
          then some (keep_if (λ n. not (n == me)) (sorted (Rooms.members w.rooms target)))
          else none)
      else some (target ∷ [])

  unfoldable pub typing : World → Conn → String → Frame → World
  unfolding Rooms.members sorted send_each
  typing w c me frame =
      let target = or_empty frame.to in
      let relayed =
        make env w.calls MessageType.typing (some me) (some target)
          (("on", bool (truthy (or_null (get frame.payload "on")))) ∷ []) in
      if target == "" then w else elim (typing_recipients w me target) [
        | none ↦ tick env w
        | some names ↦ send_each (tick env w) names relayed
      ]
