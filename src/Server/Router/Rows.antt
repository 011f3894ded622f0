-- ===== src/Server/Router/Rows.antt =====
-- im/server/router.py: stored rows as a reader is allowed to see them, and the offline queue.
use socket_to_ciphertext.Prelude.{
  String, Bool, false, Option, none, some, List, [], ◌∷◌, ◌==◌, pos, if◌then◌else◌,
}
use socket_to_ciphertext.Prelude.Assoc.{get}
use socket_to_ciphertext.Wire.Value.{
  Value, null, int, str, arr, obj, nil, cons, entries, of_entries, or_null,
}
use socket_to_ciphertext.Wire.Frame.{Frame, MessageType}
use socket_to_ciphertext.Server.Env.{Env, py_str}
use socket_to_ciphertext.Server.Registry.{Conn}
use socket_to_ciphertext.Server.Store.Messages
use socket_to_ciphertext.Server.Store.Messages.{Row, envelopes_mark, row_state, state_name}
use socket_to_ciphertext.Server.Router.World.{World, Outcome, done, abort, send}

-- What one reader gets of a row: nothing, a body and a nonce, or an exception.
pub data Opened : Type 0 where
  skipped : Opened
  opened : Option String → Option String → Opened
  raised : Opened

abbrev pub or_null_text : Option String → Value
or_null_text none = null
or_null_text (some s) = str s

-- `row["body"] or "{}"`
abbrev pub or_braces : Option String → String
or_braces none = "{}"
or_braces (some s) = if s == "" then "{}" else s

module _ (env : Env) where
  -- A sealed pair: a list of exactly two values.
  abbrev pub open_sealed : Value → Opened
  open_sealed (arr (cons body (cons nonce nil))) =
      opened (some (py_str env body)) (some (py_str env nonce))
  open_sealed v = skipped

  -- `envelopes.get(reader)`: what was loaded may be no dictionary.
  abbrev pub open_loaded : Option Value → String → Opened
  open_loaded none reader = skipped
  open_loaded (some (obj fs)) reader = open_sealed (or_null (get (entries fs) reader))
  open_loaded (some v) reader = raised

  abbrev pub is_mark : Option String → Bool
  is_mark none = false
  is_mark (some n) = n == envelopes_mark

  -- The first half of `_history_entry`.
  unfoldable pub open_row : Row → String → Opened
  open_row row reader =
      if is_mark row.nonce
      then open_loaded (env.loads (or_braces row.body)) reader
      else opened row.body row.nonce

  -- Its second half: the entry that HISTORY_RESULT carries.
  abbrev pub entry : Row → Option String → Option String → Value
  entry row body nonce = obj (
      of_entries (
        ("id", str row.id)
        ∷ ("from", str row.sender)
        ∷ ("to", str row.recipient)
        ∷ ("body", or_null_text body)
        ∷ ("n", or_null_text nonce)
        ∷ ("ts", int row.ts)
        ∷ ("state", str (state_name (row_state row)))
        ∷ []))

  -- The list of entries, `none` if one of them raises.
  abbrev pub add_entry : Row → Opened → Option (List Value) → Option (List Value)
  add_entry row raised rest = none
  add_entry row skipped rest = rest
  add_entry row (opened body sealed_by) none = none
  add_entry row (opened body nonce) (some es) = some (entry row body nonce ∷ es)

  unfoldable pub history_entries : List Row → String → Option (List Value)
  unfolding open_row
  history_entries [] reader = some []
  history_entries (row ∷ rows) reader =
      add_entry row (open_row row reader) (history_entries rows reader)

  -- The MSG frame that hands a stored row over.
  abbrev pub row_frame : Row → Option String → Option String → Frame
  row_frame row body nonce = record {
    type = MessageType.msg;
    sender = some row.sender;
    to = some row.recipient;
    body = body;
    nonce = nonce;
    payload = [];
    id = row.id;
    ts = row.ts;
    v = int (pos 1);
  }

  unfoldable pub hand_over : World → Conn → String → List Row → Outcome
  unfolding open_row send
  hand_over w c username [] = done w
  hand_over w c username (row ∷ rows) = elim (open_row row username) [
    | raised ↦ abort w
    | skipped ↦ hand_over w c username rows
    | opened body nonce ↦ hand_over (send w c (row_frame row body nonce)) c username rows
  ]

  -- The queue is cleared before any row of it is looked at.
  unfoldable pub flush_pending : World → Conn → String → Outcome
  unfolding hand_over Messages.flush
  flush_pending w c username = elim w.messages [
    | none ↦ done w
    | some t ↦
        let (rows, t') = Messages.flush t username in
        hand_over (record w { messages = some t' }) c username rows
  ]
