-- ===== src/Client/Controller/History.antt =====
-- ChatController: stored rows, turned back into messages.
use socket_to_ciphertext.Prelude.{
  String, Bool, true, false, Option, none, some, ◌==◌, ℤ, pos, eqb, if◌then◌else◌,
}
use socket_to_ciphertext.Prelude.Assoc.{Dict, get}
use socket_to_ciphertext.Wire.Value.{Value, null, bool, int, str, obj, entries, truthy, or_null}
use socket_to_ciphertext.Wire.Frame.{Frame}
use socket_to_ciphertext.Client.Conversation.{Message}
use socket_to_ciphertext.Crypto.Keyring.{open_from}
use socket_to_ciphertext.Client.Chat
use socket_to_ciphertext.Client.Controller.{Outside, Action, ◌>>=◌, return, raise, skip, update}
use socket_to_ciphertext.Client.Controller.Gestures.{is_room, or_else}
use socket_to_ciphertext.Client.Controller.Inbound.{
  list_of, with_list, each_result, read_clock, open_by, room_of, text_at, text_if,
}

-- `row.get("from") == me`
abbrev pub is_author : Value → Option String → Bool
is_author null none = true
is_author (str s) (some me) = s == me
is_author v me = false

module _ (o : Outside) where
  -- Whose key opens a row: the author's; for one's own, oneself in a room and else the other person.
  abbrev pub peer_of : String → String → String → String
  peer_of author key me = if author == me then (if is_room key then me else key) else author

  -- `_stored_plaintext`
  unfoldable pub stored_plaintext : Dict Value → String → String → Action String
  unfolding open_from
  stored_plaintext row key me c =
      let author = text_if o row "from" in
      open_by o c.keyring (peer_of author key me) (text_if o row "body") (text_if o row "n") author
        c

  -- `int(row.get("ts") or now_ms())`, where a float or a text is outside of this model.
  abbrev pub stored_ts : Value → Action ℤ
  stored_ts (int (pos n)) = if eqb n 0 then read_clock o else return (pos n)
  stored_ts (int n) = return n
  stored_ts (bool true) = return (pos 1)
  stored_ts v = if truthy v then raise else read_clock o

  abbrev pub stored_message : String → Dict Value → Action Message
  stored_message key row c =
      (stored_plaintext row key (or_else c.model.username "") >>= λ body.
      stored_ts (or_null (get row "ts")) >>= λ ts. return (record {
        id = text_at o row "id" "";
        sender = text_at o row "from" "?";
        body = body;
        ts = ts;
        mine = is_author (or_null (get row "from")) c.model.username;
        state = "SENT";
      }))
        c

  -- A row that is no dictionary raises.
  unfoldable pub stored_row : String → Value → Action Message
  unfolding stored_plaintext
  stored_row key (obj fs) = stored_message key (entries fs)
  stored_row key v = raise

  -- `_history_result`
  unfoldable pub history_result : Frame → Action (Unit {0})
  unfolding stored_row
  history_result f =
      let key = room_of o f in
      if key == ""
      then skip
      else with_list (list_of (or_null (get f.payload "messages"))) (λ rows.
        each_result (stored_row key) rows >>= λ ms. update (λ m. Chat.load_history m key ms))
