-- ===== src/Client/Chat.antt =====
-- im/client/model/chat.py, class ChatModel: what the client knows. `told` holds the events that the
-- listeners get, oldest first.
pub mod Unread
pub mod Receipts
use socket_to_ciphertext.Prelude.{
  ℕ, ◌+◌, String, Bool, true, false, not, ◌&&◌, Option, none, some, List, [], ◌∷◌, ◌++◌, ◌==◌, map,
  keep_if, contains, length, leb, eqb, if◌then◌else◌,
}
use socket_to_ciphertext.Prelude.Assoc.{Dict, get, has, put, keys}
use socket_to_ciphertext.Prelude.Sort.{sorted}
use socket_to_ciphertext.Client.Conversation.{Message, Conversation, opened, add, mark_read}

pub data Event : Type 0 where
  identity_established : String → Event
  roster_replaced : List String → Event
  contacts_changed : List String → Event
  presence_changed : String → Bool → Event
  message_added : String → Message → Event
  unread_changed : String → ℕ → Event
  receipt_changed : String → String → String → Event
  history_loaded : String → ℕ → Event
  typing_changed : String → List String → Event
  room_members_changed : String → List String → Event
  conversation_selected : Option String → Event
  connection_state_changed : String → Event
  error_raised : String → String → Event

pub record ChatModel : Type 0 where
  pub username : Option String
  pub connection_state : String
  pub roster : Dict Bool
  pub contacts : Dict Bool
  pub conversations : Dict Conversation
  pub rooms : Dict (List String)
  pub typing : Dict (List String)
  pub active : Option String
  pub told : List Event

abbrev pub fresh : ChatModel
fresh = record {
  username = none;
  connection_state = "DISCONNECTED";
  roster = [];
  contacts = [];
  conversations = [];
  rooms = [];
  typing = [];
  active = none;
  told = [];
}

abbrev pub emit : ChatModel → Event → ChatModel
emit m e = record m { told = m.told ++ e ∷ [] }

abbrev pub set_identity : ChatModel → String → ChatModel
set_identity m name = emit (record m { username = some name }) (identity_established name)

abbrev pub set_connection_state : ChatModel → String → ChatModel
set_connection_state m state =
    if state == m.connection_state
    then m
    else emit (record m { connection_state = state }) (connection_state_changed state)

-- `for name in users: roster[name] = True`
abbrev all_online : Dict Bool → List String → Dict Bool
all_online roster [] = roster
all_online roster (name ∷ names) = all_online (put roster name true) names

-- The others are marked offline.
abbrev absent_offline : List String → Dict Bool → Dict Bool
absent_offline names = map (λ e. (e.0, if contains names e.0 then e.1 else false))

unfoldable pub replace_roster : ChatModel → List String → ChatModel
unfolding sorted
replace_roster m names =
    let roster = absent_offline names (all_online m.roster names) in
    emit (record m { roster = roster }) (roster_replaced (sorted (keys roster)))

-- `fresh == self.contacts`: dictionaries are equal in whatever order their entries stand.
abbrev pub same_presence : Option Bool → Bool → Bool
same_presence none online = false
same_presence (some b) online = if b then online else not online

abbrev within : Dict Bool → Dict Bool → Bool
within [] d = true
within ((name, online) ∷ rest) d = same_presence (get d name) online && within rest d

abbrev pub same_contacts : Dict Bool → Dict Bool → Bool
same_contacts c d = eqb (length c) (length d) && within c d

-- `roster.setdefault(name, online)`, for each.
abbrev pub set_defaults : Dict Bool → Dict Bool → Dict Bool
set_defaults roster [] = roster
set_defaults roster ((name, online) ∷ rest) =
    set_defaults (if has roster name then roster else put roster name online) rest

-- `replace_contacts`, after the comprehension that reads what the server sent.
unfoldable pub replace_contacts : ChatModel → Dict Bool → ChatModel
unfolding sorted
replace_contacts m fresh =
    if same_contacts fresh m.contacts
    then m
    else emit (record m { contacts = fresh; roster = set_defaults m.roster fresh })
        (contacts_changed (sorted (keys fresh)))

abbrev pub set_presence : ChatModel → String → Bool → ChatModel
set_presence m user online =
    let kept = if has m.contacts user then put m.contacts user online else m.contacts in
    let noted = record m { contacts = kept } in
    if same_presence (get m.roster user) online
    then noted
    else emit (record noted { roster = put m.roster user online }) (presence_changed user online)

abbrev pub is_online : ChatModel → String → Bool
is_online m user = elim (get m.roster user) [ none ↦ false | some b ↦ b ]

unfoldable pub online_users : ChatModel → List String
unfolding sorted
online_users m = sorted (keys (keep_if (λ e. e.1) m.roster))

-- The conversation under a key, a new one if there is none.
abbrev pub conversation : ChatModel → String → Conversation
conversation m key = elim (get m.conversations key) [ none ↦ opened key | some c ↦ c ]

abbrev pub keep : ChatModel → String → Conversation → ChatModel
keep m key c = record m { conversations = put m.conversations key c }

abbrev pub is_active : ChatModel → String → Bool
is_active m key = elim m.active [ none ↦ false | some k ↦ key == k ]

-- The people who type in a conversation; a set is a list without repetitions.
abbrev pub typists : ChatModel → String → List String
typists m key = elim (get m.typing key) [ none ↦ [] | some names ↦ names ]

abbrev pub with_typist : List String → String → Bool → List String
with_typist names user true = if contains names user then names else names ++ user ∷ []
with_typist names user false = keep_if (λ n. not (n == user)) names

unfoldable pub set_typing : ChatModel → String → String → Bool → ChatModel
unfolding sorted
set_typing m key user on =
    let names = with_typist (typists m key) user on in
    let noted = record m { typing = put m.typing key names } in
    if (if contains (typists m key) user then on else not on)
    then noted
    else emit noted (typing_changed key (sorted names))

unfoldable pub typing_in : ChatModel → String → List String
unfolding sorted
typing_in m key = sorted (typists m key)

-- A message of somebody else ends that person's typing.
abbrev pub end_typing : ChatModel → String → Message → ChatModel
end_typing m key message = if message.mine then m else set_typing m key message.sender false

abbrev pub tell_unread : ChatModel → String → ℕ → ℕ → ChatModel
tell_unread m key before after = if eqb after before then m else emit m (unread_changed key after)

unfoldable pub add_message : ChatModel → String → Message → ChatModel
unfolding add set_typing
add_message m key message =
    let before = conversation m key in
    let after = add before message (is_active m key) in
    tell_unread (emit (end_typing (keep m key after) key message) (message_added key message)) key
      before.unread after.unread

unfoldable pub load_history : ChatModel → String → List Message → ChatModel
load_history m key messages =
    emit (keep m key (record (conversation m key) { messages = messages }))
      (history_loaded key (length messages))

-- `order.get(state, 0)`
unfoldable pub order : String → ℕ
order state = if state == "READ" then 2 else if state == "DELIVERED" then 1 else 0

-- The first message with the id, moved forward; `none` if there is none or it would not move.
unfoldable pub move_forward : List Message → String → String → Option (List Message)
unfolding order
move_forward [] id state = none
move_forward (m ∷ ms) id state =
    let rest = move_forward ms id state in
    if m.id == id
    then (if leb (order state) (order m.state)
        then none
        else some (record m { state = state } ∷ ms))
    else elim rest [ none ↦ none | some ns ↦ some (m ∷ ns) ]

abbrev pub moved_in : ChatModel → String → Conversation → Option (List Message) → Event → ChatModel
moved_in m key c none e = m
moved_in m key c (some ms) e = emit (keep m key (record c { messages = ms })) e

unfoldable pub set_receipt : ChatModel → String → String → String → ChatModel
unfolding move_forward
set_receipt m key id state = elim (get m.conversations key) [
  | none ↦ m
  | some c ↦ moved_in m key c (move_forward c.messages id state) (receipt_changed key id state)
]

abbrev pub read_now : ChatModel → String → Conversation × Bool → ChatModel
read_now m key (c, changed) =
    if changed then emit (keep m key c) (unread_changed key 0) else keep m key c

unfoldable pub select : ChatModel → Option String → ChatModel
unfolding mark_read
select m choice =
    let shown = emit (record m { active = choice }) (conversation_selected choice) in
    elim choice [
      | none ↦ shown
      | some key ↦ read_now shown key (mark_read (conversation shown key))
    ]

abbrev pub raise_error : ChatModel → String → String → ChatModel
raise_error m code message = emit m (error_raised code message)

unfoldable pub unread_total : Dict Conversation → ℕ
unread_total [] = 0
unread_total ((key, c) ∷ d) = c.unread + unread_total d

abbrev same_names : List String → List String → Bool
same_names [] [] = true
same_names (a ∷ as') (b ∷ bs) = a == b && same_names as' bs
same_names as' bs = false

abbrev pub is_known : Option (List String) → List String → Bool
is_known none names = false
is_known (some known) names = same_names known names

-- A room that is new in the model gets a conversation.
unfoldable pub set_room_members : ChatModel → String → List String → ChatModel
unfolding sorted
set_room_members m room members =
    let ordered = sorted members in
    if is_known (get m.rooms room) ordered
    then m
    else emit (keep (record m { rooms = put m.rooms room ordered }) room (conversation m room))
        (room_members_changed room ordered)

abbrev pub room_members : ChatModel → String → List String
room_members m room = elim (get m.rooms room) [ none ↦ [] | some names ↦ names ]

-- The rooms that this user is in, by the members last reported.
unfoldable pub my_rooms : ChatModel → List String
unfolding sorted
my_rooms m = elim m.username [
  | none ↦ []
  | some me ↦ sorted (keys (keep_if (λ e. contains e.1 me) m.rooms))
]
