-- ===== src/Server/Store/Messages.antt =====
-- im/server/store/messages.py: message history, and what is owed to people who are away.
pub mod Pending
pub mod Conversations
pub mod Pages
pub mod Flushed
pub mod Receipts
use socket_to_ciphertext.Prelude.{
  ℕ, String, Bool, true, false, not, ◌&&◌, Option, none, some, List, [], ◌∷◌, ◌++◌, ◌==◌, map, any,
  keep_if, if◌then◌else◌, ltb, leb, take, min, max, length, ℤ, lt_int, le_int, pos, negsuc,
  fits_int64, str_leb,
}
use mathlib.Core.List.{reverse}
use Prim.Native.String.{◌++◌ as append_str}

abbrev pub pair_separator : String
pair_separator = "\u{1f}"

-- `sorted((a, b))`, joined by the separator.
unfoldable pub direct_conversation : String → String → String
direct_conversation a b =
    if str_leb a b
    then append_str a (append_str pair_separator b)
    else append_str b (append_str pair_separator a)

-- A row's `nonce` with this text says that its body is a JSON map of sealed bodies.
abbrev pub envelopes_mark : String
envelopes_mark = "*"

pub data State : Type 0 where
  sent delivered read : State

-- The texts DELIVERED, READ and SENT.
abbrev pub state_name : State → String
state_name sent = "SENT"
state_name delivered = "DELIVERED"
state_name read = "READ"

pub record Row : Type 0 where
  pub id : String
  pub conversation : String
  pub sender : String
  pub recipient : String
  pub body : Option String
  pub nonce : Option String
  pub ts : ℤ
  pub delivered_at : Option ℕ
  pub read_at : Option ℕ

-- The tables `messages` and `pending` (message id and username).
pub record Messages : Type 0 where
  pub rows : List Row
  pub pending : List (String × String)

abbrev pub empty : Messages
empty = record { rows = []; pending = [] }

abbrev pub find_row : List Row → String → Option Row
find_row [] id = none
find_row (r ∷ rs) id = if r.id == id then some r else find_row rs id

abbrev pub is_some {ℓ} : {A : Type ℓ} → Option A → Bool
is_some none = false
is_some (some a) = true

-- INSERT OR IGNORE: a repeat of an id changes nothing. A timestamp that sqlite cannot hold raises.
unfoldable pub add_row : Messages → Row → Option Messages
add_row t row =
    if fits_int64 row.ts
    then some
        (if is_some (find_row t.rows row.id) then t else record t { rows = t.rows ++ row ∷ [] })
    else none

unfoldable pub record_message :
    Messages
    → String
    → String
    → String
    → String
    → Option String
    → Option String
    → ℤ
    → Option Messages
unfolding add_row
record_message t message_id conversation sender recipient body nonce ts = add_row t (record {
  id = message_id;
  conversation = conversation;
  sender = sender;
  recipient = recipient;
  body = body;
  nonce = nonce;
  ts = ts;
  delivered_at = none;
  read_at = none;
})

abbrev pub owes : String → String → String × String → Bool
owes message_id username p = p.0 == message_id && p.1 == username

unfoldable pub queue_for : Messages → String → String → Messages
queue_for t username message_id =
    if any (owes message_id username) t.pending
    then t
    else record t { pending = t.pending ++ (message_id, username) ∷ [] }

-- `SET column = when … AND column IS NULL`
abbrev pub set_once : ℕ → Option ℕ → Option ℕ
set_once at none = some at
set_once at (some old) = some old

-- The updates of `mark`, on the row that they select.
abbrev pub mark_row : State → ℕ → Row → Row
mark_row read at r = record r {
  delivered_at = set_once at r.delivered_at;
  read_at = set_once at r.read_at;
}
mark_row s at r = record r { delivered_at = set_once at r.delivered_at }

abbrev pub update_row : String → (Row → Row) → List Row → List Row
update_row id f [] = []
update_row id f (r ∷ rs) = (if r.id == id then f r else r) ∷ update_row id f rs

-- With the message's sender, if there is such a message.
unfoldable pub mark : Messages → String → State → ℕ → Messages × Option String
mark t message_id state at = elim (find_row t.rows message_id) [
  | none ↦ (t, none)
  | some r ↦ (record t { rows = update_row message_id (mark_row state at) t.rows }, some r.sender)
]

abbrev pub row_state : Row → State
row_state r = if is_some r.read_at then read else if is_some r.delivered_at then delivered else sent

unfoldable pub state_of : Messages → String → State
state_of t message_id = elim (find_row t.rows message_id) [ none ↦ sent | some r ↦ row_state r ]

-- ORDER BY ts, rowid: a stable sort of rows that stand in rowid order.
pub insert_by_ts : Row → List Row → List Row
insert_by_ts r [] = r ∷ []
insert_by_ts r (q ∷ rows) = if le_int r.ts q.ts then r ∷ q ∷ rows else q ∷ insert_by_ts r rows

unfoldable pub by_ts : List Row → List Row
unfolding insert_by_ts
by_ts [] = []
by_ts (r ∷ rows) = insert_by_ts r (by_ts rows)

-- What is queued for a user, oldest first, and the tables without it.
unfoldable pub flush : Messages → String → List Row × Messages
unfolding by_ts
flush t username = (
  by_ts (keep_if (λ r. any (owes r.id username) t.pending) t.rows),
  record t { pending = keep_if (λ p. not (p.1 == username)) t.pending },
)

unfoldable pub pending_count : Messages → String → ℕ
pending_count t username = length (keep_if (λ p. p.1 == username) t.pending)

-- DEFAULT_LIMIT, MAX_LIMIT
abbrev pub default_limit : ℕ
default_limit = 50

abbrev pub max_limit : ℕ
max_limit = 200

-- `max(1, min(int(limit), MAX_LIMIT))`
abbrev pub clamp_limit : ℤ → ℕ
clamp_limit (pos n) = max 1 (min n max_limit)
clamp_limit (negsuc n) = 1

abbrev pub is_before : Option ℤ → Row → Bool
is_before none r = true
is_before (some before) r = lt_int r.ts before

abbrev pub in_conversation : String → Option ℤ → Row → Bool
in_conversation conversation before r = r.conversation == conversation && is_before before r

-- ORDER BY ts DESC, rowid DESC LIMIT, and reversed for display.
abbrev pub page : ℕ → List Row → List Row
page limit rows = reverse (take limit (reverse (by_ts rows)))

abbrev pub bindable : Option ℤ → Bool
bindable none = true
bindable (some before) = fits_int64 before

-- `none`: a `before` that sqlite cannot hold raises.
unfoldable pub history : Messages → String → Option ℤ → ℤ → Option (List Row)
unfolding by_ts
history t conversation before limit =
    if bindable before
    then some (page (clamp_limit limit) (keep_if (in_conversation conversation before) t.rows))
    else none

abbrev pub size : Messages → ℕ
size t = length t.rows
