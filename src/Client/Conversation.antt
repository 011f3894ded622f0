-- ===== src/Client/Conversation.antt =====
-- im/client/model/conversation.py: one conversation and its unread count.
pub mod Unread
use socket_to_ciphertext.Prelude.{
  ℕ, zero, suc, ◌+◌, String, Bool, true, false, not, ◌&&◌, Option, none, some, List, [], ◌∷◌, ◌++◌,
  starts_with, ℤ, length, eqb, if◌then◌else◌,
}

pub record Message : Type 0 where
  pub id : String
  pub sender : String
  pub body : String
  pub ts : ℤ
  pub mine : Bool
  pub state : String

pub record Conversation : Type 0 where
  pub key : String
  pub messages : List Message
  pub unread : ℕ

abbrev pub opened : String → Conversation
opened key = record { key = key; messages = []; unread = 0 }

abbrev pub is_room : Conversation → Bool
is_room c = starts_with c.key "#"

unfoldable pub add : Conversation → Message → Bool → Conversation
add c message active = record c {
  messages = c.messages ++ message ∷ [];
  unread = if not active && not message.mine then suc c.unread else c.unread;
}

-- With the answer whether the count changed.
unfoldable pub mark_read : Conversation → Conversation × Bool
mark_read c = if eqb c.unread 0 then (c, false) else (record c { unread = 0 }, true)

-- `self.messages[-1]`
abbrev last_of : List Message → Option Message
last_of [] = none
last_of (m ∷ []) = some m
last_of (m ∷ n ∷ ms) = last_of (n ∷ ms)

unfoldable pub last : Conversation → Option Message
last c = last_of c.messages

abbrev pub size : Conversation → ℕ
size c = length c.messages
