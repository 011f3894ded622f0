-- ===== src/Client/Conversation/Unread.antt =====
-- What the unread count of a conversation counts.
use socket_to_ciphertext.Prelude.{
  ℕ, ◌+◌, ◌≡◌, refl, Bool, not, ◌&&◌, ◌∙◌, List, [], ◌∷◌, if◌then◌else◌, arith,
}
use socket_to_ciphertext.Client.Conversation.{Message, Conversation, add, mark_read}

-- What happens to a conversation: a message, with whether the chat is on screen, or its reading.
pub data Action : Type 0 where
  added : Message → Bool → Action
  was_read : Action

abbrev pub act : Conversation → Action → Conversation
act c (added m active) = add c m active
act c was_read = (mark_read c).0

pub act_all : Conversation → List Action → Conversation
act_all c [] = c
act_all c (a ∷ as') = act_all (act c a) as'

-- Counted backwards from the end: the messages of others that came while the chat was not on
-- screen, after the last reading.
abbrev pub counts : Message → Bool → ℕ
counts m active = if not active && not m.mine then 1 else 0

unfoldable pub unread_since : ℕ → List Action → ℕ
unread_since n [] = n
unread_since n (added m active ∷ as') = unread_since (n + counts m active) as'
unread_since n (was_read ∷ as') = unread_since 0 as'

mark_read-unread : (c : Conversation) → (mark_read c).0.unread ≡ 0
unfolding mark_read
mark_read-unread c = ground arith

add-unread :
    (c : Conversation) (m : Message) (active : Bool)
    → (add c m active).unread ≡ c.unread + counts m active
unfolding add
add-unread c m active = ground arith

-- After any sequence of messages and readings, the count is the number of messages by others that
-- came while the chat was off the screen since the last reading, those counted before included.
act_all-unread :
    (c : Conversation) (as' : List Action) → (act_all c as').unread ≡ unread_since c.unread as'
unfolding act_all unread_since
act_all-unread c [] = refl
act_all-unread c (added m active ∷ as') =
    act_all-unread (add c m active) as' ∙ rw (add-unread c m active) refl
act_all-unread c (was_read ∷ as') =
    act_all-unread (mark_read c).0 as' ∙ rw (mark_read-unread c) refl
