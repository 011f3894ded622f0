-- ===== src/Client/Chat/Unread.antt =====
-- The conversation on screen has nothing unread.
use socket_to_ciphertext.Prelude.{
  ℕ, String, ◌≡◌, refl, sym, ap, ◌∙◌, Bool, true, false, not, Option, none, some, List, [], ◌∷◌,
  ◌==◌, contains, subst, eq_iff, eq_refl, arith, eqb, if◌then◌else◌, Bool-cases, Option-cases, inl,
  inr,
}
use socket_to_ciphertext.Prelude.Assoc.{Dict, get, get-put}
use socket_to_ciphertext.Client.Conversation.{Message, Conversation, opened, add, mark_read}
use socket_to_ciphertext.Client.Chat.{
  ChatModel, Event, emit, conversation, keep, is_active, typists, set_typing, end_typing,
  tell_unread, add_message, load_history, moved_in, move_forward, set_receipt, read_now, select,
  message_added, unread_changed, receipt_changed, conversation_selected,
}

-- The conversations and the one on screen are the same.
record Same (m n : ChatModel) : Type 0 where
  conversations : n.conversations ≡ m.conversations
  active : n.active ≡ m.active

Same-trans : {m n k : ChatModel} → Same m n → Same n k → Same m k
Same-trans s t = record {
  conversations = t.conversations ∙ s.conversations;
  active = t.active ∙ s.active;
}

Same-if : (b : Bool) (m x y : ChatModel) → Same m x → Same m y → Same m (if b then x else y)
Same-if true m x y s t = s
Same-if false m x y s t = t

Same-refl : (m : ChatModel) → Same m m
Same-refl m = record { conversations = refl; active = refl }

emit-Same : (m : ChatModel) (e : Event) → Same m (emit m e)
emit-Same m e = record { conversations = refl; active = refl }

set_typing-Same :
    (m : ChatModel) (key user : String) (on : Bool) → Same m (set_typing m key user on)
unfolding set_typing
set_typing-Same m key user on =
    Same-if (if contains (typists m key) user then on else not on) m _ _
      (record { conversations = refl; active = refl })
      (record { conversations = refl; active = refl })

-- What is told after a message was kept.
after_message :
    (m : ChatModel) (key : String) (message : Message) (a b : ℕ)
    → Same m (tell_unread (emit (end_typing m key message) (message_added key message)) key a b)
after_message m key message a b =
    let quiet =
      Same-if message.mine m _ _ (Same-refl m) (set_typing-Same m key message.sender false) in
    let spoken =
      Same-trans quiet (emit-Same (end_typing m key message) (message_added key message)) in
    Same-if (eqb b a) m _ _ spoken (Same-trans spoken (emit-Same _ (unread_changed key b)))

-- What stands under a key, and whether the one on screen is read.
pub record Quiet (m : ChatModel) : Type 0 where
  pub nothing_unread : (k : String) → m.active ≡ some k → (conversation m k).unread ≡ 0

abbrev found : String → Option Conversation → Conversation
found key none = opened key
found key (some c) = c

conversation-found :
    (m : ChatModel) (k : String) → conversation m k ≡ found k (get m.conversations k)
conversation-found m k = elim (Option-cases (get m.conversations k)) [
  | inl e ↦ rw (conversation, e) refl
  | inr (c, e) ↦ rw (conversation, e) refl
]

Same-Quiet : {m n : ChatModel} → Same m n → Quiet m → Quiet n
Same-Quiet {m} {n} s q = record {
  nothing_unread = λ k h. conversation_unread k ∙ q.nothing_unread k (sym s.active ∙ h);
}
  where
    conversation_unread : (k : String) → (conversation n k).unread ≡ (conversation m k).unread
    conversation_unread k =
        rw (conversation-found n k, conversation-found m k, s.conversations) refl

kept : (m : ChatModel) (key : String) (c : Conversation) → conversation (keep m key c) key ≡ c
kept m key c =
    rw (conversation-found (keep m key c) key, get-put m.conversations key key c, eq_refl key) refl

-- A conversation is replaced by one that is read if it is on screen.
keep-Quiet :
    (m : ChatModel) (key : String) (c : Conversation)
    → Quiet m
    → (m.active ≡ some key → c.unread ≡ 0)
    → Quiet (keep m key c)
keep-Quiet m key c q h = record {
  nothing_unread = λ k e. elim (Bool-cases (key == k)) [
    | inl same ↦
        rw (conversation-found (keep m key c) k, get-put m.conversations key k c, same)
          (h (subst (λ x. m.active ≡ some x) (sym ((eq_iff key k).0 same)) e))
    | inr other ↦
        rw (conversation-found (keep m key c) k, get-put m.conversations key k c, other)
          (ap (λ (x : Conversation). x.unread) (sym (conversation-found m k))
            ∙ q.nothing_unread k e)
  ];
}

is_active_here : (m : ChatModel) (key : String) → m.active ≡ some key → is_active m key ≡ true
is_active_here m key a = rw (is_active, a, eq_refl key) refl

add-active :
    (c : Conversation) (message : Message) (b : Bool)
    → b ≡ true
    → (add c message b).unread ≡ c.unread
unfolding add
add-active c message b e = rw e refl

add_message-Quiet :
    (m : ChatModel) (key : String) (message : Message) → Quiet m → Quiet (add_message m key message)
unfolding add_message
add_message-Quiet m key message q =
    let before : Conversation = conversation m key in
    let after : Conversation = add before message (is_active m key) in
    Same-Quiet (after_message (keep m key after) key message before.unread after.unread) (
      keep-Quiet m key after q (λ a.
        add-active before message (is_active m key) (is_active_here m key a)
        ∙ q.nothing_unread key a))

-- Where a message was added, it stands at the end.
pub conversation-add_message :
    (m : ChatModel) (key : String) (message : Message)
    → conversation (add_message m key message) key
      ≡ add (conversation m key) message (is_active m key)
unfolding add_message
conversation-add_message m key message =
    let before : Conversation = conversation m key in
    let after : Conversation = add before message (is_active m key) in
    let same = after_message (keep m key after) key message before.unread after.unread in
    conversation-found (add_message m key message) key
    ∙ ap (λ (d : Dict Conversation). found key (get d key)) same.conversations
    ∙ sym (conversation-found (keep m key after) key)
    ∙ kept m key after

load_history-Quiet :
    (m : ChatModel) (key : String) (messages : List Message)
    → Quiet m
    → Quiet (load_history m key messages)
unfolding load_history
load_history-Quiet m key messages q =
    let c : Conversation = record (conversation m key) { messages = messages } in
    Same-Quiet (emit-Same (keep m key c) _) (keep-Quiet m key c q (λ a. q.nothing_unread key a))

set_receipt-Quiet :
    (m : ChatModel) (key id state : String) → Quiet m → Quiet (set_receipt m key id state)
unfolding set_receipt
set_receipt-Quiet m key id state q = go (get m.conversations key) refl
  where
    moved :
        (c : Conversation) (o : Option (List Message))
        → (m.active ≡ some key → c.unread ≡ 0)
        → Quiet (moved_in m key c o (receipt_changed key id state))
    moved c none h = q
    moved c (some ms) h =
        let d : Conversation = record c { messages = ms } in
        Same-Quiet (emit-Same (keep m key d) _) (keep-Quiet m key d q h)

    go :
        (o : Option Conversation)
        → get m.conversations key ≡ o
        → Quiet (elim o [
          | none ↦ m
          | some c ↦
              moved_in m key c (move_forward c.messages id state) (receipt_changed key id state)
        ])
    go none e = q
    go (some c) e = moved c (move_forward c.messages id state) (λ a.
        ap (λ (x : Conversation). x.unread) (sym (conversation-found m key ∙ ap (found key) e))
        ∙ q.nothing_unread key a)

mark_read-done : (c : Conversation) → (mark_read c).0.unread ≡ 0
unfolding mark_read
mark_read-done c = ground arith

select-Quiet : (m : ChatModel) (choice : Option String) → Quiet (select m choice)
unfolding select
select-Quiet m none = record { nothing_unread = λ k e. absurd (cc) }
select-Quiet m (some key) =
    let shown : ChatModel =
      emit (record m { active = some key }) (conversation_selected (some key)) in
    go shown (mark_read (conversation shown key)) refl (mark_read-done (conversation shown key))
  where
    at_key :
        (n : ChatModel) (c : Conversation)
        → n.active ≡ some key
        → c.unread ≡ 0
        → Quiet (keep n key c)
    at_key n c a z = record {
      nothing_unread = λ k e.
          let same : key ≡ k = cc in
          subst (λ x. (conversation (keep n key c) x).unread ≡ 0) same
            (ap (λ (x : Conversation). x.unread) (kept n key c) ∙ z);
    }

    go :
        (n : ChatModel) (r : Conversation × Bool)
        → n.active ≡ some key
        → r.0.unread ≡ 0
        → Quiet (read_now n key r)
    go n (c, true) a z = Same-Quiet (emit-Same (keep n key c) _) (at_key n c a z)
    go n (c, false) a z = at_key n c a z

-- What happens to the conversations.
pub data Action : Type 0 where
  arrives : String → Message → Action
  loaded : String → List Message → Action
  reported : String → String → String → Action
  selected : Option String → Action

abbrev pub act : ChatModel → Action → ChatModel
act m (arrives key message) = add_message m key message
act m (loaded key messages) = load_history m key messages
act m (reported key id state) = set_receipt m key id state
act m (selected choice) = select m choice

pub act_all : ChatModel → List Action → ChatModel
act_all m [] = m
act_all m (a ∷ as') = act_all (act m a) as'

act-Quiet : (m : ChatModel) (a : Action) → Quiet m → Quiet (act m a)
act-Quiet m (arrives key message) q = add_message-Quiet m key message q
act-Quiet m (loaded key messages) q = load_history-Quiet m key messages q
act-Quiet m (reported key id state) q = set_receipt-Quiet m key id state q
act-Quiet m (selected choice) q = select-Quiet m choice

-- Whatever messages arrive or are loaded, whatever receipts come and whatever conversations are put on
-- screen, in any order: the conversation on screen has an unread count of zero, if it had at the start.
pub act_all-Quiet : (m : ChatModel) (as' : List Action) → Quiet m → Quiet (act_all m as')
unfolding act_all
act_all-Quiet m [] q = q
act_all-Quiet m (a ∷ as') q = act_all-Quiet (act m a) as' (act-Quiet m a q)
