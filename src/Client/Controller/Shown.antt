-- ===== src/Client/Controller/Shown.antt =====
-- ChatController: an inbound message whose key is here is shown as it was written.
use socket_to_ciphertext.Prelude.{
  ℕ, suc, ℤ, pos, negsuc, String, ◌≡◌, refl, sym, ap, subst, ◌∙◌, Bool, true, false, not, ◌&&◌,
  Option, none, some, [], ◌∷◌, ◌++◌, ◌==◌, eqb, eq_iff, if◌then◌else◌,
}
use socket_to_ciphertext.Prelude.Assoc.{get, has_of_get}
use socket_to_ciphertext.Wire.Frame.{Frame}
use socket_to_ciphertext.Crypto.Envelope.{Body, plain, decryption_failed, not_utf8, bad_key}
use socket_to_ciphertext.Crypto.Keyring.{Keyring, knows, open_from}
use socket_to_ciphertext.Client.Conversation
use socket_to_ciphertext.Client.Conversation.{Message, Conversation}
use socket_to_ciphertext.Client.Chat
use socket_to_ciphertext.Client.Chat.{ChatModel, conversation, is_active}
use socket_to_ciphertext.Client.Chat.Unread.{conversation-add_message}
use socket_to_ciphertext.Client.Requests
use socket_to_ciphertext.Client.Controller.{
  Outside, Controller, Action, continue, ◌>>=◌, return, skip, when, attempt, swallowed, update,
  submit, request,
}
use socket_to_ciphertext.Client.Controller.Gestures.{is_room, or_else, is_named}
use socket_to_ciphertext.Client.Controller.Inbound.{
  filled, text_or, room_or, readable, open_by, plaintext, read_clock, ts_or_now, file, lacks_key,
  await_key, incoming_message,
}

add_message-messages :
    (m : ChatModel) (key : String) (x : Message)
    → (conversation (Chat.add_message m key x) key).messages
      ≡ (conversation m key).messages ++ x ∷ []
unfolding Conversation.add
add_message-messages m key x =
    ap (λ (c : Conversation). c.messages) (conversation-add_message m key x)

module _ (o : Outside) where
  -- The conversation with the author has one message more, not one's own, which reads as the text.
  pub record Shows (c : Controller) (author text : String) (x : Controller × Option (Unit {0}))
      : Type 0 where
    pub returned : x.1 ≡ some tt
    pub message : Message
    pub reads : message.body ≡ text
    pub from_author : message.sender ≡ author
    pub not_own : message.mine ≡ false
    pub added :
        (conversation x.0.model author).messages
        ≡ (conversation c.model author).messages ++ message ∷ []

  -- The receipt that comes first changes neither the keyring nor the model.
  record Untouched (c d : Controller) : Type 0 where
    same_ring : d.keyring ≡ c.keyring
    same_model : d.model ≡ c.model

  submit-Untouched : (make : String → ℤ → Frame) (c : Controller) → Untouched c (submit o make c).0
  unfolding submit
  submit-Untouched make c = by_answer (o.takes c.calls)
    where
      f : Frame
      f = make (o.env.new_id c.calls) (pos (o.env.now_ms c.calls))

      by_answer :
          (b : Bool)
          → Untouched c
              (if◌then◌else◌ {A = Controller × Option Frame} b
                (record c { sent = c.sent ++ f ∷ []; calls = suc c.calls }, some f)
                (record c { calls = suc c.calls }, none)).0
      by_answer true = record { same_ring = refl; same_model = refl }
      by_answer false = record { same_ring = refl; same_model = refl }

  -- An attempt to send returns, whether the connection took the frame or not.
  attempt-Untouched :
      (make : String → ℤ → Frame) (c : Controller) (next : Controller × Option (Unit {0}) → Type 0)
      → ((d : Controller) → Untouched c d → next (d, some tt))
      → next (attempt (request o make) c)
  attempt-Untouched make c next h = by_result (submit o make c) (submit-Untouched make c)
    where
      by_result :
          (x : Controller × Option Frame)
          → Untouched c x.0
          → next (swallowed (continue x (λ f. skip)))
      by_result (d, none) u = h d u
      by_result (d, some f) u = h d u

  -- What is read out of a frame is shown.
  read-Shows :
      (c d : Controller) (f : Frame) (author text : String) (x : Controller × Option String)
      → Untouched c d
      → f.sender ≡ some author
      → (author == "") ≡ false
      → x.1 ≡ some text
      → x.0.model ≡ d.model
      → Shows c author text (
          continue x (λ body. ts_or_now o f.ts >>= λ ts. update (λ m.
            Chat.add_message m author (record {
              id = f.id;
              sender = or_else f.sender "?";
              body = body;
              ts = ts;
              mine = false;
              state = "SENT";
            }))))
  read-Shows c d f author text (e, none) u from named r same = absurd (cc)
  read-Shows c d f author text (e, some body) u from named r same = by_ts f.ts
    where
      shown : ℤ → Message
      shown ts = record {
        id = f.id;
        sender = or_else f.sender "?";
        body = body;
        ts = ts;
        mine = false;
        state = "SENT";
      }

      shows :
          (k : Controller) (ts : ℤ)
          → k.model ≡ e.model
          → Shows c author text (update (λ m. Chat.add_message m author (shown ts)) k)
      shows k ts s = record {
        returned = refl;
        message = shown ts;
        reads = cc;
        from_author =
            ap (λ (a : Option String). or_else a "?") from
            ∙ ap (λ b. if b then "?" else author) named;
        not_own = refl;
        added =
            add_message-messages k.model author (shown ts)
            ∙ ap (λ (m : ChatModel). (conversation m author).messages ++ shown ts ∷ [])
                (s ∙ same ∙ u.same_model);
      }

      by_zero :
          (n : ℕ) (b : Bool)
          → Shows c author text (
              ((if◌then◌else◌ {A = Action ℤ} b (read_clock o) (return (pos n))) >>= λ ts.
              update (λ m. Chat.add_message m author (shown ts)))
                e)
      by_zero n true = shows (record e { calls = suc e.calls }) _ refl
      by_zero n false = shows e (pos n) refl

      by_ts :
          (ts : ℤ)
          → Shows c author text
              ((ts_or_now o ts >>= λ t. update (λ m. Chat.add_message m author (shown t))) e)
      by_ts (pos n) = by_zero n (eqb n 0)
      by_ts (negsuc n) = shows e (negsuc n) refl

  module _ (r : Keyring) (f : Frame) (author text body nonce pk : String)
      (from : f.sender ≡ some author) (named : (author == "") ≡ false)
      (has_body : f.body ≡ some body) (has_nonce : f.nonce ≡ some nonce)
      (sealed : (nonce == "") ≡ false)
      (opens : (open_from o.primitives r author body nonce author).1 ≡ plain text) where
    or_else-author : (s : String) → or_else f.sender s ≡ author
    or_else-author s =
        ap (λ (a : Option String). or_else a s) from ∙ ap (λ b. if b then s else author) named

    text_or-same : (x : Option String) (s : String) → x ≡ some s → text_or x ≡ s
    text_or-same x s e = ap text_or e ∙ by_test (s == "") refl
      where
        by_test : (b : Bool) → (s == "") ≡ b → (if b then "" else s) ≡ s
        by_test true h = sym ((eq_iff s "").0 h)
        by_test false h = refl

    readable-text :
        (d : Controller) (x : Keyring × Body)
        → x.1 ≡ plain text
        → ((readable o d x).1 ≡ some text) × ((readable o d x).0.model ≡ d.model)
    readable-text d (s, plain t) e = let q : t ≡ text = cc in (ap (λ (z : String). some z) q, refl)
    readable-text d (s, decryption_failed) e = absurd (cc)
    readable-text d (s, not_utf8) e = absurd (cc)
    readable-text d (s, bad_key) e = absurd (cc)

    -- What `_plaintext` gives for the frame.
    plaintext-text :
        (d : Controller)
        → d.keyring ≡ some r
        → ((plaintext o f author d).1 ≡ some text) × ((plaintext o f author d).0.model ≡ d.model)
    unfolding plaintext
    plaintext-text d ring =
        subst (λ (x : Controller × Option String). (x.1 ≡ some text) × (x.0.model ≡ d.model))
          (sym (by_ring ∙ by_body ∙ by_nonce ∙ by_author ∙ by_sealed))
          (readable-text d (open_from o.primitives r author body nonce author) opens)
      where
        by_ring :
            plaintext o f author d
            ≡ open_by o (some r) author (text_or f.body) (text_or f.nonce) (text_or f.sender) d
        by_ring =
            ap
              (λ (k : Option Keyring).
                open_by o k author (text_or f.body) (text_or f.nonce) (text_or f.sender) d)
              ring

        by_body :
            open_by o (some r) author (text_or f.body) (text_or f.nonce) (text_or f.sender) d
            ≡ open_by o (some r) author body (text_or f.nonce) (text_or f.sender) d
        by_body =
            ap (λ (x : String). open_by o (some r) author x (text_or f.nonce) (text_or f.sender) d)
              (text_or-same f.body body has_body)

        by_nonce :
            open_by o (some r) author body (text_or f.nonce) (text_or f.sender) d
            ≡ open_by o (some r) author body nonce (text_or f.sender) d
        by_nonce =
            ap (λ (x : String). open_by o (some r) author body x (text_or f.sender) d)
              (text_or-same f.nonce nonce has_nonce)

        by_author :
            open_by o (some r) author body nonce (text_or f.sender) d
            ≡ open_by o (some r) author body nonce author d
        by_author =
            ap (λ (x : String). open_by o (some r) author body nonce x d)
              (text_or-same f.sender author from)

        by_sealed :
            open_by o (some r) author body nonce author d
            ≡ readable o d (open_from o.primitives r author body nonce author)
        by_sealed =
            ap
              (λ b.
                if b
                then (d, some body)
                else readable o d (open_from o.primitives r author body nonce author))
              sealed

    file-Shows : (c : Controller) → c.keyring ≡ some r → Shows c author text (file o f author c)
    unfolding file
    file-Shows c ring = by_told (filled f.sender && not (is_room author))
      where
        asks : String → ℤ → Frame
        asks = Requests.receipt (text_or f.sender) f.id "DELIVERED"

        after : Controller → Controller × Option (Unit {0})
        after d = continue (plaintext o f (or_else f.sender author) d) (λ read.
            ts_or_now o f.ts >>= λ ts. update (λ m. Chat.add_message m author (record {
              id = f.id;
              sender = or_else f.sender "?";
              body = read;
              ts = ts;
              mine = false;
              state = "SENT";
            })))

        then_Shows : (d : Controller) → Untouched c d → Shows c author text (after d)
        then_Shows d u =
            let read =
              subst
                (λ (a : String).
                  ((plaintext o f a d).1 ≡ some text) × ((plaintext o f a d).0.model ≡ d.model))
                (sym (or_else-author author)) (plaintext-text d (u.same_ring ∙ ring)) in
            read-Shows c d f author text (plaintext o f (or_else f.sender author) d) u from named
              read.0 read.1

        by_told :
            (b : Bool)
            → Shows c author text (
                continue
                  (continue
                    (when b (attempt (request o asks)) c)
                    (λ u. plaintext o f (or_else f.sender author)))
                  (λ read. ts_or_now o f.ts >>= λ ts. update (λ m.
                    Chat.add_message m author (record {
                      id = f.id;
                      sender = or_else f.sender "?";
                      body = read;
                      ts = ts;
                      mine = false;
                      state = "SENT";
                    }))))
        by_told true =
            attempt-Untouched asks c
              (λ x. Shows c author text (
                continue (continue x (λ u. plaintext o f (or_else f.sender author))) (λ read.
                  ts_or_now o f.ts >>= λ ts. update (λ m. Chat.add_message m author (record {
                    id = f.id;
                    sender = or_else f.sender "?";
                    body = read;
                    ts = ts;
                    mine = false;
                    state = "SENT";
                  })))))
              then_Shows
        by_told false = then_Shows c (record { same_ring = refl; same_model = refl })

    -- A direct message whose author's key is here is shown at once.
    pub incoming_message-Shows :
        (c : Controller)
        → c.keyring ≡ some r
        → get r.pubkeys author ≡ some pk
        → is_room (text_or f.to) ≡ false
        → Shows c author text (incoming_message o f c)
    unfolding incoming_message
    incoming_message-Shows c ring known person =
        subst (Shows c author text) (sym (by_key ∙ by_name ∙ by_ring ∙ by_known))
          (file-Shows c ring)
      where
        key : String
        key = room_or (text_or f.to) (or_else f.sender (text_or f.to))

        is_author : key ≡ author
        is_author =
            ap (λ b. if b then text_or f.to else or_else f.sender (text_or f.to)) person
            ∙ or_else-author (text_or f.to)

        decides : Option Keyring → String → Controller × Option (Unit {0})
        decides k a =
            if filled f.nonce
              && not (is_named c.model.username (or_else f.sender a))
              && lacks_key o k (or_else f.sender a)
            then await_key o (or_else f.sender a) f c
            else file o f a c

        by_key :
            incoming_message o f c
            ≡ (if author == "" then (c, some tt) else decides c.keyring author)
        by_key =
            ap (λ (a : String). if a == "" then (c, some tt) else decides c.keyring a) is_author

        by_name :
            (if author == "" then (c, some tt) else decides c.keyring author)
            ≡ decides c.keyring author
        by_name = ap (λ b. if b then (c, some tt) else decides c.keyring author) named

        by_ring : decides c.keyring author ≡ decides (some r) author
        by_ring = ap (λ (k : Option Keyring). decides k author) ring

        known_here : knows r (or_else f.sender author) ≡ true
        known_here =
            ap (λ (a : String). knows r a) (or_else-author author)
            ∙ has_of_get r.pubkeys author pk known

        by_and :
            (a b : Bool)
            → (if a && b && false
                then await_key o (or_else f.sender author) f c
                else file o f author c)
              ≡ file o f author c
        by_and true true = refl
        by_and true false = refl
        by_and false b = refl

        by_known : decides (some r) author ≡ file o f author c
        by_known =
            rw (known_here)
              (by_and (filled f.nonce) (not (is_named c.model.username (or_else f.sender author))))
