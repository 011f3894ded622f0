-- ===== src/Client/Connection/Replies.antt =====
-- ServerConnection: a request gets the first reply of a type it waits for, and the listener the rest.
use socket_to_ciphertext.Prelude.{
  ◌≡◌, refl, ap, sym, subst, ◌∙◌, Bool, true, false, Option, none, some, List, [], ◌∷◌, ◌++◌,
  append_assoc, append-nil, All, any, length, ltb, if◌then◌else◌,
}
use socket_to_ciphertext.Wire.Frame.{Frame, MessageType}
use socket_to_ciphertext.Client.Connection.{
  Connection, frame, outbox_limit, same_type, is_pong, deliver, ask, collect, Reply, answered,
  timed_out, taken_from,
}

-- The frames that the reader thread hands over, in order.
unfoldable pub deliver_all : Connection → List Frame → Connection
unfolding deliver
deliver_all c [] = c
deliver_all c (f ∷ fs) = deliver_all (deliver c f) fs

-- Whether a frame is of one of the types.
abbrev pub is_one_of : List MessageType → Frame → Bool
is_one_of expecting f = any (λ t. same_type f.type t) expecting

-- The slot and the listener.
record At (c : Connection) (waits : List MessageType) (slot : Option Frame) (ready : Bool)
    (heard : List Frame) : Type 0 where
  types : c.await_types ≡ waits
  reply : c.reply ≡ slot
  woken : c.reply_ready ≡ ready
  listener : c.heard ≡ heard

alive-At :
    (b : Bool) (c : Connection) (waits : List MessageType) (slot : Option Frame) (ready : Bool)
    (f : Frame) (heard : List Frame)
    → At c waits slot ready heard
    → At
        (record (if b then record c { unanswered = 0 } else c) { heard = c.heard ++ f ∷ [] })
        waits
        slot
        ready
        (heard ++ f ∷ [])
alive-At true c waits slot ready f heard a = record {
  types = a.types;
  reply = a.reply;
  woken = a.woken;
  listener = ap (λ (l : List Frame). l ++ f ∷ []) a.listener;
}
alive-At false c waits slot ready f heard a = record {
  types = a.types;
  reply = a.reply;
  woken = a.woken;
  listener = ap (λ (l : List Frame). l ++ f ∷ []) a.listener;
}

filled-At :
    (b : Bool) (c : Connection) (f : Frame) (heard : List Frame)
    → c.heard ≡ heard
    → At
        (record (if b then record c { unanswered = 0 } else c) {
          reply = some f;
          await_types = [];
          reply_ready = true;
        })
        []
        (some f)
        true
        heard
filled-At true c f heard a = record { types = refl; reply = refl; woken = refl; listener = a }
filled-At false c f heard a = record { types = refl; reply = refl; woken = refl; listener = a }

-- A frame of another type goes to the listener.
other-At :
    (c : Connection) (waits : List MessageType) (slot : Option Frame) (ready : Bool)
    (heard : List Frame) (f : Frame)
    → At c waits slot ready heard
    → is_one_of waits f ≡ false
    → At (deliver c f) waits slot ready (heard ++ f ∷ [])
unfolding deliver
other-At c waits slot ready heard f a e =
    subst
      (λ (b : Bool).
        At
          (if b
            then record (if is_pong f then record c { unanswered = 0 } else c) {
              reply = some f;
              await_types = [];
              reply_ready = true;
            }
            else record (if is_pong f then record c { unanswered = 0 } else c) {
              heard = c.heard ++ f ∷ [];
            })
          waits slot ready (heard ++ f ∷ []))
      (sym (ap (λ (l : List MessageType). is_one_of l f) a.types ∙ e))
      (alive-At (is_pong f) c waits slot ready f heard a)

others-At :
    (c : Connection) (waits : List MessageType) (slot : Option Frame) (ready : Bool)
    (heard : List Frame) (fs : List Frame)
    → At c waits slot ready heard
    → All (λ (f : Frame). is_one_of waits f ≡ false) fs
    → At (deliver_all c fs) waits slot ready (heard ++ fs)
unfolding deliver_all
others-At c waits slot ready heard [] a h = subst (At c waits slot ready) (sym (append-nil heard)) a
others-At c waits slot ready heard (f ∷ fs) a h =
    subst (At (deliver_all (deliver c f) fs) waits slot ready) (append_assoc heard (f ∷ []) fs) (
      others-At (deliver c f) waits slot ready (heard ++ f ∷ []) fs
        (other-At c waits slot ready heard f a h.0) h.1)

-- The first frame of an awaited type fills the slot.
awaited-At :
    (c : Connection) (waits : List MessageType) (slot : Option Frame) (ready : Bool)
    (heard : List Frame) (f : Frame)
    → At c waits slot ready heard
    → is_one_of waits f ≡ true
    → At (deliver c f) [] (some f) true heard
unfolding deliver
awaited-At c waits slot ready heard f a e =
    subst
      (λ (b : Bool).
        At
          (if b
            then record (if is_pong f then record c { unanswered = 0 } else c) {
              reply = some f;
              await_types = [];
              reply_ready = true;
            }
            else record (if is_pong f then record c { unanswered = 0 } else c) {
              heard = c.heard ++ f ∷ [];
            })
          [] (some f) true heard)
      (sym (ap (λ (l : List MessageType). is_one_of l f) a.types ∙ e))
      (filled-At (is_pong f) c f heard a.listener)

none_awaited : (fs : List Frame) → All (λ (f : Frame). is_one_of [] f ≡ false) fs
none_awaited [] = tt
none_awaited (f ∷ fs) = (refl, none_awaited fs)

-- A request that the outbox has room for, then frames of other types, then one of an awaited type, then
-- any frames: the request returns that one, and the listener has got all the others in order, those of
-- an awaited type that came later included.
pub collect-ask :
    (c : Connection) (request reply : Frame) (expecting : List MessageType)
    (earlier later : List Frame)
    → ltb (length c.outbox) outbox_limit ≡ true
    → All (λ (f : Frame). is_one_of expecting f ≡ false) earlier
    → is_one_of expecting reply ≡ true
    → (let d =
          deliver_all (deliver (deliver_all (ask c request expecting).0 earlier) reply) later in
        ((collect d).1 ≡ answered reply) × ((collect d).0.heard ≡ c.heard ++ (earlier ++ later)))
unfolding ask collect
collect-ask c request reply expecting earlier later room others fits =
    ends (deliver_all (deliver (deliver_all (ask c request expecting).0 earlier) reply) later) (
      others-At (deliver (deliver_all (ask c request expecting).0 earlier) reply) [] (some reply)
        true (c.heard ++ earlier) later
        (awaited-At (deliver_all (ask c request expecting).0 earlier) expecting none false
          (c.heard ++ earlier) reply
          (others-At (ask c request expecting).0 expecting none false c.heard earlier asked others)
          fits)
        (none_awaited later))
  where
    asked : At (ask c request expecting).0 expecting none false c.heard
    asked =
        subst
          (λ (b : Bool).
            At
              (if◌then◌else◌ {A = Connection × Bool} b
                (
                  record c {
                    reply = none;
                    reply_ready = false;
                    await_types = expecting;
                    outbox = c.outbox ++ frame request ∷ [];
                  },
                  true,
                )
                (record c { reply = none; reply_ready = false; await_types = [] }, false)).0
              expecting none false c.heard)
          (sym room) (record { types = refl; reply = refl; woken = refl; listener = refl })

    ends :
        (d : Connection)
        → At d [] (some reply) true ((c.heard ++ earlier) ++ later)
        → ((collect d).1 ≡ answered reply) × ((collect d).0.heard ≡ c.heard ++ (earlier ++ later))
    ends d a =
        subst
          (λ (b : Bool).
            ((if◌then◌else◌ {A = Connection × Reply} b
                (record d { reply = none; await_types = [] }, taken_from d.reply)
                (record d { await_types = [] }, timed_out)).1
              ≡ answered reply)
            × ((if◌then◌else◌ {A = Connection × Reply} b
                  (record d { reply = none; await_types = [] }, taken_from d.reply)
                  (record d { await_types = [] }, timed_out)).0.heard
                ≡ c.heard ++ (earlier ++ later)))
          (sym a.woken) (ap taken_from a.reply, a.listener ∙ append_assoc c.heard earlier later)
