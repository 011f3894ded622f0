-- ===== src/Client/Controller/Guarded/Inbound.antt =====
-- ChatController: an inbound message, or a key, keeps the keyring and sends no body in the clear.
use socket_to_ciphertext.Prelude.{
  ℤ, pos, negsuc, String, ◌≡◌, refl, sym, ap, subst, ◌∙◌, Bool, true, false, not, ◌&&◌, Option,
  none, some, arith, List, [], ◌∷◌, ◌++◌, ◌==◌, keep_if, eqb, if◌then◌else◌,
}
use socket_to_ciphertext.Prelude.Assoc.{Dict, get, has, put, pop, keys}
use socket_to_ciphertext.Wire.Value.{Value, truthy, or_null}
use socket_to_ciphertext.Wire.Frame.{Frame}
use socket_to_ciphertext.Server.Env.{py_str}
use socket_to_ciphertext.Crypto.Primitives.{Bytes}
use socket_to_ciphertext.Crypto.Envelope.{Body, plain, decryption_failed, not_utf8, bad_key}
use socket_to_ciphertext.Crypto.Keyring.{Keyring, remember, open_from}
use socket_to_ciphertext.Crypto.Keyring.Cache.{Coherent}
use socket_to_ciphertext.Crypto.Keyring.Uses.{open_from-Kept, remember-Coherent}
use socket_to_ciphertext.Client.Chat
use socket_to_ciphertext.Client.Requests
use socket_to_ciphertext.Client.Controller.{
  Outside, Controller, Action, ◌>>=◌, ◌>>◌, return, when, attempt, update, request,
}
use socket_to_ciphertext.Client.Controller.Gestures.{
  is_room, listed, or_else, with_keyring, is_named, ask_key, release,
}
use socket_to_ciphertext.Client.Controller.Inbound.{
  filled, text_or, room_or, read_clock, readable, open_by, plaintext, ts_or_now, file, lacks_key,
  await_key, incoming_message, deliver_awaiting, all_known, release_room, release_rooms, learn, key,
  each_result, with_list,
}
use socket_to_ciphertext.Client.Controller.Guarded.{
  HasRing, Guarded, Preserves, bind-Preserves, then-Preserves, when-Preserves, attempt-Preserves,
  each-Preserves, request-Preserves, HasRing-Kept,
}
use socket_to_ciphertext.Client.Controller.Guarded.Gestures.{ask_key-Preserves}
use socket_to_ciphertext.Client.Controller.Guarded.Sending.{if-Guarded, release-Preserves}

identity-remember :
    (r : Keyring) (user pubkey : String) → (remember r user pubkey).identity ≡ r.identity
unfolding remember
identity-remember r user pubkey = ground arith

module _ (o : Outside) (i : Bytes) where
  pub each_result-Preserves :
      {A B : Type 0} (f : A → Action B) (l : List A)
      → ((a : A) → Preserves o i (f a))
      → Preserves o i (each_result f l)
  each_result-Preserves f [] h c g = g
  each_result-Preserves f (a ∷ l) h c g =
      bind-Preserves o i (f a) (λ b. each_result f l >>= λ bs. return (b ∷ bs)) (h a)
        (λ b.
          bind-Preserves o i (each_result f l) (λ bs. return (b ∷ bs)) (each_result-Preserves f l h)
            (λ bs d k. k))
        c g

  pub with_list-Preserves :
      {A : Type 0} (l : Option (List Value)) (f : List Value → Action A)
      → ((vs : List Value) → Preserves o i (f vs))
      → Preserves o i (with_list l f)
  with_list-Preserves none f h c g = g
  with_list-Preserves (some vs) f h c g = h vs c g

  readable-Guarded :
      (c : Controller) (x : Keyring × Body)
      → Guarded o i (with_keyring c x.0)
      → Guarded o i (readable o c x).0
  readable-Guarded c (r, plain s) g = g
  readable-Guarded c (r, decryption_failed) g = g
  readable-Guarded c (r, not_utf8) g = g
  readable-Guarded c (r, bad_key) g = g

  pub open_by-Preserves :
      (k : Option Keyring) (peer body nonce author : String)
      → HasRing o i k
      → Preserves o i (open_by o k peer body nonce author)
  open_by-Preserves none peer body nonce author ring c g = g
  open_by-Preserves (some r) peer body nonce author ring c g =
      let x = open_from o.primitives r peer body nonce author in
      if-Guarded o i (nonce == "") (c, some body) (readable o c x) g
        (readable-Guarded c x
          (HasRing-Kept o i r x.0 ring (open_from-Kept o.primitives r peer body nonce author), g.1))

  plaintext-Preserves : (f : Frame) (peer : String) → Preserves o i (plaintext o f peer)
  unfolding plaintext
  plaintext-Preserves f peer c g =
      open_by-Preserves c.keyring peer (text_or f.body) (text_or f.nonce) (text_or f.sender) g.0 c g

  ts_or_now-Preserves : (ts : ℤ) → Preserves o i (ts_or_now o ts)
  ts_or_now-Preserves (pos n) c g = by_test (eqb n 0)
    where
      by_test : (b : Bool) → Guarded o i ((if b then read_clock o else return (pos n)) c).0
      by_test true = g
      by_test false = g
  ts_or_now-Preserves (negsuc n) c g = g

  file-Preserves : (f : Frame) (k : String) → Preserves o i (file o f k)
  unfolding file
  file-Preserves f k =
      bind-Preserves o i (when told (attempt asked) >> plaintext o f (or_else f.sender k))
        (λ body. ts_or_now o f.ts >>= λ ts. shows body ts)
        (then-Preserves o i (when told (attempt asked)) (plaintext o f (or_else f.sender k))
          (when-Preserves o i told (attempt asked) (
            attempt-Preserves o i asked (
              request-Preserves o i (Requests.receipt (text_or f.sender) f.id "DELIVERED")
                (λ id ts. refl))))
          (plaintext-Preserves f (or_else f.sender k)))
        (λ body.
          bind-Preserves o i (ts_or_now o f.ts) (shows body) (ts_or_now-Preserves f.ts)
            (λ ts c g. g))
    where
      told : Bool
      told = filled f.sender && not (is_room k)

      asked : Action (Unit {0})
      asked = request o (Requests.receipt (text_or f.sender) f.id "DELIVERED")

      shows : String → ℤ → Action (Unit {0})
      shows body ts = update (λ m. Chat.add_message m k (record {
        id = f.id;
        sender = or_else f.sender "?";
        body = body;
        ts = ts;
        mine = false;
        state = "SENT";
      }))

  await_key-Preserves : (peer : String) (f : Frame) → Preserves o i (await_key o peer f)
  unfolding await_key
  await_key-Preserves peer f c g =
      when-Preserves o i (not (has c.awaiting peer)) (ask_key o peer) (ask_key-Preserves o i peer)
        (record c { awaiting = put c.awaiting peer (listed (get c.awaiting peer) ++ f ∷ []) }) g

  pub incoming_message-Preserves : (f : Frame) → Preserves o i (incoming_message o f)
  unfolding incoming_message
  incoming_message-Preserves f c g =
      let k = room_or (text_or f.to) (or_else f.sender (text_or f.to)) in
      let peer = or_else f.sender k in
      let waits =
        filled f.nonce && not (is_named c.model.username peer) && lacks_key o c.keyring peer in
      if-Guarded o i (k == "") (c, some tt) (if waits then await_key o peer f c else file o f k c) g
        (if-Guarded o i waits (await_key o peer f c) (file o f k c) (await_key-Preserves peer f c g)
          (file-Preserves f k c g))

  deliver_awaiting-Preserves : (user : String) → Preserves o i (deliver_awaiting o user)
  unfolding deliver_awaiting
  deliver_awaiting-Preserves user c g =
      each-Preserves o i (λ (f : Frame). file o f (room_or (text_or f.to) user))
        (listed (get c.awaiting user)) (λ f. file-Preserves f (room_or (text_or f.to) user))
        (record c { awaiting = pop c.awaiting user }) g

  release_room-Preserves : (room : String) → Preserves o i (release_room o room)
  unfolding release_room
  release_room-Preserves room c g =
      when-Preserves o i (all_known o c room c.keyring) (release o room)
        (release-Preserves o i room) c g

  remembers-HasRing :
      (r : Keyring) (user pubkey : String)
      → HasRing o i (some r)
      → HasRing o i (some (remember r user pubkey))
  remembers-HasRing r user pubkey h =
      let same : r ≡ h.ring = cc in
      record {
        ring = remember r user pubkey;
        present = refl;
        coherent =
            remember-Coherent o.primitives r user pubkey
              (subst (Coherent o.primitives) (sym same) h.coherent);
        own = identity-remember r user pubkey ∙ ap (λ (y : Keyring). y.identity) same ∙ h.own;
      }

  learn-Preserves :
      (user pubkey : String) (k : Option Keyring)
      → HasRing o i k
      → Preserves o i (learn o user pubkey k)
  learn-Preserves user pubkey none ring c g = g
  learn-Preserves user pubkey (some r) ring c g =
      then-Preserves o i (release o user >> deliver_awaiting o user) (release_rooms o)
        (then-Preserves o i (release o user) (deliver_awaiting o user) (release-Preserves o i user)
          (deliver_awaiting-Preserves user))
        (λ d h.
          each-Preserves o i (release_room o) (keep_if is_room (keys d.held)) release_room-Preserves
            d h)
        (with_keyring c (remember r user pubkey)) (remembers-HasRing r user pubkey ring, g.1)

  pub key-Preserves : (payload : Dict Value) → Preserves o i (key o payload)
  unfolding key
  key-Preserves payload c g =
      let user = or_null (get payload "user") in
      let pubkey = or_null (get payload "pubkey") in
      if-Guarded o i (truthy user && truthy pubkey)
        (learn o (py_str o.env user) (py_str o.env pubkey) c.keyring c) (c, some tt)
        (learn-Preserves (py_str o.env user) (py_str o.env pubkey) c.keyring g.0 c g) g
