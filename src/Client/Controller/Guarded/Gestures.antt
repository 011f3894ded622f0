-- ===== src/Client/Controller/Guarded/Gestures.antt =====
-- ChatController: every gesture keeps the keyring, and sends no body in the clear.
use socket_to_ciphertext.Prelude.{
  ℤ, String, ◌≡◌, refl, sym, ap, subst, ◌∙◌, inl, inr, Bool, true, false, not, ◌||◌, false≢true,
  Option, none, some, List, [], ◌∷◌, ◌++◌, All, contains, eq_refl, if◌then◌else◌,
}
use socket_to_ciphertext.Prelude.Assoc.{Dict, get, has, put, keys}
use socket_to_ciphertext.Wire.Frame.{Frame}
use socket_to_ciphertext.Crypto.Primitives.{Bytes}
use socket_to_ciphertext.Crypto.Keyring.{
  Keyring, Sealed, sealed, no_key, sealing_failed, Envelopes, envelopes, incomplete, failed,
  seal_for, seal_for_members, everyone, missing_keys,
}
use socket_to_ciphertext.Crypto.Keyring.Cache.{Coherent}
use socket_to_ciphertext.Crypto.Keyring.Uses.{seal_for-Kept, seal_for_members-Kept}
use socket_to_ciphertext.Crypto.Keyring.Members.{contains-everyone}
use socket_to_ciphertext.Crypto.Keyring.Sealing.{
  SealedBy, seal_for-SealedBy, seal_for_members-SealedBy,
}
use socket_to_ciphertext.Client.Chat
use socket_to_ciphertext.Client.Requests
use socket_to_ciphertext.Client.Controller.{Outside, Controller, return, each, submit}
use socket_to_ciphertext.Client.Controller.Gestures.{
  listed, with_keyring, is_empty, ask_key, hold, post, held_back, room_sealed, send_to_room,
  person_sealed, send_to_person, others,
}
use socket_to_ciphertext.Client.Controller.Guarded.{
  IsSealed, HasRing, Guarded, Preserves, bind-Preserves, then-Preserves, when-Preserves,
  each-Preserves, submit-Preserves, request-Preserves, HasRing-Kept,
}

module _ (o : Outside) (i : Bytes) where
  pub ask_key-Preserves : (user : String) → Preserves o i (ask_key o user)
  ask_key-Preserves user = request-Preserves o i (Requests.get_key user) (λ id ts. refl)

  hold-Preserves :
      (target text : String) (fetch : List String) → Preserves o i (hold o target text fetch)
  unfolding hold
  hold-Preserves target text fetch c g =
      when-Preserves o i (not (has c.held target)) (each (ask_key o) fetch)
        (each-Preserves o i (ask_key o) fetch ask_key-Preserves)
        (record c { held = put c.held target (listed (get c.held target) ++ text ∷ []) }) g

  held_back-Preserves :
      (target text : String) (fetch : List String) → Preserves o i (held_back o target text fetch)
  held_back-Preserves target text fetch =
      then-Preserves o i (hold o target text fetch) (return none) (hold-Preserves target text fetch)
        (λ c g. g)

  post-Preserves :
      (target body : String) (nonce : Option String) (envs : Dict (String × String))
      → ((id : String) (ts : ℤ) → IsSealed o i (Requests.message target body nonce envs id ts))
      → Preserves o i (post o target body nonce envs)
  post-Preserves target body nonce envs h =
      bind-Preserves o i (submit o (Requests.message target body nonce envs)) (λ f. return (some f))
        (submit-Preserves o i (Requests.message target body nonce envs) h) (λ f c g. g)

  members_frame-IsSealed :
      (r : Keyring) (room text me : String) (members : List String) (d : Dict (String × String))
      → HasRing o i (some r)
      → (seal_for_members o.primitives r members text me).1 ≡ envelopes d
      → (id : String) (ts : ℤ) → IsSealed o i (Requests.message room "" none d id ts)
  unfolding Requests.message
  members_frame-IsSealed r room text me members d ring h id ts =
      by_entries d (entries.0) (entries.1)
    where
      same : r ≡ ring.ring
      same = cc

      coherent : Coherent o.primitives r
      coherent = subst (Coherent o.primitives) (sym same) ring.coherent

      entries :
          All (λ (e : String × (String × String)). SealedBy o.primitives i text me e.1) d
          × (keys d ≡ everyone members me)
      entries =
          subst
            (λ (j : Bytes).
              All (λ (e : String × (String × String)). SealedBy o.primitives j text me e.1) d
              × (keys d ≡ everyone members me))
            (ap (λ (x : Keyring). x.identity) same ∙ ring.own)
            (seal_for_members-SealedBy o.primitives r members text me d coherent h)

      by_entries :
          (e : Dict (String × String))
          → All (λ (x : String × (String × String)). SealedBy o.primitives i text me x.1) e
          → keys e ≡ everyone members me
          → IsSealed o i (Requests.message room "" none e id ts)
      by_entries [] all k = absurd (
          false≢true (
            ap (λ (l : List String). contains l me) k
            ∙ contains-everyone o.primitives members me me
            ∙ ap (λ b. b || contains members me) (eq_refl me)))
      by_entries (x ∷ e) all k = inr (inr (text, me, x ∷ e, all, refl, refl))

  room_sealed-Preserves :
      (r : Keyring) (room text me : String) (members : List String) (x : Keyring × Envelopes)
      → HasRing o i (some r)
      → HasRing o i (some x.0)
      → ((d : Dict (String × String))
          → x.1 ≡ envelopes d
          → (id : String) (ts : ℤ) → IsSealed o i (Requests.message room "" none d id ts))
      → Preserves o i (room_sealed o room members text x)
  room_sealed-Preserves r room text me members (s, envelopes d) ring after h c g =
      post-Preserves room "" none d (h d refl) (with_keyring c s) (after, g.1)
  room_sealed-Preserves r room text me members (s, incomplete) ring after h c g =
      held_back-Preserves room text members (with_keyring c s) (after, g.1)
  room_sealed-Preserves r room text me members (s, failed) ring after h c g = (after, g.1)

  pub send_to_room-Preserves :
      (r : Keyring) (room text me : String)
      → HasRing o i (some r)
      → Preserves o i (send_to_room o r room text me)
  unfolding send_to_room
  send_to_room-Preserves r room text me ring c g = by_missing (is_empty missing)
    where
      members : List String
      members = Chat.room_members c.model room

      missing : List String
      missing = missing_keys r (others o members me)

      x : Keyring × Envelopes
      x = seal_for_members o.primitives r members text me

      by_missing :
          (b : Bool)
          → Guarded o i
              (if◌then◌else◌ {A = Controller × Option (Option Frame)} b
                (room_sealed o room members text x c)
                (held_back o room text missing c)).0
      by_missing true =
          room_sealed-Preserves r room text me members x ring
            (HasRing-Kept o i r x.0 ring (seal_for_members-Kept o.primitives r members text me))
            (λ d h. members_frame-IsSealed r room text me members d ring h) c g
      by_missing false = held_back-Preserves room text missing c g

  person_sealed-Preserves :
      (target text : String) (x : Keyring × Sealed)
      → HasRing o i (some x.0)
      → ((b n : String)
          → x.1 ≡ sealed b n
          → (id : String) (ts : ℤ) → IsSealed o i (Requests.message target b (some n) [] id ts))
      → Preserves o i (person_sealed o target text x)
  person_sealed-Preserves target text (s, sealed b n) after h c g =
      post-Preserves target b (some n) [] (h b n refl) (with_keyring c s) (after, g.1)
  person_sealed-Preserves target text (s, no_key) after h c g =
      held_back-Preserves target text (target ∷ []) (with_keyring c s) (after, g.1)
  person_sealed-Preserves target text (s, sealing_failed) after h c g = (after, g.1)

  pub send_to_person-Preserves :
      (r : Keyring) (target text me : String)
      → HasRing o i (some r)
      → Preserves o i (send_to_person o r target text me)
  unfolding send_to_person Requests.message
  send_to_person-Preserves r target text me ring =
      person_sealed-Preserves target text (seal_for o.primitives r target text me)
        (HasRing-Kept o i r (seal_for o.primitives r target text me).0 ring
          (seal_for-Kept o.primitives r target text me))
        (λ b n h id ts. inr (inl (text, me, (b, n), by b n h, refl, refl)))
    where
      same : r ≡ ring.ring
      same = cc

      by :
          (b n : String)
          → (seal_for o.primitives r target text me).1 ≡ sealed b n
          → SealedBy o.primitives i text me (b, n)
      by b n h =
          subst (λ (j : Bytes). SealedBy o.primitives j text me (b, n))
            (ap (λ (x : Keyring). x.identity) same ∙ ring.own)
            (seal_for-SealedBy o.primitives r target text me b n
              (subst (Coherent o.primitives) (sym same) ring.coherent) h)
