-- ===== src/Server/Router/Sending/Messages.antt =====
-- MSG, by the rules of `Sends`.
use socket_to_ciphertext.Prelude.{
  String, ◌≡◌, refl, ◌∙◌, Bool, true, false, not, Option, none, some, List, [], ◌∷◌, ◌==◌,
  if◌then◌else◌, inr, contains,
}
use socket_to_ciphertext.Prelude.Assoc.{Dict, get}
use socket_to_ciphertext.Prelude.Sort.{sorted}
use socket_to_ciphertext.Wire.Value.{Value, arr, nil, cons, or_null}
use socket_to_ciphertext.Wire.Frame.{Frame}
use socket_to_ciphertext.Server.Env.{Env}
use socket_to_ciphertext.Server.Registry.{Conn}
use socket_to_ciphertext.Server.Store.Rooms
use socket_to_ciphertext.Server.Store.Messages.{direct_conversation}
use socket_to_ciphertext.Server.Router.World.{World, Outcome, world, is_room, refuse}
use socket_to_ciphertext.Server.Router.Contacts.{note_contact, or_empty}
use socket_to_ciphertext.Server.Router.Delivery.{
  rebuilt, Taken, taken, refused, raised, record_row, record_envelopes, deliver_or_queue, reachable,
  to_user, sealed_copy, addressed_to, deliver_one, deliver_each, record_room, to_room, acknowledge,
  message,
}
use socket_to_ciphertext.Server.Router.Sending.{
  Sends, Sends-refl, Sends-trans, Sends-send, Sends-if, Sends-option,
}
use socket_to_ciphertext.Server.Router.Sending.Handlers.{
  Attributed, refuse-Sends, post-Sends, note_contact-Sends,
}
use socket_to_ciphertext.Server.Router.Sending.Recording.{record_row-Sends, queue-Sends}

module _ (env : Env) (me : String) where
  deliver_or_queue-Sends :
      (w : World) (o : Option Conn) (target : String) (f : Frame)
      → f.sender ≡ some me
      → Sends (Attributed me) w (deliver_or_queue env w o target f)
  unfolding Attributed
  deliver_or_queue-Sends w none target f h = queue-Sends env w target f.id
  deliver_or_queue-Sends w (some c) target f h = Sends-send w c f (inr h)

  pub sender-addressed_to :
      (outgoing f : Frame) (envelopes : Option (Dict Value)) (name : String)
      → addressed_to env outgoing envelopes name ≡ some f
      → f.sender ≡ outgoing.sender
  unfolding addressed_to
  sender-addressed_to outgoing f none name e = cc
  sender-addressed_to outgoing f (some envelopes) name e = go (or_null (get envelopes name)) e
    where
      go : (v : Value) → sealed_copy env outgoing v ≡ some f → f.sender ≡ outgoing.sender
      go (arr (cons body (cons nonce nil))) e = cc
      go _ e = cc

  deliver_one-Sends :
      (w : World) (outgoing : Frame) (envelopes : Option (Dict Value)) (name : String)
      → outgoing.sender ≡ some me
      → Sends (Attributed me) w (deliver_one env w me outgoing envelopes name)
  unfolding deliver_one Attributed
  deliver_one-Sends w outgoing envelopes name h =
      Sends-if (name == me) w _ _ (λ _. Sends-refl w)
        λ _.
          Sends-option (addressed_to env outgoing envelopes name) w _ _ (λ _. Sends-refl w)
            λ f e.
              Sends-option (get w.sessions name) w _ _ (λ _. queue-Sends env w name outgoing.id)
                λ c _. Sends-send w c f (inr (sender-addressed_to outgoing f envelopes name e ∙ h))

  deliver_each-Sends :
      (w : World) (outgoing : Frame) (envelopes : Option (Dict Value)) (names : List String)
      → outgoing.sender ≡ some me
      → Sends (Attributed me) w (deliver_each env w me outgoing envelopes names)
  unfolding deliver_each
  deliver_each-Sends w outgoing envelopes [] h = Sends-refl w
  deliver_each-Sends w outgoing envelopes (name ∷ names) h =
      Sends-trans (deliver_one-Sends w outgoing envelopes name h) (
        deliver_each-Sends (deliver_one env w me outgoing envelopes name) outgoing envelopes names
          h)

  -- What a helper answers, with the frame's author kept.
  Kept : World → Taken → Type 0
  Kept w (taken x) = Sends (Attributed me) w x
  Kept w (refused x) = Sends (Attributed me) w x
  Kept w raised = Unit

  Kept-if :
      (b : Bool) (w : World) (x y : Taken)
      → (b ≡ true → Kept w x)
      → (b ≡ false → Kept w y)
      → Kept w (if b then x else y)
  Kept-if true w x y h k = h refl
  Kept-if false w x y h k = k refl

  Kept-option :
      (o : Option World) (w : World) (f : World → World)
      → ((x : World) → o ≡ some x → Sends (Attributed me) w (f x))
      → Kept w (elim o [ none ↦ raised | some x ↦ taken (f x) ])
  unfolding Kept
  Kept-option none w f h = tt
  Kept-option (some x) w f h = h x refl

  Kept-refused :
      (w : World) (c : Conn) (code message : String)
      → Kept w (refused (refuse env w c code message))
  unfolding Kept
  Kept-refused w c code message = refuse-Sends env me w c code message

  to_user-Kept :
      (w : World) (c : Conn) (target : String) (outgoing : Frame)
      → outgoing.sender ≡ some me
      → Kept w (to_user env w c me target outgoing)
  unfolding to_user
  to_user-Kept w c target outgoing h =
      Kept-if (not (reachable env w target)) w _ _ (λ _. Kept-refused w c _ _)
        λ _.
          Kept-option
            (record_row env w outgoing (direct_conversation me target) target outgoing.body
              outgoing.nonce)
            w _
            λ x e.
              let y : World = note_contact env x me target in
              let z : World = note_contact env y target me in
              Sends-trans (record_row-Sends env w outgoing _ target _ _ x e) (
                Sends-trans (note_contact-Sends env me x me target) (
                  Sends-trans (note_contact-Sends env me y target me)
                    (deliver_or_queue-Sends z (get w.sessions target) target outgoing h)))

  record_room-Sends :
      (w : World) (outgoing : Frame) (room : String) (envelopes : Option (Dict Value)) (x : World)
      → record_room env w outgoing room envelopes ≡ some x
      → Sends (Attributed me) w x
  unfolding record_envelopes
  record_room-Sends w outgoing room none x e = record_row-Sends env w outgoing room room _ _ x e
  record_room-Sends w outgoing room (some envelopes) x e =
      record_row-Sends env w outgoing room room _ _ x e

  to_room-Kept :
      (w : World) (c : Conn) (room : String) (outgoing : Frame) (envelopes : Option (Dict Value))
      → outgoing.sender ≡ some me
      → Kept w (to_room env w c me room outgoing envelopes)
  unfolding to_room
  to_room-Kept w c room outgoing envelopes h =
      Kept-if (not (Rooms.exists w.rooms room)) w _ _ (λ _. Kept-refused w c _ _)
        λ _.
          Kept-if (not (contains (Rooms.members w.rooms room) me)) w _ _ (λ _. Kept-refused w c _ _)
            λ _. Kept-option (record_room env w outgoing room envelopes) w _ λ x e.
              Sends-trans (record_room-Sends w outgoing room envelopes x e)
                (deliver_each-Sends x outgoing envelopes (sorted (Rooms.members w.rooms room)) h)

  acknowledge-Sends :
      (w : World) (c : Conn) (ref : String) (t : Taken)
      → Kept w t
      → Sends (Attributed me) w (world (acknowledge env w c ref t))
  unfolding Kept
  acknowledge-Sends w c ref (taken x) h = Sends-trans h (post-Sends env me x c _ _ _)
  acknowledge-Sends w c ref (refused x) h = h
  acknowledge-Sends w c ref raised h = Sends-refl w

  -- The same for what a handler ends with.
  pub Sends-world-if :
      (b : Bool) (w : World) (x y : Outcome)
      → (b ≡ true → Sends (Attributed me) w (world x))
      → (b ≡ false → Sends (Attributed me) w (world y))
      → Sends (Attributed me) w (world (if b then x else y))
  Sends-world-if true w x y h k = h refl
  Sends-world-if false w x y h k = k refl

  pub Sends-world-option {ℓ} :
      {A : Type ℓ} (o : Option A) (w : World) (x : Outcome) (f : A → Outcome)
      → (o ≡ none → Sends (Attributed me) w (world x))
      → ((a : A) → o ≡ some a → Sends (Attributed me) w (world (f a)))
      → Sends (Attributed me) w (world (elim o [ none ↦ x | some a ↦ f a ]))
  Sends-world-option none w x f h k = h refl
  Sends-world-option (some a) w x f h k = k a refl

  pub message-Sends :
      (w : World) (c : Conn) (frame : Frame)
      → Sends (Attributed me) w (world (message env w c me frame))
  unfolding message
  message-Sends w c frame =
      let target : String = or_empty frame.to in
      Sends-world-if (target == "") w _ _ (λ _. refuse-Sends env me w c _ _)
        λ _. acknowledge-Sends w c frame.id _ (
          Kept-if (is_room target) w _ _
            (λ _. to_room-Kept w c target (rebuilt frame me target) _ refl)
            (λ _. to_user-Kept w c target (rebuilt frame me target) refl))
