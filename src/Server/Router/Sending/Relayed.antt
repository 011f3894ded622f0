-- ===== src/Server/Router/Sending/Relayed.antt =====
-- A message to somebody who is connected goes to that connection, with the sender's own name.
use socket_to_ciphertext.Prelude.{
  String, ◌≡◌, refl, sym, ap, subst, ◌∙◌, Bool, true, false, not, Option, none, some, List, [], ◌∷◌,
  ◌++◌, ◌==◌, append_assoc, concat, ◌&&◌, if◌then◌else◌,
}
use socket_to_ciphertext.Prelude.Assoc.{get}
use socket_to_ciphertext.Wire.Value.{or_null}
use socket_to_ciphertext.Wire.Frame.{Frame, MessageType}
use socket_to_ciphertext.Server.Env.{Env}
use socket_to_ciphertext.Server.Registry.{Conn}
use socket_to_ciphertext.Server.Store.Messages.{direct_conversation}
use socket_to_ciphertext.Server.Router.World.{
  World, Outcome, done, world, is_room, send, post, refuse,
}
use socket_to_ciphertext.Server.Store.Users
use socket_to_ciphertext.Server.Router.Contacts.{note_contact, or_empty}
use socket_to_ciphertext.Server.Router.Delivery.{
  Taken, taken, refused, raised, rebuilt, record_row, deliver_or_queue, reachable, has_store, dict?,
  to_room, to_user, message, acknowledge,
}
use socket_to_ciphertext.Server.Router.Handle.{handle, by_type, logged_in, dispatch}

-- The frame is among those handed to sessions, for that connection.
pub record Hands (c : Conn) (f : Frame) (x : Outcome) : Type 0 where
  pub final : World
  pub returned : x ≡ done final
  pub before : List (Conn × Frame)
  pub after : List (Conn × Frame)
  pub handed : final.sent ≡ before ++ (c, f) ∷ after

module _ (env : Env) (w : World) (c d : Conn) (me target : String) (f : Frame) where
  -- The ACK follows what was handed over.
  acknowledged-Hands :
      (x : World) (g : Frame) → Hands d g (acknowledge env w c f.id (taken (send x d g)))
  unfolding send post
  acknowledged-Hands x g = record {
    final = world (acknowledge env w c f.id (taken (send x d g)));
    returned = refl;
    before = x.sent;
    after = _;
    handed = append_assoc x.sent ((d, g) ∷ []) _;
  }

  -- A logged-in connection sends a message to a person who is connected; the store takes the row. Then
  -- the router returns, and has handed that person's connection the message with the sender's own name.
  pub handle-Hands :
      (stored : World)
      → f.type ≡ MessageType.msg
      → w.username c ≡ some me
      → f.to ≡ some target
      → (target == "") ≡ false
      → is_room target ≡ false
      → get w.sessions target ≡ some d
      → record_row env w (rebuilt f me target) (direct_conversation me target) target f.body f.nonce
        ≡ some stored
      → Hands d (rebuilt f me target) (handle env w c f)
  unfolding handle dispatch message to_user
  handle-Hands stored type who to named person there row =
      subst (Hands d out) (sym (by_kind ∙ by_name ∙ by_target ∙ by_reach ∙ by_row))
        (acknowledged-Hands noted out)
    where
      out : Frame
      out = rebuilt f me target

      noted : World
      noted = note_contact env (note_contact env stored me target) target me

      asked : Taken → Outcome
      asked = acknowledge env w c f.id

      put : World → Taken
      put x = taken (
          deliver_or_queue env (note_contact env (note_contact env x me target) target me)
            (get w.sessions target) target out)

      aims : String → Outcome
      aims t =
          if t == ""
          then done (refuse env w c "NO_RECIPIENT" "MSG needs a 'to'")
          else asked (
              if is_room t
              then to_room env w c me t (rebuilt f me t) (dict? (or_null (get f.payload "env")))
              else to_user env w c me t (rebuilt f me t))

      offline : Taken
      offline = refused (refuse env w c "USER_OFFLINE" (concat (target ∷ " is not online" ∷ [])))

      by_kind : handle env w c f ≡ logged_in env w c f (w.username c)
      by_kind = ap (λ (t : MessageType). by_type env w c t f) type

      by_name : logged_in env w c f (w.username c) ≡ message env w c me f
      by_name =
          ap (logged_in env w c f) who ∙ ap (λ (t : MessageType). dispatch env w c me t f) type

      by_target : message env w c me f ≡ asked (to_user env w c me target out)
      by_target =
          ap (λ (t : Option String). aims (or_empty t)) to
          ∙ ap
              (λ b.
                if b
                then done (refuse env w c "NO_RECIPIENT" "MSG needs a 'to'")
                else asked (
                    if is_room target
                    then to_room env w c me target out (dict? (or_null (get f.payload "env")))
                    else to_user env w c me target out))
              named
          ∙ ap
              (λ b. asked (
                if b
                then to_room env w c me target out (dict? (or_null (get f.payload "env")))
                else to_user env w c me target out))
              person

      reached : reachable env w target ≡ true
      reached =
          ap
            (λ (s : Option Conn). elim s as (λ _. Bool) [
              | none ↦ has_store env w && Users.exists w.users target
              | some x ↦ true
            ])
            there

      row_of : Option World
      row_of = record_row env w out (direct_conversation me target) target f.body f.nonce

      by_reach : asked (to_user env w c me target out) ≡ asked (put stored)
      by_reach =
          ap
            (λ b. asked (
              if not b
              then offline
              else elim row_of as (λ _. Taken) [ none ↦ raised | some x ↦ put x ]))
            reached
          ∙ ap
              (λ (r : Option World).
                asked (elim r as (λ _. Taken) [ none ↦ raised | some x ↦ put x ]))
              row

      by_row : asked (put stored) ≡ asked (taken (send noted d out))
      by_row =
          ap (λ (s : Option Conn). asked (taken (deliver_or_queue env noted s target out))) there
