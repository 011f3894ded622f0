-- ===== src/Server/Router/Sending/Handlers.antt =====
-- Every handler of a logged-in connection, by the rules of `Sends`.
use socket_to_ciphertext.Prelude.{
  String, ◌≡◌, refl, Bool, true, false, not, ◌||◌, Option, none, some, ◌==◌, inl, ◌⊎◌,
}
use socket_to_ciphertext.Prelude.Assoc.{Dict, get}
use socket_to_ciphertext.Wire.Value.{Value, or_null}
use socket_to_ciphertext.Wire.Frame.{Frame, MessageType}
use socket_to_ciphertext.Server.Env.{Env}
use socket_to_ciphertext.Server.Registry.{Conn}
use socket_to_ciphertext.Server.Store.Users
use socket_to_ciphertext.Server.Store.Contacts
use socket_to_ciphertext.Server.Router.World.{World, is_room, post, refuse}
use socket_to_ciphertext.Server.Router.Contacts.{
  name?, send_contacts, store_contact, add_contact, remove_contact, forget_contact, note_contact,
  tell_owner,
}
use socket_to_ciphertext.Server.Router.Sending.{
  Sends, Sends-none, Sends-refl, Sends-trans, Sends-if, Sends-option, Sends-post, Sends-refuse,
}

-- The frame names no sender, or this one.
unfoldable pub Attributed : String → Conn × Frame → Type 0
Attributed me (c, f) = (f.sender ≡ none) ⊎ (f.sender ≡ some me)

module _ (env : Env) (me : String) where
  pub refuse-Sends :
      (w : World) (c : Conn) (code message : String)
      → Sends (Attributed me) w (refuse env w c code message)
  unfolding Attributed
  refuse-Sends w c code message = Sends-refuse env w c code message (inl refl)

  pub post-Sends :
      (w : World) (c : Conn) (type : MessageType) (to : Option String) (payload : Dict Value)
      → Sends (Attributed me) w (post env w c type to payload)
  unfolding Attributed
  post-Sends w c type to payload = Sends-post env w c type to payload (inl refl)

  send_contacts-Sends : (w : World) (c : Conn) → Sends (Attributed me) w (send_contacts env w c)
  unfolding send_contacts
  send_contacts-Sends w c = post-Sends w c _ _ _

  store_contact-Sends :
      (w : World) (t : Contacts.Contacts) (owner other : String)
      → Sends (Attributed me) w (store_contact env w t owner other).0
  unfolding store_contact
  store_contact-Sends w t owner other = Sends-none w _ refl refl refl refl

  pub add_contact-Sends :
      (w : World) (c : Conn) (frame : Frame)
      → Sends (Attributed me) w (add_contact env w c me frame)
  unfolding add_contact
  add_contact-Sends w c frame =
      Sends-option w.contacts w _ _ (λ _. refuse-Sends w c _ _)
        λ t _.
          Sends-option (name? (or_null (get frame.payload "user"))) w _ _
            (λ _. refuse-Sends w c _ _)
            λ name _.
              Sends-if (name == me) w _ _ (λ _. refuse-Sends w c _ _)
                λ _.
                  Sends-if (is_room name) w _ _ (λ _. refuse-Sends w c _ _)
                    λ _.
                      Sends-if (not (Users.exists w.users name)) w _ _ (λ _. refuse-Sends w c _ _)
                        λ _. Sends-trans (store_contact-Sends w t me name) (send_contacts-Sends _ c)

  forget_contact-Sends :
      (w : World) (t : Contacts.Contacts) (name : Option String)
      → Sends (Attributed me) w (forget_contact env w t me name)
  forget_contact-Sends w t none = Sends-refl w
  forget_contact-Sends w t (some name) = Sends-none w _ refl refl refl refl

  pub remove_contact-Sends :
      (w : World) (c : Conn) (frame : Frame)
      → Sends (Attributed me) w (remove_contact env w c me frame)
  unfolding remove_contact
  remove_contact-Sends w c frame =
      Sends-option w.contacts w _ _ (λ _. Sends-refl w)
        λ t _. Sends-trans (forget_contact-Sends w t _) (send_contacts-Sends _ c)

  tell_owner-Sends :
      (w x : World) (owner : String) (told : Bool)
      → Sends (Attributed me) w x
      → Sends (Attributed me) w (tell_owner env owner (x, told))
  tell_owner-Sends w x owner false h = h
  tell_owner-Sends w x owner true h =
      Sends-option (get x.sessions owner) w _ _ (λ _. h)
        λ c _. Sends-trans h (send_contacts-Sends x c)

  pub note_contact-Sends :
      (w : World) (owner other : String) → Sends (Attributed me) w (note_contact env w owner other)
  unfolding note_contact
  note_contact-Sends w owner other =
      Sends-option w.contacts w _ _ (λ _. Sends-refl w)
        λ t _.
          Sends-if (other == "" || is_room other) w _ _ (λ _. Sends-refl w)
            λ _.
              tell_owner-Sends w _ owner (store_contact env w t owner other).1
                (store_contact-Sends w t owner other)
