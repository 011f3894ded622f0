-- ===== src/Server/Router/Contacts.antt =====
-- im/server/router.py: contact lists.
use socket_to_ciphertext.Prelude.{
  String, Bool, true, false, not, ◌||◌, Option, none, some, List, [], ◌∷◌, map, ◌==◌, contains,
  concat, if◌then◌else◌,
}
use socket_to_ciphertext.Prelude.Assoc.{get}
use socket_to_ciphertext.Wire.Value.{Value, bool, str, arr, obj, of_items, of_entries, or_null}
use socket_to_ciphertext.Wire.Frame.{Frame, MessageType}
use socket_to_ciphertext.Server.Env.{Env}
use socket_to_ciphertext.Server.Registry.{Conn, usernames}
use socket_to_ciphertext.Server.Store.Users
use socket_to_ciphertext.Server.Store.Contacts
use socket_to_ciphertext.Server.Router.World.{World, is_room, tick, post, refuse}

-- `username or ""`
abbrev pub or_empty : Option String → String
or_empty none = ""
or_empty (some s) = s

-- A value that is a text and not empty.
abbrev pub name? : Value → Option String
name? (str s) = if s == "" then none else some s
name? v = none

abbrev pub contact_entry : List String → String → Value
contact_entry online name =
    obj (of_entries (("user", str name) ∷ ("online", bool (contains online name)) ∷ []))

unfoldable pub contact_states : World → String → List Value
unfolding usernames Contacts.of
contact_states w username = elim w.contacts [
  | none ↦ []
  | some t ↦ map (contact_entry (usernames w.sessions)) (Contacts.of t username)
]

module _ (env : Env) where
  unfoldable pub send_contacts : World → Conn → World
  unfolding post contact_states
  send_contacts w c =
      post env w c MessageType.contacts (w.username c)
        (("contacts", arr (of_items (contact_states w (or_empty (w.username c))))) ∷ [])

  -- `self.contacts.add(owner, other, now_ms())`, with its answer.
  unfoldable pub store_contact : World → Contacts.Contacts → String → String → World × Bool
  unfolding Contacts.add
  store_contact w t owner other =
      let (t', added) = Contacts.add t owner other (env.now_ms w.calls) in
      (tick env (record w { contacts = some t' }), added)

  unfoldable pub add_contact : World → Conn → String → Frame → World
  unfolding send_contacts store_contact refuse
  add_contact w c me frame = elim w.contacts [
    | none ↦ refuse env w c "UNSUPPORTED" "this server keeps no contacts"
    | some t ↦ elim (name? (or_null (get frame.payload "user"))) [
      | none ↦ refuse env w c "NO_RECIPIENT" "ADD_CONTACT needs a user"
      | some name ↦
          if name == me
          then refuse env w c "BAD_CONTACT" "you are already in your own contacts"
          else if is_room name
          then refuse env w c "BAD_CONTACT" "a room is not a contact -- JOIN it instead"
          else if not (Users.exists w.users name)
          then refuse env w c "NO_SUCH_USER" (concat ("nobody is registered as " ∷ name ∷ []))
          else send_contacts (store_contact w t me name).0 c
    ]
  ]

  abbrev pub forget_contact : World → Contacts.Contacts → String → Option String → World
  forget_contact w t me none = w
  forget_contact w t me (some name) = record w { contacts = some (Contacts.remove t me name).0 }

  unfoldable pub remove_contact : World → Conn → String → Frame → World
  unfolding send_contacts Contacts.remove
  remove_contact w c me frame = elim w.contacts [
    | none ↦ w
    | some t ↦ send_contacts (forget_contact w t me (name? (or_null (get frame.payload "user")))) c
  ]

  abbrev pub tell_owner : String → World × Bool → World
  tell_owner owner (w, false) = w
  tell_owner owner (w, true) = elim (get w.sessions owner) [
    | none ↦ w
    | some theirs ↦ send_contacts w theirs
  ]

  -- Remember somebody you talked to; the owner is told if the list changed.
  unfoldable pub note_contact : World → String → String → World
  unfolding send_contacts store_contact
  note_contact w owner other = elim w.contacts [
    | none ↦ w
    | some t ↦
        if other == "" || is_room other then w else tell_owner owner (store_contact w t owner other)
  ]
