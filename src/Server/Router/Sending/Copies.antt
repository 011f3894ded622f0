-- ===== src/Server/Router/Sending/Copies.antt =====
-- A room message goes to the room's members and to nobody else.
use socket_to_ciphertext.Prelude.{
  String, ◌≡◌, refl, sym, ap, ◌∙◌, Bool, true, false, not, Option, none, some, List, [], ◌∷◌, ◌==◌,
  eq_refl, if◌then◌else◌, contains, arith, subst,
}
use socket_to_ciphertext.Prelude.Assoc.{Dict, get}
use socket_to_ciphertext.Prelude.Sort.{sorted}
use socket_to_ciphertext.Wire.Value.{
  Value, null, bool, int, float, str, arr, obj, nil, cons, or_null,
}
use socket_to_ciphertext.Wire.Frame.{Frame}
use socket_to_ciphertext.Server.Env.{Env, py_str}
use socket_to_ciphertext.Server.Registry.{Conn}
use socket_to_ciphertext.Server.Store.Rooms
use socket_to_ciphertext.Server.Router.World.{World}
use socket_to_ciphertext.Server.Router.Delivery.{
  Taken, taken, refused, raised, record_envelopes, sealed_copy, addressed_to, deliver_one,
  deliver_each, record_room, to_room,
}
use socket_to_ciphertext.Server.Router.Sending.{
  Sends, Sends-refl, Sends-trans, Sends-send, Sends-if, Sends-option,
}
use socket_to_ciphertext.Server.Router.Sending.Recording.{record_row-Sends, queue-Sends}
use socket_to_ciphertext.Prelude.Sort.{contains-sorted}

-- A frame that is another but for its body and nonce.
pub record Resealed (f outgoing : Frame) (own_body own_nonce : String) : Type 0 where
  pub body : f.body ≡ some own_body
  pub nonce : f.nonce ≡ some own_nonce
  pub type : f.type ≡ outgoing.type
  pub sender : f.sender ≡ outgoing.sender
  pub to : f.to ≡ outgoing.to
  pub payload : f.payload ≡ outgoing.payload
  pub id : f.id ≡ outgoing.id
  pub ts : f.ts ≡ outgoing.ts
  pub v : f.v ≡ outgoing.v

-- What one member is to get: the message as it is where no map of sealed bodies came with it, and
-- otherwise the message with the body and the nonce of the pair that the map has under their name.
pub data OwnCopy (env : Env) (outgoing : Frame) (name : String) (f : Frame)
    : Option (Dict Value) → Type 0 where
  as_it_is : f ≡ outgoing → OwnCopy env outgoing name f none
  sealed :
      (map : Dict Value) (body nonce : Value)
      → get map name ≡ some (arr (cons body (cons nonce nil)))
      → Resealed f outgoing (py_str env body) (py_str env nonce)
      → OwnCopy env outgoing name f (some map)

resealed :
    (env : Env) (outgoing f : Frame) (name : String) (map : Dict Value) (o : Option Value)
    → get map name ≡ o
    → sealed_copy env outgoing (or_null o) ≡ some f
    → OwnCopy env outgoing name f (some map)
resealed env outgoing f name map (some (arr (cons body (cons nonce nil)))) e h =
    let p : record outgoing { body = some (py_str env body); nonce = some (py_str env nonce) } ≡ f =
      cc in
    subst (λ g. OwnCopy env outgoing name g (some map)) p
      (sealed map body nonce e (record {
        body = refl;
        nonce = refl;
        type = refl;
        sender = refl;
        to = refl;
        payload = refl;
        id = refl;
        ts = refl;
        v = refl;
      }))
resealed env outgoing f name map none e h = absurd (cc)
resealed env outgoing f name map (some null) e h = absurd (cc)
resealed env outgoing f name map (some (bool b)) e h = absurd (cc)
resealed env outgoing f name map (some (int i)) e h = absurd (cc)
resealed env outgoing f name map (some (float d)) e h = absurd (cc)
resealed env outgoing f name map (some (str s)) e h = absurd (cc)
resealed env outgoing f name map (some (obj fs)) e h = absurd (cc)
resealed env outgoing f name map (some (arr nil)) e h = absurd (cc)
resealed env outgoing f name map (some (arr (cons a nil))) e h = absurd (cc)
resealed env outgoing f name map (some (arr (cons a (cons b (cons c vs))))) e h = absurd (cc)

addressed_to-OwnCopy :
    (env : Env) (outgoing : Frame) (envelopes : Option (Dict Value)) (name : String) (f : Frame)
    → addressed_to env outgoing envelopes name ≡ some f
    → OwnCopy env outgoing name f envelopes
unfolding addressed_to
addressed_to-OwnCopy env outgoing none name f h = let p : outgoing ≡ f = cc in as_it_is (sym p)
addressed_to-OwnCopy env outgoing (some map) name f h =
    resealed env outgoing f name map (get map name) refl h

module _ (env : Env) (w : World) (me : String) (members : List String) (outgoing : Frame)
    (envelopes : Option (Dict Value)) where
  -- The connection is that of a member other than the author, and the frame is the member's copy.
  pub record Copy (e : Conn × Frame) : Type 0 where
    pub name : String
    pub member : contains members name ≡ true
    pub other : (name == me) ≡ false
    pub connection : get w.sessions name ≡ some e.0
    pub copy : OwnCopy env outgoing name e.1 envelopes

  deliver_one-Copy :
      (x : World) (name : String)
      → x.sessions ≡ w.sessions
      → contains members name ≡ true
      → Sends Copy x (deliver_one env x me outgoing envelopes name)
  unfolding deliver_one
  deliver_one-Copy x name s m =
      Sends-if (name == me) x _ _ (λ _. Sends-refl x)
        λ o.
          Sends-option (addressed_to env outgoing envelopes name) x _ _ (λ _. Sends-refl x)
            λ f a.
              Sends-option (get x.sessions name) x _ _ (λ _. queue-Sends env x name outgoing.id)
                λ c e. Sends-send x c f (record {
                  name = name;
                  member = m;
                  other = o;
                  connection = ap (λ r. get r name) (sym s) ∙ e;
                  copy = addressed_to-OwnCopy env outgoing envelopes name f a;
                })

  deliver_each-Copy :
      (x : World) (names : List String)
      → x.sessions ≡ w.sessions
      → ((name : String) → contains names name ≡ true → contains members name ≡ true)
      → Sends Copy x (deliver_each env x me outgoing envelopes names)
  unfolding deliver_each
  deliver_each-Copy x [] s m = Sends-refl x
  deliver_each-Copy x (name ∷ names) s m =
      let first = deliver_one-Copy x name s (m name (ground (arith, eq_refl name))) in
      Sends-trans first (
        deliver_each-Copy (deliver_one env x me outgoing envelopes name) names (first.sessions ∙ s)
          (λ n h. m n (ground arith)))

-- What a taken message says about the branches before it.
taken_of_if :
    (b : Bool) (x y : World) (t : Taken)
    → (if b then refused y else t) ≡ taken x
    → (b ≡ false) × (t ≡ taken x)
taken_of_if true x y t h = absurd (cc)
taken_of_if false x y t h = (refl, h)

taken_of_option :
    (o : Option World) (f : World → World) (x : World)
    → elim o as (λ _. Taken) [ none ↦ raised | some w ↦ taken (f w) ] ≡ taken x
    → (w : World) × (o ≡ some w) × (f w ≡ x)
taken_of_option none f x h = absurd (cc)
taken_of_option (some w) f x h = let p : f w ≡ x = cc in (w, refl, p)

record_room-Sends :
    (env : Env) {P : Conn × Frame → Type 0} (w : World) (outgoing : Frame) (room : String)
    (envelopes : Option (Dict Value)) (x : World)
    → record_room env w outgoing room envelopes ≡ some x
    → Sends P w x
unfolding record_envelopes
record_room-Sends env w outgoing room none x e = record_row-Sends env w outgoing _ _ _ _ x e
record_room-Sends env w outgoing room (some envelopes) x e =
    record_row-Sends env w outgoing _ _ _ _ x e

-- A message that `to_room` takes was written by a member of the room, which exists, and every frame
-- that goes out for it goes to the connection of a member other than the author and is that member's
-- own copy: the message as it is or, where a map of sealed bodies came with it, the message with the
-- body and the nonce of the pair that stands in the map under that member's name.
pub to_room_members :
    (env : Env) (w x : World) (c : Conn) (me room : String) (outgoing : Frame)
    (envelopes : Option (Dict Value))
    → to_room env w c me room outgoing envelopes ≡ taken x
    → (Rooms.exists w.rooms room ≡ true)
      × (contains (Rooms.members w.rooms room) me ≡ true)
      × Sends (Copy env w me (Rooms.members w.rooms room) outgoing envelopes) w x
unfolding to_room
to_room_members env w x c me room outgoing envelopes h =
    let members : List String = Rooms.members w.rooms room in
    let (found, h1) = taken_of_if (not (Rooms.exists w.rooms room)) x _ _ h in
    let (mine, h2) = taken_of_if (not (contains members me)) x _ _ h1 in
    let (y, stored_as, sent_as) =
      taken_of_option (record_room env w outgoing room envelopes) _ x h2 in
    let quiet : Sends (Copy env w me members outgoing envelopes) w y =
      record_room-Sends env w outgoing room envelopes y stored_as in
    (
      ground arith,
      ground arith,
      subst (Sends (Copy env w me members outgoing envelopes) w) sent_as (
          Sends-trans quiet (
            deliver_each-Copy env w me members outgoing envelopes y (sorted members) quiet.sessions
              (λ n k. sym (contains-sorted members n) ∙ k))),
    )
