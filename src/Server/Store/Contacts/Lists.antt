-- ===== src/Server/Store/Contacts/Lists.antt =====
-- SqliteContacts: what add and remove make of everybody's list.
use socket_to_ciphertext.Prelude.{
  ℕ, String, ◌≡◌, refl, sym, ap, ◌∙◌, not, ◌&&◌, ◌||◌, [], ◌∷◌, ◌++◌, ◌==◌, eq_iff, arith, map,
  keep_if, contains,
}
use socket_to_ciphertext.Prelude.Sort.{contains-sorted}
use socket_to_ciphertext.Server.Store.Contacts.{Contact, Contacts, is_pair, known, add, remove, of}

contacts-known :
    (p d : String) (t : Contacts)
    → contains (map (λ (r : Contact). r.contact) (keep_if (λ r. r.owner == p) t)) d ≡ known t p d
contacts-known p d [] = refl
contacts-known p d (r ∷ t) = ground (arith, contacts-known p d t)

of-known : (t : Contacts) (p d : String) → contains (of t p) d ≡ known t p d
unfolding of
of-known t p d =
    contains-sorted (map (λ (r : Contact). r.contact) (keep_if (λ r. r.owner == p) t)) d
    ∙ contacts-known p d t

known-append :
    (p d : String) (t : Contacts) (r : Contact)
    → known (t ++ r ∷ []) p d ≡ ((r.owner == p && r.contact == d) || known t p d)
known-append p d [] r = refl
known-append p d (q ∷ t) r = ground (arith, known-append p d t r)

known-remove :
    (p d o c : String) (t : Contacts)
    → known (keep_if (λ r. not (is_pair o c r)) t) p d ≡ (not (o == p && c == d) && known t p d)
known-remove p d o c [] = ground arith
known-remove p d o c (q ∷ t) = ground (
  arith,
  known-remove p d o c t,
  eq_iff o p,
  eq_iff c d,
  eq_iff q.owner o,
  eq_iff q.contact c,
  eq_iff q.owner p,
  eq_iff q.contact d,
)

-- An addition puts one name on one person's list, unless a name is empty or the two are the same, and
-- changes nobody else's list: not that of the person who was added, either.
of-add :
    (t : Contacts) (o c p d : String) (at : ℕ)
    → contains (of (add t o c at).0 p) d ≡ (
        (o == p && c == d && not (o == "") && not (c == "") && not (o == c)) || contains (of t p) d)
unfolding add
of-add t o c p d at =
    of-known (add t o c at).0 p d
    ∙ ground (
      arith,
      known-append p d t (record { owner = o; contact = c; added_at = at }),
      of-known t p d,
      eq_iff o p,
      eq_iff c d,
    )

-- A removal takes one name off one person's list and changes nothing else.
of-remove :
    (t : Contacts) (o c p d : String)
    → contains (of (remove t o c).0 p) d ≡ (not (o == p && c == d) && contains (of t p) d)
unfolding remove
of-remove t o c p d =
    of-known (remove t o c).0 p d
    ∙ known-remove p d o c t
    ∙ ap (λ b. not (o == p && c == d) && b) (sym (of-known t p d))
