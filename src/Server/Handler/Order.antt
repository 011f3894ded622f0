-- ===== src/Server/Handler/Order.antt =====
-- ClientHandler: what goes over the socket, against what the queue took.
use socket_to_ciphertext.Prelude.{
  List, [], ◌∷◌, ◌++◌, ◌≡◌, sym, ap, subst, ◌∙◌, append_assoc, append-nil,
}
use socket_to_ciphertext.Wire.Frame.{Frame}
use socket_to_ciphertext.Server.Handler.{Handler, fresh, Steps, taken}
use socket_to_ciphertext.Server.Handler.Refines.{
  Channel, Move, rests, offers, delivers, loses, Moves, still, next, view, steps-Moves,
}

-- Some of a list, in its order.
pub data Sublist : List Frame → List Frame → Type 0 where
  nothing : Sublist [] []
  kept : {f : Frame} {l m : List Frame} → Sublist l m → Sublist (f ∷ l) (f ∷ m)
  left_out : {f : Frame} {l m : List Frame} → Sublist l m → Sublist l (f ∷ m)

whole-Sublist : (l : List Frame) → Sublist l l
whole-Sublist [] = nothing
whole-Sublist (f ∷ l) = kept (whole-Sublist l)

Sublist-trans : {k l m : List Frame} → Sublist k l → Sublist l m → Sublist k m
Sublist-trans s nothing = s
Sublist-trans (kept s) (kept t) = kept (Sublist-trans s t)
Sublist-trans (left_out s) (kept t) = left_out (Sublist-trans s t)
Sublist-trans s (left_out t) = left_out (Sublist-trans s t)

Sublist-more : {k l : List Frame} (m : List Frame) → Sublist k l → Sublist (k ++ m) (l ++ m)
Sublist-more m nothing = whole-Sublist m
Sublist-more m (kept s) = kept (Sublist-more m s)
Sublist-more m (left_out s) = left_out (Sublist-more m s)

without-Sublist : (d : List Frame) (f : Frame) (l : List Frame) → Sublist (d ++ l) (d ++ f ∷ l)
without-Sublist [] f l = left_out (whole-Sublist l)
without-Sublist (g ∷ d) f l = kept (without-Sublist d f l)

front-Sublist : (k l : List Frame) → Sublist k (k ++ l)
front-Sublist [] [] = nothing
front-Sublist [] (f ∷ l) = left_out (front-Sublist [] l)
front-Sublist (f ∷ k) l = kept (front-Sublist k l)

-- What was delivered, and what may still be.
abbrev all_of : Channel → List Frame
all_of c = c.delivered ++ c.pending

same-Sublist : (l m : List Frame) → l ≡ m → Sublist l m
same-Sublist l m e = subst (Sublist l) e (whole-Sublist l)

move-Sublist : {c d : Channel} {fs : List Frame} → Move c fs d → Sublist (all_of d) (all_of c ++ fs)
move-Sublist {c} rests = same-Sublist (all_of c) (all_of c ++ []) (sym (append-nil (all_of c)))
move-Sublist {c} (offers f) =
    same-Sublist (c.delivered ++ (c.pending ++ f ∷ [])) (all_of c ++ f ∷ [])
      (sym (append_assoc c.delivered c.pending (f ∷ [])))
move-Sublist {c} (delivers f rest e) =
    same-Sublist ((c.delivered ++ f ∷ []) ++ rest) (all_of c ++ []) (
      append_assoc c.delivered (f ∷ []) rest
      ∙ ap (λ (l : List Frame). c.delivered ++ l) (sym e)
      ∙ sym (append-nil (all_of c)))
move-Sublist {c} (loses f rest e) = Sublist-trans (without-Sublist c.delivered f rest) (
    same-Sublist (c.delivered ++ f ∷ rest) (all_of c ++ [])
      (ap (λ (l : List Frame). c.delivered ++ l) (sym e) ∙ sym (append-nil (all_of c))))

moves-Sublist :
    {c d : Channel} {fs : List Frame} → Moves c fs d → Sublist (all_of d) (all_of c ++ fs)
moves-Sublist {c} still = same-Sublist (all_of c) (all_of c ++ []) (sym (append-nil (all_of c)))
moves-Sublist (next {c} {d} {e} {fs} {gs} m ms) = Sublist-trans (moves-Sublist ms) (
    Sublist-trans (Sublist-more gs (move-Sublist m)) (
      same-Sublist ((all_of c ++ fs) ++ gs) (all_of c ++ (fs ++ gs))
        (append_assoc (all_of c) fs gs)))

-- Whatever the threads do from the start on: the frames that went over the socket are some of those
-- that the queue took, each at most once and in the order in which it took them.
pub written-Sublist : {h : Handler} (s : Steps fresh h) → Sublist h.written (taken s)
written-Sublist {h} s =
    Sublist-trans (front-Sublist h.written (view h).pending) (moves-Sublist (steps-Moves s))
