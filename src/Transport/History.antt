-- ===== src/Transport/History.antt =====
-- The order of frames and packets over whole histories of the abstract queues.
use mathlib.Core.List.{append_assoc, append-nil}
use sidp_client.Base.{ℕ, ◌≡◌, refl, List, [], ◌∷◌, ◌++◌}
use sidp_client.Session.State.{run}
use sidp_client.Transport.Spec.{since, Does, View, Run, Event, InOrder}

-- A queue gains at its end and loses at its front; `a` went in, `b` came out, `c` is inside.
module _ (a b c : List (List ℕ)) (order : a ≡ b ++ c) where
  keep_order : a ++ [] ≡ (b ++ []) ++ c
  keep_order = rw (append-nil a, append-nil b) order

  push_order : (m : List ℕ) → a ++ m ∷ [] ≡ (b ++ []) ++ (c ++ m ∷ [])
  push_order m = rw (order, append-nil b) (append_assoc b c (m ∷ []))

  pop_order : (m : List ℕ) (rest : List (List ℕ)) → c ≡ m ∷ rest → a ++ [] ≡ (b ++ m ∷ []) ++ rest
  pop_order m rest k = rw (append-nil a, order, k, append_assoc b (m ∷ []) rest) refl

Does-InOrder :
    {v t : View} {e : Event} → (es : List Event) → InOrder es v → Does v e t → InOrder (e ∷ es) t
unfolding since
Does-InOrder {v} es (c, l, i) (Does.quiet) =
    (keep_order _ _ v.control c, keep_order _ _ v.logs l, keep_order _ _ v.inbox i)
Does-InOrder {v} es (c, l, i) (Does.close q) = rw q (refl, refl, refl)
Does-InOrder {v} es (c, l, i) (Does.begin _ _ _ q) = rw q (refl, refl, refl)
Does-InOrder {v} es (c, l, i) (Does.write m _ _ q) =
    rw q (push_order _ _ v.control c m, keep_order _ _ v.logs l, keep_order _ _ v.inbox i)
Does-InOrder {v} es (c, l, i) (Does.log m _ _ _ q) =
    rw q (keep_order _ _ v.control c, push_order _ _ v.logs l m, keep_order _ _ v.inbox i)
Does-InOrder {v} es (c, l, i) (Does.hear m _ _ q) =
    rw q (keep_order _ _ v.control c, keep_order _ _ v.logs l, push_order _ _ v.inbox i m)
Does-InOrder {v} es (c, l, i) (Does.fetch p rest _ k _ q) =
    rw q (keep_order _ _ v.control c, keep_order _ _ v.logs l, pop_order _ _ v.inbox i p rest k)
Does-InOrder {v} es (c, l, i) (Does.end q) =
    rw q (keep_order _ _ v.control c, keep_order _ _ v.logs l, keep_order _ _ v.inbox i)
Does-InOrder {v} es (c, l, i) (Does.take_first m rest _ _ k q) =
    rw q (pop_order _ _ v.control c m rest k, keep_order _ _ v.logs l, keep_order _ _ v.inbox i)
Does-InOrder {v} es (c, l, i) (Does.take_any_log m rest _ _ _ k q) =
    rw q (keep_order _ _ v.control c, pop_order _ _ v.logs l m rest k, keep_order _ _ v.inbox i)
Does-InOrder {v} es (c, l, i) (Does.finish q) =
    rw q (keep_order _ _ v.control c, keep_order _ _ v.logs l, keep_order _ _ v.inbox i)
Does-InOrder {v} es (c, l, i) (Does.fail q) = rw q (refl, refl, refl)

-- Whatever happens, within a session each of the three queues gives out exactly the frames that were
-- put in, in the order they were put in, and holds the rest; a boundary of sessions empties it.
pub Run-InOrder : {es : List Event} {v : View} → Run es v → InOrder es v
unfolding since
Run-InOrder Run.start = (refl, refl, refl)
Run-InOrder (Run.next {es} run d) = Does-InOrder es (Run-InOrder run) d
