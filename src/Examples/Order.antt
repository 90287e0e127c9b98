-- ===== src/Examples/Order.antt =====
-- A program runs as its calls do, one after another.
use sy_log.Examples.{Program, and_then, in_order}
use sy_log.Pipeline.{Pipeline, Effect}
use sy_log.Prelude.{◌≡◌, refl, some, List, [], ◌∷◌, ◌++◌}

module _ {Q : Type 0} where
  pub in_order-step :
      {out later : List Effect} {p p' q : Pipeline Q} (f : Program Q) (fs : List (Program Q))
      → f p ≡ some (out, p')
      → in_order fs p' ≡ some (later, q)
      → in_order (f ∷ fs) p ≡ some (out ++ later, q)
  unfolding in_order and_then
  in_order-step f fs h k = rw (h, and_then) (rw k refl)

  pub in_order-end : (p : Pipeline Q) → in_order [] p ≡ some ([], p)
  unfolding in_order
  in_order-end p = refl
