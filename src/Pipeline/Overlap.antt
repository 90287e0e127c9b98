-- ===== src/Pipeline/Overlap.antt =====
-- src/logger.cpp: calls of `add_route` and `clear_routes` that overlap. Each changes the routes under
-- `state_m`, and configures the crossbar for its own copy of them under `worker_m` later.
pub mod Served
use sy_log.Crossbar
use sy_log.Event.{Event}
use sy_log.Pipeline.{Pipeline, Effect, by_lanes}
use sy_log.Pipeline.Cache.{invalidate}
use sy_log.Prelude.{List, [], ◌∷◌, ◌++◌}
use sy_log.Route.{Route}
use sy_log.Workers.{BlockingQueue}

-- Where a call is: `holding` has the copy of the routes.
pub data Rerouting (Q : Type 0) : Type 0 where
  adding : Route Q → Rerouting Q
  clearing : Rerouting Q
  holding : List (Route Q) → Rerouting Q
  returned : Rerouting Q

module _ {Q : Type 0} (W : BlockingQueue Event Q) where
  -- One of the two steps of a call.
  unfoldable pub half : Pipeline Q → Rerouting Q → List Effect × Pipeline Q × Rerouting Q
  half p (adding r) =
      let routes = p.routes ++ r ∷ [] in
      ([], record p { routes = routes; cache = invalidate p.cache }, holding routes)
  half p clearing = ([], record p { routes = []; cache = invalidate p.cache }, holding [])
  half p (holding routes) =
      let (out, x) = Crossbar.configure W routes p.cfg.queue_capacity p.crossbar in
      (by_lanes out ∷ [], record p { crossbar = x }, returned)
  half p returned = ([], p, returned)

  -- What a step makes of the routes, if it changes them.
  unfoldable pub changed : Pipeline Q → Rerouting Q → List (List (Route Q))
  changed p (adding r) = (p.routes ++ r ∷ []) ∷ []
  changed p clearing = [] ∷ []
  changed p (holding routes) = []
  changed p returned = []

  -- Calls whose steps come in any order, with the routes after each change, the last first.
  pub data Overlaps (start : Pipeline Q) (calls : List (Rerouting Q))
      : Pipeline Q → List (Rerouting Q) → List (List (Route Q)) → Type 0 where
    begun : Overlaps start calls start calls []
    moved :
        {p : Pipeline Q} {history : List (List (Route Q))} (xs ys : List (Rerouting Q))
        (t : Rerouting Q)
        → Overlaps start calls p (xs ++ t ∷ ys) history
        → Overlaps start calls (half p t).1 (xs ++ (half p t).2 ∷ ys) (changed p t ++ history)
