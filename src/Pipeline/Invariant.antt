-- ===== src/Pipeline/Invariant.antt =====
-- What holds of the pipeline between any two calls.
pub mod Calls
use sy_log.Config.{Config}
use sy_log.Crossbar.{
  Lane, SinkCrossbar, new_crossbar, new_lane, start_lane, push_lane, with_queue, submit_loop,
}
use sy_log.Crossbar
use sy_log.Event.{Event}
use sy_log.Pipeline.{
  Pipeline, Effect, new_pipeline, replace_crossbar, configure, add_route, clear_routes, start,
  shut_down,
}
use sy_log.Pipeline.Cache.{invalidate}
use sy_log.Pipeline.Cache.Fresh.{IsCurrent}
use sy_log.Prelude.{
  ℕ, ◌^◌, ◌<◌, ◌≡◌, refl, sym, subst, ◌∙◌, Bool, true, false, List, [], ◌∷◌, ◌++◌, map, arith, inl,
  inr, Bool-cases, if-cases, All, All-append, Option, none, some,
}
use sy_log.Queue.{WorkersEventQueue, at_least_one, new_queue, returned}
use sy_log.Queue.Laws.{IsCounted, new_queue-IsCounted}
use sy_log.Route.{Route, Strategy, drop_when_full, block_when_full, custom, Output}
use sy_log.Workers.{BlockingQueue, QueueLaws}

module _ {Q : Type 0} {W : BlockingQueue Event Q} (laws : QueueLaws W) where
  open laws use {closed}

  -- A lane of a crossbar that runs or does not: its counter is right, its queue is open, and its
  -- worker is there exactly while the crossbar runs.
  pub record IsReady (running : Bool) (lane : Lane Q) : Type 0 where
    pub counted : IsCounted laws lane.queue
    pub open_ : closed lane.queue.queue ≡ false
    pub attended : lane.worker ≡ running

  -- A strategy of the user's keeps the queue's counter right and the queue open.
  abbrev pub Keeps : Option (Strategy Q) → Type 0
  Keeps none = Unit
  Keeps (some drop_when_full) = Unit
  Keeps (some block_when_full) = Unit
  Keeps (some (custom name f)) =
      (q q' : WorkersEventQueue Q) (e : Event) (accepting b : Bool)
      → IsCounted laws q
      → closed q.queue ≡ false
      → f q e accepting ≡ returned b q'
      → IsCounted laws q' × (closed q'.queue ≡ false)

  abbrev pub Behaves : Route Q → Type 0
  Behaves r = Keeps r.delivery_strategy

  -- Lane by lane, the crossbar serves the configured routes.
  abbrev pub Serves : Bool → List (Route Q) → List (Lane Q) → Type 0
  Serves running [] [] = Unit
  Serves running [] (l ∷ ls) = ⊥
  Serves running (r ∷ rs) [] = ⊥
  Serves running (r ∷ rs) (l ∷ ls) = (l.route ≡ r) × IsReady running l × Serves running rs ls

  pub record IsSound (p : Pipeline Q) : Type 0 where
    pub current : IsCurrent p.routes p.cache
    pub behaved : All Behaves p.routes
    pub serves : Serves p.running p.routes p.crossbar.lanes
    pub same_running : p.crossbar.running ≡ p.running
    pub small : p.cfg.queue_capacity < 2 ^ 64
    pub small_crossbar : p.crossbar.queue_capacity < 2 ^ 64
