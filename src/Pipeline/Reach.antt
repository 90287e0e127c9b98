-- ===== src/Pipeline/Reach.antt =====
-- The pipelines that calls and workers can bring about, in any order, from the one that
-- `Pipeline::Pipeline` makes: src/logger.cpp.
use sy_log.Config.{Config}
use sy_log.Crossbar.{Lane, SinkCrossbar, lane_loop, worker_turn, submit_loop}
use sy_log.Crossbar
use sy_log.Crossbar.Stopping.{turn-kept, worker_turn_lem}
use sy_log.Event.{Event}
use sy_log.Filter.{Filter}
use sy_log.Host.{Host}
use sy_log.Pipeline.{
  Pipeline, add_global_filter, clear_global_filters, cached_min_priority, new_pipeline, configure,
  add_route, clear_routes, start, close, request_stop, submit,
}
use sy_log.Pipeline.Cache.Fresh.{cached_route_mask_lem}
use sy_log.Pipeline.Invariant.{IsReady, Behaves, Serves, IsSound}
use sy_log.Pipeline.Invariant.Calls.{
  new_pipeline-IsSound, configure-IsSound, add_route-IsSound, clear_routes-IsSound, start-IsSound,
  shut_down-IsSound,
}
use sy_log.Pipeline.Upkeep.{submit-IsSound, submit_loop-Serves}
use sy_log.Prelude.{
  ℕ, zero, suc, ◌^◌, ◌<◌, ◌≤◌, ◌≡◌, refl, Bool, false, Option, List, [], ◌∷◌, Bytes, All, length,
  arith, inl, inr, Bool-cases, if-cases, sym, subst, ◌∙◌,
}
use sy_log.Queue.Laws.{events}
use sy_log.Route.{Route, Output}
use sy_log.Workers.{BlockingQueue, QueueLaws}

module _ {Q : Type 0} (W : BlockingQueue Event Q) where
  -- The worker of the lane at a place is given time.
  unfoldable pub turn_at : ℕ → List (Lane Q) → List (Lane Q)
  turn_at k [] = []
  turn_at zero (l ∷ ls) = (worker_turn W l).1 ∷ ls
  turn_at (suc k) (l ∷ ls) = l ∷ turn_at k ls

  abbrev pub with_lanes : Pipeline Q → List (Lane Q) → Pipeline Q
  with_lanes p ls = record p { crossbar = record p.crossbar { lanes = ls } }

module _ {Q : Type 0} {W : BlockingQueue Event Q} (laws : QueueLaws W) (host : Host) where
  -- One call, or one turn of a worker. The source's `configure` takes any `std::size_t`, and a route
  -- with a strategy of the user's is one that behaves.
  pub data Step (p : Pipeline Q) : Pipeline Q → Type 0 where
    configured : (cfg : Config) → cfg.queue_capacity < 2 ^ 64 → Step p (configure W cfg p).1
    filter_added : (f : Option Filter) → Step p (add_global_filter f p)
    filters_cleared : Step p (clear_global_filters p)
    route_added : (r : Route Q) → Behaves laws r → Step p (add_route W r p).1
    routes_cleared : Step p (clear_routes W p).1
    has_started : Step p (start W p)
    closed_down : Step p (close W p).1
    stopped : Step p (request_stop W p).1
    asked : (ep : Bytes) → Step p (cached_min_priority ep p).1
    submitted : (e : Event) (force_sync : Bool) → Step p (submit W host e force_sync p).2
    woken :
        (e : Event) (from mask : ℕ) (delivered : Bool)
        → Step p
            (with_lanes W p (submit_loop W from 0 p.crossbar.lanes e mask p.accepting delivered).0)
    turned : (k : ℕ) → Step p (with_lanes W p (turn_at W k p.crossbar.lanes))

  pub data Reach : Pipeline Q → Type 0 where
    made : Reach (new_pipeline W)
    later : {p q : Pipeline Q} → Reach p → Step p q → Reach q

  turn-off : (l : Lane Q) → l.worker ≡ false → (worker_turn W l).1 ≡ l
  unfolding worker_turn
  turn-off l off =
      if-cases (λ (t : List Output × Lane Q). t.1 ≡ l) l.worker _ _
        (λ on. absurd (ground (arith, on, off))) (λ _. refl)

  turn-IsReady :
      (running : Bool) (l : Lane Q)
      → IsReady laws running l
      → IsReady laws running (worker_turn W l).1
  turn-IsReady running l r = elim (Bool-cases l.worker) [
    | inl on ↦
        let t = worker_turn_lem laws l r.counted on r.open_ in
        record { counted = t.2; open_ = t.3; attended = (turn-kept W l).1 ∙ r.attended }
    | inr off ↦ subst (IsReady laws running) (sym (turn-off l off)) r
  ]

  turn_at-Serves :
      (running : Bool) (k : ℕ) (rs : List (Route Q)) (ls : List (Lane Q))
      → Serves laws running rs ls
      → Serves laws running rs (turn_at W k ls)
  unfolding turn_at
  turn_at-Serves running k [] [] s = tt
  turn_at-Serves running k [] (l ∷ ls) s = elim s [ ]
  turn_at-Serves running k (r ∷ rs) [] s = elim s [ ]
  turn_at-Serves running zero (r ∷ rs) (l ∷ ls) s =
      ((turn-kept W l).0 ∙ s.0, turn-IsReady running l s.1, s.2)
  turn_at-Serves running (suc k) (r ∷ rs) (l ∷ ls) s =
      (s.0, s.1, turn_at-Serves running k rs ls s.2)

  with_lanes-IsSound :
      (p : Pipeline Q) (ls : List (Lane Q))
      → IsSound laws p
      → Serves laws p.running p.routes ls
      → IsSound laws (with_lanes W p ls)
  with_lanes-IsSound p ls s serves = record {
    current = s.current;
    behaved = s.behaved;
    serves = serves;
    same_running = s.same_running;
    small = s.small;
    small_crossbar = s.small_crossbar;
  }

  Step-IsSound : {p q : Pipeline Q} → Step p q → IsSound laws p → IsSound laws q
  unfolding close request_stop add_global_filter clear_global_filters cached_min_priority
  Step-IsSound {p = p} (configured cfg h) s = configure-IsSound laws cfg p h s
  Step-IsSound {p = p} (filter_added f) s = record {
    current = s.current;
    behaved = s.behaved;
    serves = s.serves;
    same_running = s.same_running;
    small = s.small;
    small_crossbar = s.small_crossbar;
  }
  Step-IsSound {p = p} filters_cleared s = record {
    current = s.current;
    behaved = s.behaved;
    serves = s.serves;
    same_running = s.same_running;
    small = s.small;
    small_crossbar = s.small_crossbar;
  }
  Step-IsSound {p = p} (route_added r h) s = add_route-IsSound laws r p h s
  Step-IsSound {p = p} routes_cleared s = clear_routes-IsSound laws p s
  Step-IsSound {p = p} has_started s = start-IsSound laws p s
  Step-IsSound {p = p} closed_down s = shut_down-IsSound laws (Crossbar.close W) p s
  Step-IsSound {p = p} stopped s = shut_down-IsSound laws (Crossbar.request_stop W) p s
  Step-IsSound {p = p} (asked ep) s = record {
    current = inr (cached_route_mask_lem p.routes p.cache ep s.current).1;
    behaved = s.behaved;
    serves = s.serves;
    same_running = s.same_running;
    small = s.small;
    small_crossbar = s.small_crossbar;
  }
  Step-IsSound {p = p} (submitted e force_sync) s = submit-IsSound laws host e force_sync p s
  Step-IsSound {p = p} (woken e from mask delivered) s = with_lanes-IsSound p _ s (
      submit_loop-Serves laws p.running e p.accepting from mask 0 p.routes p.crossbar.lanes
        delivered s.behaved s.serves)
  Step-IsSound {p = p} (turned k) s =
      with_lanes-IsSound p _ s (turn_at-Serves p.running k p.routes p.crossbar.lanes s.serves)

  -- Every pipeline that calls, woken callers and workers' turns bring about, in any order, from
  -- the one that is constructed is sound, if the custom strategy of each added route keeps the
  -- queue's counter right and the queue open, and each configured capacity is below 2 ^ 64.
  pub Reach-IsSound : (p : Pipeline Q) → Reach p → IsSound laws p
  Reach-IsSound _ made = new_pipeline-IsSound laws
  Reach-IsSound q (later {p = p} r step) = Step-IsSound step (Reach-IsSound p r)

  lanes-bounded :
      (running : Bool) (rs : List (Route Q)) (ls : List (Lane Q))
      → Serves laws running rs ls
      → All (λ l. length (events laws l.queue) ≤ l.queue.capacity) ls
  lanes-bounded running [] [] s = tt
  lanes-bounded running [] (l ∷ ls) s = elim s [ ]
  lanes-bounded running (r ∷ rs) [] s = elim s [ ]
  lanes-bounded running (r ∷ rs) (l ∷ ls) s =
      (omega (arith, s.1.counted.counted, s.1.counted.bounded), lanes-bounded running rs ls s.2)

  -- In every pipeline that calls, woken callers and workers' turns bring about under these
  -- conditions on strategies and capacities (a custom strategy keeps the counter right and the
  -- queue open, a capacity is below 2 ^ 64), no lane holds more events than its capacity.
  pub Reach_bounded :
      (p : Pipeline Q)
      → Reach p
      → All (λ l. length (events laws l.queue) ≤ l.queue.capacity) p.crossbar.lanes
  Reach_bounded p r =
      let s = Reach-IsSound p r in lanes-bounded p.running p.routes p.crossbar.lanes s.serves
