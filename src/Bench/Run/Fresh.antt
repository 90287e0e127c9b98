-- ===== src/Bench/Run/Fresh.antt =====
-- What the pipeline is like when the producers of a scenario start.
use sy_log.Bench.Options.{Matched, parse_args}
use sy_log.Bench.Options.Errors.{parse_args_bounds}
use sy_log.Bench.Run.{
  Scenario, set_up, blocking_policy, policy_for, scenario_route, scenario_set_up,
}
use sy_log.Host.{Host}
use sy_log.Config.{asynchronous}
use sy_log.Crossbar.{new_lane, start_lane}
use sy_log.Crossbar
use sy_log.Event.{Event}
use sy_log.Pipeline.{
  Pipeline, request_stop, clear_routes, clear_global_filters, configure, add_route, start,
  shut_down, replace_crossbar,
}
use sy_log.Pipeline.Invariant.{Behaves, IsSound}
use sy_log.Pipeline.Invariant.Calls.{
  configure-IsSound, add_route-IsSound, clear_routes-IsSound, start-IsSound, shut_down-IsSound,
}
use sy_log.Prelude.{Option, Bytes, if-cases, ℕ, ◌^◌, ◌<◌, ◌≡◌, refl, true, [], ◌∷◌}
use sy_log.Queue.{at_least_one}
use sy_log.Route.{Route, Strategy}
use sy_log.Workers.{BlockingQueue, QueueLaws}

module _ {Q : Type 0} {W : BlockingQueue Event Q} (laws : QueueLaws W) where
  filters-IsSound : (p : Pipeline Q) → IsSound laws p → IsSound laws (clear_global_filters p)
  unfolding clear_global_filters
  filters-IsSound p s = record {
    current = s.current;
    behaved = s.behaved;
    serves = s.serves;
    same_running = s.same_running;
    small = s.small;
    small_crossbar = s.small_crossbar;
  }

  -- Whatever sound pipeline an earlier scenario left, running or not and with events queued or
  -- not: after the calls before the producers of a scenario, with a capacity below 2 ^ 64 and a
  -- route whose strategy behaves, the pipeline is sound, has the route as its only one and no
  -- global filter, is configured for the capacity, accepts events, and has one lane, for the
  -- route, with a new queue of the capacity, at least 1, and a worker.
  pub set_up_lem :
      (capacity : ℕ) (route : Route Q) (p : Pipeline Q)
      → capacity < 2 ^ 64
      → Behaves laws route
      → IsSound laws p
      → let q = (set_up W capacity route p).1 in
        IsSound laws q
        × (q.routes ≡ route ∷ [])
        × (q.global_filters ≡ [])
        × (q.cfg ≡ asynchronous capacity)
        × (q.accepting ≡ true)
        × (q.crossbar.lanes ≡ start_lane (new_lane W (at_least_one capacity) route) ∷ [])
  unfolding set_up request_stop shut_down clear_routes clear_global_filters configure add_route
      start replace_crossbar Crossbar.new_crossbar Crossbar.configure Crossbar.start
  set_up_lem capacity route p small behaves s =
      let p1 = (request_stop W p).1 in
      let s1 = shut_down-IsSound laws (Crossbar.request_stop W) p s in
      let s2 = clear_routes-IsSound laws p1 s1 in
      let p2 = (clear_routes W p1).1 in
      let s3 =
        configure-IsSound laws (asynchronous capacity) (clear_global_filters p2) small
          (filters-IsSound p2 s2) in
      let p3 = (configure W (asynchronous capacity) (clear_global_filters p2)).1 in
      let s4 = add_route-IsSound laws route p3 behaves s3 in
      (start-IsSound laws (add_route W route p3).1 s4, refl, refl, refl, refl, refl)

  scenario_route-Behaves :
      (host : Host) (sink : ℕ) (name : Bytes) (policy : Option (Strategy Q))
      → Behaves laws (scenario_route host sink name policy)
  unfolding scenario_route
  scenario_route-Behaves host sink name policy =
      if-cases (Behaves laws) (blocking_policy policy) _ _ (λ _. tt) (λ _. tt)

  -- Whatever the command line, the scenario and the sound pipeline that an earlier scenario left,
  -- running or not and with events queued or not: after the calls before the producers, the
  -- pipeline is sound, has the scenario's route as its only one and no global filter, is
  -- configured for the capacity of the command line, accepts events, and has one lane, for the
  -- route, with a new queue of the capacity, at least 1, and a worker.
  pub scenario_set_up-parse_args :
      (host : Host) (m : Matched) (sink : ℕ) (s : Scenario) (p : Pipeline Q)
      → IsSound laws p
      → let opt = (parse_args m).options in
        let route = scenario_route host sink s.renderer_name (policy_for s) in
        let q = (scenario_set_up W host opt sink s p).1 in
        IsSound laws q
        × (q.routes ≡ route ∷ [])
        × (q.global_filters ≡ [])
        × (q.cfg ≡ asynchronous opt.queue_capacity)
        × (q.accepting ≡ true)
        × (q.crossbar.lanes ≡ start_lane (new_lane W (at_least_one opt.queue_capacity) route) ∷ [])
  unfolding scenario_set_up
  scenario_set_up-parse_args host m sink s p sound =
      set_up_lem (parse_args m).options.queue_capacity
        (scenario_route host sink s.renderer_name (policy_for s)) p (parse_args_bounds m).2
        (scenario_route-Behaves host sink s.renderer_name (policy_for s)) sound
