-- ===== src/Bench/Run.antt =====
-- benchmarks/sylog_bench.cpp: what a scenario is run with, the set-up of the pipeline for it, the loop
-- of its producers, and which scenarios a command line runs.
pub mod Fresh
pub mod Producers
pub mod Dispatch
use sy_log.Bench.Options.{Options, Matched, parse_args}
use sy_log.Bench.Samples.{CountingSink, Timings, Doubles, percentile}
use sy_log.Config.{asynchronous}
use sy_log.Event.{ℤ, Event}
use sy_log.Host.{Host, format_unsigned}
use sy_log.Pipeline.{
  Pipeline, Effect, request_stop, clear_routes, clear_global_filters, configure, add_route, start,
}
use sy_log.Prelude.{
  ℕ, ◌-◌, Bool, true, false, Option, none, some, List, [], ◌∷◌, ◌++◌, Bytes, codes, bytes_eq, ltb,
  if◌then◌else◌, ◌||◌,
}
use sy_log.Render.Pattern.{render_pattern}
use sy_log.Route.{
  Route, Renderer, Strategy, drop_when_full, block_when_full, custom, strategy_name, default_route,
  send_to, deliver_with,
}
use sy_log.Workers.{BlockingQueue}

unfoldable pub renderer_for : Host → Bytes → Option Renderer
renderer_for host kind =
    if bytes_eq kind (codes "none")
    then none
    else if bytes_eq kind (codes "full-pattern")
    then some
        (render_pattern host (codes "{time} {severity} {endpoint} {tid} {file}:{line} {message}\n"))
    else some (render_pattern host (codes "{message}\n"))

-- The sinks of the scenarios, by their classes.
pub data SinkKind : Type 0 where
  counting counting_file slow_counting : SinkKind

-- The arguments of `run_scenario` that `main` gives, and whether it removes the file before.
pub record Scenario : Type 0 where
  pub name : Bytes
  pub sink_kind : SinkKind
  pub removes_file : Bool
  pub sink_name : Bytes
  pub renderer_name : Bytes
  pub blocks : Bool
  pub burst_mode : Bool

unfoldable pub scenario_for : Bytes → Option Scenario
scenario_for s =
    if bytes_eq s (codes "null")
    then some (record {
      name = codes "enqueue-only-null";
      sink_kind = counting;
      removes_file = false;
      sink_name = codes "null";
      renderer_name = codes "none";
      blocks = true;
      burst_mode = false;
    })
    else if bytes_eq s (codes "null-format")
    then some (record {
      name = codes "formatting-null";
      sink_kind = counting;
      removes_file = false;
      sink_name = codes "null";
      renderer_name = codes "full-pattern";
      blocks = true;
      burst_mode = false;
    })
    else if bytes_eq s (codes "file")
    then some (record {
      name = codes "file-sink";
      sink_kind = counting_file;
      removes_file = true;
      sink_name = codes "file";
      renderer_name = codes "message";
      blocks = true;
      burst_mode = false;
    })
    else if bytes_eq s (codes "slow")
    then some (record {
      name = codes "slow-sink-drop-pressure";
      sink_kind = slow_counting;
      removes_file = false;
      sink_name = codes "slow";
      renderer_name = codes "message";
      blocks = false;
      burst_mode = false;
    })
    else if bytes_eq s (codes "burst")
    then some (record {
      name = codes "burst-drain-block";
      sink_kind = counting;
      removes_file = false;
      sink_name = codes "null";
      renderer_name = codes "message";
      blocks = true;
      burst_mode = true;
    })
    else none

unfoldable pub expand_scenarios : Bytes → List Bytes
expand_scenarios requested =
    if bytes_eq requested (codes "all")
    then codes "null" ∷ codes "null-format" ∷ codes "file" ∷ codes "slow" ∷ codes "burst" ∷ []
    else requested ∷ []

-- The loop of `main`: the exit code, and the scenarios that are run before it.
unfoldable pub main_loop : List Bytes → ℕ × List Scenario
main_loop [] = (0, [])
main_loop (s ∷ ss) =
    let (code, after) = main_loop ss in
    elim (scenario_for s) [ none ↦ (2, []) | some scenario ↦ (code, scenario ∷ after) ]

unfoldable pub main : Matched → ℕ × List Scenario
main m =
    let parsed = parse_args m in
    if parsed.should_exit
    then (parsed.exit_code, [])
    else main_loop (expand_scenarios parsed.options.scenario)

module _ {Q : Type 0} where
  unfoldable pub blocking_policy : Option (Strategy Q) → Bool
  blocking_policy none = false
  blocking_policy (some policy) = bytes_eq (strategy_name policy) (codes "block_when_full")

  abbrev pub rendered_by : Option Renderer → Route Q → Route Q
  rendered_by f r = record r { renderer = f }

  -- `blocking_when_full()` or `dropping_when_full()`.
  abbrev pub policy_for : Scenario → Option (Strategy Q)
  policy_for s = some (if s.blocks then block_when_full else drop_when_full)

  -- The route of a scenario; a null renderer is passed on to `render_with`.
  unfoldable pub scenario_route : Host → ℕ → Bytes → Option (Strategy Q) → Route Q
  scenario_route host sink renderer_name policy =
      let route = rendered_by (renderer_for host renderer_name) (send_to sink default_route) in
      if blocking_policy policy
      then deliver_with block_when_full route
      else deliver_with drop_when_full route

module _ {Q : Type 0} (W : BlockingQueue Event Q) where
  -- The calls before the producers run.
  unfoldable pub set_up : ℕ → Route Q → Pipeline Q → List Effect × Pipeline Q
  set_up capacity route p =
      let (stopping, p1) = request_stop W p in
      let (clearing, p2) = clear_routes W p1 in
      let (configuring, p3) = configure W (asynchronous capacity) (clear_global_filters p2) in
      let (adding, p4) = add_route W route p3 in
      (stopping ++ clearing ++ configuring ++ adding, start W p4)

  -- The set-up of a scenario that `main` runs, for a sink object.
  unfoldable pub scenario_set_up :
      Host → Options → ℕ → Scenario → Pipeline Q → List Effect × Pipeline Q
  scenario_set_up host opt sink s p =
      set_up opt.queue_capacity (scenario_route host sink s.renderer_name (policy_for s)) p

-- The text that a producer logs for an event, and the endpoint of its logger.
unfoldable pub bench_message : Bytes → Bool → ℕ → ℕ → Bytes
bench_message renderer_name burst_mode idx p =
    if bytes_eq renderer_name (codes "full-pattern")
    then codes "event="
      ++ (format_unsigned idx
          ++ (codes " producer="
              ++ (format_unsigned p ++ codes " payload=abcdefghijklmnopqrstuvwxyz status=ok")))
    else if burst_mode
    then codes "burst event " ++ format_unsigned idx
    else codes "message " ++ format_unsigned idx

abbrev pub worker_endpoint : ℕ → Bytes
worker_endpoint p = codes "bench.worker" ++ format_unsigned p

-- The three durations are doubles, by their 64-bit patterns.
pub record ScenarioResult : Type 0 where
  pub name : Bytes
  pub sink : Bytes
  pub renderer : Bytes
  pub policy : Bytes
  pub producers : ℤ
  pub queue_capacity : ℕ
  pub produced : ℕ
  pub consumed : ℕ
  pub dropped_or_filtered : ℕ
  pub bytes : ℕ
  pub enqueue_seconds : ℕ
  pub total_seconds : ℕ
  pub drain_seconds : ℕ
  pub p50_ns : ℕ
  pub p95_ns : ℕ
  pub p99_ns : ℕ

-- What `run_scenario` reports of the sink's counters, the clock's durations and the samples. The
-- arguments of `percentile` are the 64-bit patterns of 0.50, 0.95 and 0.99.
unfoldable pub result_for :
    Doubles → Options → Scenario → CountingSink → ℕ × ℕ × ℕ → Timings → ScenarioResult
result_for doubles opt s sink (enqueue, total, drain) timings = record {
  name = s.name;
  sink = s.sink_name;
  renderer = s.renderer_name;
  policy = if s.blocks then codes "block" else codes "drop";
  producers = opt.producers;
  queue_capacity = opt.queue_capacity;
  produced = opt.events;
  consumed = sink.writes;
  dropped_or_filtered = if ltb opt.events sink.writes then 0 else opt.events - sink.writes;
  bytes = sink.bytes;
  enqueue_seconds = enqueue;
  total_seconds = total;
  drain_seconds = drain;
  p50_ns = percentile doubles timings.enqueue_ns 0x3fe0000000000000;
  p95_ns = percentile doubles timings.enqueue_ns 0x3fee666666666666;
  p99_ns = percentile doubles timings.enqueue_ns 0x3fefae147ae147ae;
}
