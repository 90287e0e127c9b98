-- ===== src/Tests/PipelineRuns.antt =====
-- Runs of the pipeline: src/logger.cpp.
use sy_log.Pipeline.Synchronous.{submit_sync, submit_sync_silent}
use sy_log.Pipeline.{unrouted}
use sy_log.Prelude.{if◌then◌else◌, All, length, ◌≤◌, ◌==◌}
use sy_log.Pipeline.Reach.{
  Reach, made, later, route_added, has_started, submitted, turned, turn_at, with_lanes,
  Reach-IsSound, Reach_bounded,
}
use sy_log.Crossbar.{flush_lanes, new_lane, start_lane}
use sy_log.Logger.{enabled}
use sy_log.Logger.Enabled.{enabled_complete, enabled_low}
use sy_log.Pipeline.{
  Effect, by_lanes, by_caller, done, new_pipeline, add_route, start, close, submit, async_mode,
  dispatch_sync,
}
use sy_log.Crossbar
use sy_log.Pipeline.Cache.{compute_cache_entry, summarise_filters, entry_loop, add_route_to_entry}
use sy_log.Pipeline.Cache.Covers.{Covers, compute_cache_entry-Covers}
use sy_log.Pipeline.Closing.{pending, close_drains, close_unstarted_loses}
use sy_log.Pipeline.Dispatch.{everywhere, dispatch_sync-everywhere}
use sy_log.Pipeline.Equivalence.{close-submit-dispatch_sync}
use sy_log.Pipeline.Invariant.{IsSound}
use sy_log.Prelude.{◌≡◌, refl, some, true, false, List, [], ◌∷◌, codes, map, arith}
use sy_log.Queue.{new_queue}
use sy_log.Queue.Laws.{events}
use sy_log.Route.{route_passes, Output, Route, filtered_by, send_to, default_route}
use sy_log.Event.{Event}
use sy_log.Pipeline.{Pipeline}
use sy_log.Pipeline.Invariant.Calls.{new_pipeline-IsSound, add_route-IsSound}
use sy_log.Filter.{severity, at_least, all_pass, pass, endpoint_pass, matches_prefix}
use mathlib.Core.List.{flatten}
use sy_log.Severity.{info, error, fatal, severity_base, Severity}
use sy_log.Tests.Data.{
  host, net_event, to_file, to_console, configured, started, configured_sound, started_sound,
  unfiltered, unfiltered_sound,
}
use sy_log.Tests.Fifo.{Fifo, fifo, fifo_laws}

compute_cache_entry-Covers_example :
    Covers net_event 1 (compute_cache_entry (to_file ∷ to_console ∷ []) (codes "net/tcp"))
unfolding route_passes all_pass pass endpoint_pass matches_prefix
compute_cache_entry-Covers_example =
    compute_cache_entry-Covers net_event 1 (to_file ∷ to_console ∷ []) to_console (omega arith) refl
      refl

dispatch_sync-everywhere_example :
    dispatch_sync
      (to_file ∷ to_console ∷ [])
      net_event
      (compute_cache_entry (to_file ∷ to_console ∷ []) net_event.endpoint).route_mask
    ≡ everywhere 64 (to_file ∷ to_console ∷ []) net_event
dispatch_sync-everywhere_example = dispatch_sync-everywhere (to_file ∷ to_console ∷ []) net_event

close_drains_example :
    (close fifo started).0
    ≡ by_lanes (map (pending fifo_laws) started.crossbar.lanes)
      ∷ by_caller (flush_lanes started.crossbar.lanes)
      ∷ by_lanes (map (λ l. []) started.crossbar.lanes)
      ∷ by_lanes []
      ∷ []
unfolding start add_route new_pipeline
close_drains_example = close_drains fifo_laws started started_sound refl

close_unstarted_loses_example :
    ((close fifo configured).0
      ≡ by_lanes (map (λ l. []) configured.crossbar.lanes)
        ∷ by_caller (flush_lanes configured.crossbar.lanes)
        ∷ by_lanes (map (λ l. []) configured.crossbar.lanes)
        ∷ by_lanes []
        ∷ [])
    × (map (λ l. events fifo_laws l.queue) (close fifo configured).1.crossbar.lanes
        ≡ map (λ r. []) configured.routes)
unfolding new_pipeline add_route
close_unstarted_loses_example = close_unstarted_loses fifo_laws configured configured_sound refl

close-submit-dispatch_sync_example :
    (out : List (List Output)) × (later : List Effect) × ((close fifo
        (submit fifo host net_event false started).2).0
      ≡ by_lanes out ∷ later)
    × (flatten out
        ≡ dispatch_sync started.routes net_event
            (compute_cache_entry started.routes net_event.endpoint).route_mask)
unfolding start add_route new_pipeline async_mode compute_cache_entry all_pass entry_loop
    add_route_to_entry endpoint_pass matches_prefix new_lane new_queue Crossbar.configure
    Crossbar.start start_lane Crossbar.new_crossbar
close-submit-dispatch_sync_example =
    close-submit-dispatch_sync fifo_laws net_event host false started started_sound refl refl refl
      refl refl (tt, (tt, tt)) (omega arith, (omega arith, tt)) (refl, (refl, tt))

enabled_complete_example :
    (enabled (record { endpoint = codes "net/tcp" }) info configured).0 ≡ true
unfolding new_pipeline add_route route_passes all_pass pass endpoint_pass matches_prefix
enabled_complete_example =
    enabled_complete (record { endpoint = codes "net/tcp" }) info configured net_event 1 to_console
      configured_sound.current refl (omega arith) (omega arith) (omega arith) refl refl

abbrev audit : Severity
audit = record severity_base { name = codes "AUDIT"; priority = 50 }

enabled_low_example : (enabled (record { endpoint = codes "net/tcp" }) audit unfiltered).0 ≡ false
unfolding new_pipeline add_route
enabled_low_example =
    enabled_low (record { endpoint = codes "net/tcp" }) audit unfiltered unfiltered_sound.current
      (tt, tt) (omega arith)

submit_sync_example :
    ((submit fifo host net_event true started).0 ≡ (
      if (compute_cache_entry started.routes net_event.endpoint).route_mask == 0
      then unrouted fifo host net_event
      else if all_pass started.global_filters net_event
      then by_caller (everywhere 64 started.routes net_event) ∷ []
      else []))
    × ((submit fifo host net_event true started).1 ≡ done)
    × ((submit fifo host net_event true started).2.crossbar ≡ started.crossbar)
unfolding start add_route new_pipeline async_mode
submit_sync_example = submit_sync fifo_laws host net_event true started started_sound refl

-- A route that takes fatal events alone.
abbrev to_pager : Route Fifo
to_pager = filtered_by (some (severity (at_least fatal))) (send_to 3 default_route)

abbrev paging : Pipeline Fifo
paging = (add_route fifo to_pager (new_pipeline fifo)).1

paging_sound : IsSound fifo_laws paging
paging_sound =
    add_route-IsSound fifo_laws to_pager (new_pipeline fifo) tt (new_pipeline-IsSound fifo_laws)

abbrev failure : Event
failure = record net_event { severity_priority = error.priority }

submit_sync_silent_example :
    ((submit fifo host failure true paging).0
      ≡ (if all_pass paging.global_filters failure then by_caller [] ∷ [] else []))
    × ((submit fifo host failure true paging).1 ≡ done)
    × ((submit fifo host failure true paging).2.crossbar ≡ paging.crossbar)
unfolding add_route new_pipeline async_mode compute_cache_entry entry_loop add_route_to_entry
    summarise_filters route_passes all_pass pass
submit_sync_silent_example =
    submit_sync_silent fifo_laws host failure true paging paging_sound refl refl (refl, tt)

-- Two routes, a start, a queued event, and a turn of the first worker.
abbrev run : Reach fifo_laws host started
run = later (later (later made (route_added to_file tt)) (route_added to_console tt)) has_started

abbrev run_on : Reach fifo_laws host (
    with_lanes fifo
      (submit fifo host net_event false started).2
      (turn_at fifo 0 (submit fifo host net_event false started).2.crossbar.lanes))
run_on = later (later run (submitted net_event false)) (turned 0)

Reach-IsSound_example : IsSound fifo_laws (
    with_lanes fifo
      (submit fifo host net_event false started).2
      (turn_at fifo 0 (submit fifo host net_event false started).2.crossbar.lanes))
Reach-IsSound_example =
    Reach-IsSound fifo_laws host
      (with_lanes fifo (submit fifo host net_event false started).2
        (turn_at fifo 0 (submit fifo host net_event false started).2.crossbar.lanes))
      run_on

Reach_bounded_example :
    All
      (λ l. length (events fifo_laws l.queue) ≤ l.queue.capacity)
      (submit fifo host net_event false started).2.crossbar.lanes
Reach_bounded_example =
    Reach_bounded fifo_laws host (submit fifo host net_event false started).2
      (later run (submitted net_event false))
