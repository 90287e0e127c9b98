-- ===== src/Tests/LaneRuns.antt =====
-- Runs of a queue, a lane and a crossbar: src/async.
use sy_log.Crossbar.{Lane, SinkCrossbar, stop_lane, worker_turn, submit, with_queue, push_lane}
use sy_log.Crossbar.Stopping.{stop_lane_fast}
use sy_log.Crossbar.Submit.{lane_after, submit-at}
use sy_log.Crossbar.Worker.{written_for, Pops}
use sy_log.Event.{Event}
use sy_log.Prelude.{◌≡◌, refl, true, false, List, [], ◌∷◌, ◌++◌, get_elem?, arith}
use mathlib.Core.Option
use sy_log.Queue
use sy_log.Workers.{ended}
use sy_log.Queue.{pop_blocking, WorkersEventQueue, new_queue, try_push}
use sy_log.Queue.Laws.{IsCounted, events}
use sy_log.Pipeline.Closing.{pending}
use sy_log.Pipeline.Delivery.{begun, pushed, worked, stop_lane-Delivers}
use sy_log.Tests.Data.{net_event, to_file, to_console}
use sy_log.Tests.Fifo.{Fifo, fifo, fifo_laws}

-- Two slots, one of them taken.
abbrev half_full : WorkersEventQueue Fifo
half_full = record { capacity = 2; queue = (net_event ∷ [], false); size = 1 }

half_full-IsCounted : IsCounted fifo_laws half_full
half_full-IsCounted = record {
  counted = refl;
  bounded = omega arith;
  roomy = omega arith;
  small = omega arith;
}

abbrev running_lane : Lane Fifo
running_lane = record { route = to_console; queue = half_full; worker = true; drain_on_stop = true }

abbrev idle_lane : Lane Fifo
idle_lane = record running_lane { worker = false }

abbrev two_lanes : SinkCrossbar Fifo
two_lanes = record {
  queue_capacity = 2;
  running = true;
  lanes = running_lane ∷ record running_lane { route = to_file } ∷ [];
}

stop_lane_fast_example :
    (taken : List Event) × (rest : WorkersEventQueue Fifo) × Pops fifo true
      (Queue.close fifo half_full)
      taken
      rest
    × ((pop_blocking fifo rest true).0 ≡ ended)
    × (net_event ∷ [] ≡ taken ++ events fifo_laws rest)
    × ((stop_lane fifo false 2 running_lane).0 ≡ written_for to_console taken)
    × ((stop_lane fifo false 2 running_lane).1.queue ≡ new_queue fifo 2)
    × ((stop_lane fifo false 2 running_lane).1.worker ≡ false)
stop_lane_fast_example = stop_lane_fast fifo_laws 2 running_lane half_full-IsCounted refl

submit-at_example :
    get_elem? (submit fifo two_lanes net_event 2 true).0.lanes 1
    ≡ Option.map
        (lane_after fifo net_event true 0 2 1 (submit fifo two_lanes net_event 2 true).1)
        (get_elem? two_lanes.lanes 1)
submit-at_example = submit-at fifo net_event true two_lanes 2 1

-- An event arrives while another is queued, and then the worker has a turn.
abbrev pushed_lane : Lane Fifo
pushed_lane = with_queue running_lane (try_push fifo half_full net_event).1

stop_lane-Delivers_example :
    ((worker_turn fifo pushed_lane).0 ++ (stop_lane fifo true 2 (worker_turn fifo pushed_lane).1).0
      ≡ pending fifo_laws running_lane ++ written_for to_console (net_event ∷ []))
    × (events fifo_laws (stop_lane fifo true 2 (worker_turn fifo pushed_lane).1).1.queue ≡ [])
unfolding push_lane try_push
stop_lane-Delivers_example =
    stop_lane-Delivers fifo_laws 2 running_lane (worker_turn fifo pushed_lane).1
      (worker_turn fifo pushed_lane).0 (net_event ∷ []) tt
      (record { counted = half_full-IsCounted; open_ = refl; attended = refl })
      (worked (pushed net_event true (try_push fifo half_full net_event).1 begun refl))
