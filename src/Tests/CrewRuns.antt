-- ===== src/Tests/CrewRuns.antt =====
-- Runs of a lane with a producer, its worker and a stop: src/async/sink_crossbar.cpp.
use sy_log.Crossbar.Threads.{
  calling, processing, notifying_one, left, absent, requested, joined, worked, Crew, Runs, begun,
  called, moved, has_worked, worker_notified, sets_flag, closes_queue, tells_queue, tells_all,
  requests_stop, joins, work, handled_by,
}
use sy_log.Crossbar.Threads.Completed.{ByWorker, Runs-completes}
use sy_log.Crossbar.Threads.Kept.{has_closed}
use sy_log.Crossbar.Threads.Lossless.{Runs-in_order, Runs-lossless}
use sy_log.Crossbar.Worker.{written_for}
use sy_log.Event.{Event}
use sy_log.Filter.{all_pass, pass, matches_prefix}
use sy_log.Prelude.{◌+◌, ◌≤◌, ◌≡◌, refl, true, false, List, [], ◌∷◌, ◌++◌, length, arith}
use sy_log.Queue.{WorkersEventQueue}
use sy_log.Queue.Laws.{IsCounted}
use sy_log.Queue.Threads.{
  Shared, done, loading, comparing, pushing, begin, advance, put_by, Woken, nobody, sleeps, wake,
}
use sy_log.Queue.Threads.Slots.{all_hold}
use sy_log.Crossbar.Threads.Work.{slot, holding}
use sy_log.Route.{process}
use sy_log.Tests.Data.{net_event, to_console}
use sy_log.Tests.Fifo.{Fifo, fifo, fifo_laws}

-- Two slots, one of them taken.
abbrev half_full : WorkersEventQueue Fifo
half_full = record { capacity = 2; queue = (net_event ∷ [], false); size = 1 }

half_full-IsCounted : IsCounted fifo_laws half_full
half_full-IsCounted = record {
  counted = refl;
  bounded = omega arith;
  roomy = omega arith;
  small = omega arith;
}

abbrev after_stop : Shared Fifo
after_stop = record {
  events = record { capacity = 2; queue = ([], true); size = 0 };
  locked = false;
  accepting = true;
  stop = true;
}

-- A producer has pushed, the queue was closed, and the worker has drained it.
abbrev after : Crew Fifo
after = record {
  shared = after_stop;
  drain_on_stop = true;
  producers = done true ∷ [];
  worker = left;
  stopper = joined;
  written = written_for to_console (net_event ∷ net_event ∷ []);
}

abbrev Reaches : Crew Fifo → List Event → List Event → Type 0
Reaches = Runs fifo to_console true half_full (false ∷ [])

-- The producer has pushed an event, then the worker has processed the first one, then `stop_lanes_` has
-- got to the join.
abbrev pushed : Crew Fifo
pushed = record {
  shared = record {
    events = record { capacity = 2; queue = (net_event ∷ net_event ∷ [], false); size = 2 };
    locked = false;
    accepting = true;
    stop = false;
  };
  drain_on_stop = true;
  producers = done true ∷ [];
  worker = calling false;
  stopper = absent;
  written = [];
}

abbrev halfway : Crew Fifo
halfway = record pushed {
  shared = record {
    events = record { capacity = 2; queue = (net_event ∷ [], false); size = 1 };
    locked = false;
    accepting = true;
    stop = false;
  };
  written = process to_console net_event;
}

abbrev stopping : Crew Fifo
stopping = record halfway {
  shared = record {
    events = record { capacity = 2; queue = (net_event ∷ [], true); size = 1 };
    locked = false;
    accepting = true;
    stop = true;
  };
  stopper = requested;
}

pushed-Reaches : Reaches pushed (net_event ∷ []) []
unfolding begin advance put_by
pushed-Reaches =
    moved [] [] (pushing net_event) false
      (moved [] [] (comparing net_event false 1) false
        (moved [] [] (loading net_event false) false (called [] [] false false net_event begun refl)
          refl)
        refl)
      refl

-- The worker takes the next event and processes it.
takes :
    (c : Crew Fifo) (put handled : List Event)
    → Reaches c put handled
    → (worked fifo to_console (worked fifo to_console c)).worker ≡ notifying_one false net_event
    → Woken fifo c.producers c.producers
    → Reaches
        (worked fifo to_console (record (worked fifo to_console (worked fifo to_console c)) {
          worker = processing false net_event;
        }))
        put
        (((handled ++ handled_by c.worker) ++ handled_by (worked fifo to_console c).worker)
          ++ net_event ∷ [])
unfolding handled_by
takes c put handled r h woken =
    has_worked (worker_notified false net_event c.producers (has_worked (has_worked r)) h woken)

halfway-Reaches : Reaches halfway (net_event ∷ []) (net_event ∷ [])
unfolding work handled_by process sleeps
halfway-Reaches = takes pushed (net_event ∷ []) [] pushed-Reaches refl (nobody (refl, tt))

stopping-Reaches : Reaches stopping (net_event ∷ []) (net_event ∷ [])
unfolding wake
stopping-Reaches =
    requests_stop
      (tells_all (tells_queue (closes_queue (sets_flag halfway-Reaches refl) refl) refl) refl) refl

after-Reaches : Reaches after (net_event ∷ []) (net_event ∷ net_event ∷ [])
unfolding work handled_by process written_for sleeps all_pass pass matches_prefix
after-Reaches =
    joins
      (has_worked (
        has_worked (
          has_worked (
            takes stopping (net_event ∷ []) (net_event ∷ []) stopping-Reaches refl
              (nobody (refl, tt))))))
      refl refl

Runs-in_order_example :
    (halfway.written ≡ written_for to_console (net_event ∷ []))
    × ((net_event ∷ []) ++ ([] ++ net_event ∷ []) ≡ (net_event ∷ []) ++ net_event ∷ [])
    × (1 ≡ length (net_event ∷ []) + (0 + all_hold (done true ∷ [])))
    × (1 ≤ 2)
unfolding slot holding
Runs-in_order_example =
    Runs-in_order fifo_laws to_console half_full (false ∷ []) halfway (net_event ∷ [])
      (net_event ∷ []) true half_full-IsCounted refl halfway-Reaches

Runs-lossless_example :
    (after.written ≡ written_for to_console (net_event ∷ net_event ∷ []))
    × (after.shared.events.queue.0 ≡ [])
Runs-lossless_example =
    Runs-lossless fifo_laws to_console half_full (false ∷ []) after (net_event ∷ [])
      (net_event ∷ net_event ∷ []) half_full-IsCounted refl after-Reaches refl

Runs-completes_example :
    (c : Crew Fifo) × (more : List Event) × ByWorker fifo to_console stopping c more
    × (c.worker ≡ left)
    × (c.stopper ≡ requested)
    × (c.written ≡ written_for to_console (net_event ∷ net_event ∷ []))
    × (c.shared.events.queue.0 ≡ [])
unfolding has_closed
Runs-completes_example =
    Runs-completes fifo_laws to_console half_full (false ∷ []) stopping (net_event ∷ [])
      (net_event ∷ []) half_full-IsCounted refl stopping-Reaches refl
