-- ===== src/Crossbar/Threads.antt =====
-- src/async/sink_crossbar.cpp: one lane with its producers, its worker and the call that stops it, each
-- in steps of its own. A step of the worker is an atomic operation or a call of the inner queue or of
-- the sink.
pub mod Work
pub mod Producers
pub mod Kept
pub mod Stopping
pub mod Lossless
pub mod Leaves
pub mod Completed
use sy_log.Event.{Event}
use sy_log.Prelude.{
  ℕ, ◌≡◌, Bool, true, false, Option, none, some, List, [], ◌∷◌, ◌++◌, map, if◌then◌else◌,
}
use sy_log.Queue.{WorkersEventQueue}
use sy_log.Queue.Threads.{
  Shared, Thread, done, notifying, wake, begin, Call, try_push, push_blocking, advance, put_by,
  Woken, calm, with_inner, decremented,
}
use sy_log.Route.{Route, Output, process}
use sy_log.Workers.{BlockingQueue, PopResult, ok, ended, waits}

-- The two calls that delivery strategies make.
abbrev pub push_call : Bool → Event → Call
push_call false e = try_push e
push_call true e = push_blocking e

-- Where `lane_loop_` is. The Boolean is true in the second loop, which drains.
pub data Worker : Type 0 where
  calling : Bool → Worker
  dozing : Worker
  popped : Bool → Event → Worker
  notifying_one : Bool → Event → Worker
  processing : Bool → Event → Worker
  checking : Worker
  left : Worker

-- Where `stop_lanes_` is with the lane.
pub data Stopper : Type 0 where
  absent flagged closed_queue told_queue told_all requested joined : Stopper

-- The lane, its producers and what has been written.
pub record Crew (Q : Type 0) : Type 0 where
  pub shared : Shared Q
  pub drain_on_stop : Bool
  pub producers : List Thread
  pub worker : Worker
  pub stopper : Stopper
  pub written : List Output

-- The events that were handed to `process_`.
unfoldable pub handled_by : Worker → List Event
handled_by (calling draining) = []
handled_by dozing = []
handled_by (popped draining e) = []
handled_by (notifying_one draining e) = []
handled_by (processing draining e) = e ∷ []
handled_by checking = []
handled_by left = []

module _ {Q : Type 0} where
  abbrev pub at_rest : WorkersEventQueue Q → List Bool → Crew Q
  at_rest start idle = record {
    shared = calm start true false;
    drain_on_stop = true;
    producers = map done idle;
    worker = calling false;
    stopper = absent;
    written = [];
  }

  abbrev pub with_producers : Crew Q → List Thread → Crew Q
  with_producers c ts = record c { producers = ts }

  abbrev pub with_shared : Crew Q → Shared Q → Crew Q
  with_shared c m = record c { shared = m }

-- The steps of `lane_loop_` but for its notifications, with what it writes.
module _ {Q : Type 0} (W : BlockingQueue Event Q) (route : Route Q) where
  unfoldable pub work : Bool → Shared Q → Worker → Shared Q × Worker × List Output
  work drain m (calling false) =
      let (result, q) = W.pop m.events.queue m.stop in
      (
        with_inner m q,
        elim result [ ok e ↦ popped false e | ended ↦ checking | waits ↦ dozing ],
        [],
      )
  work drain m (calling true) =
      let (got, q) = W.try_pop m.events.queue in
      (with_inner m q, elim got [ none ↦ left | some e ↦ popped true e ], [])
  work drain m dozing = (m, calling false, [])
  work drain m (popped draining e) = (decremented m, notifying_one draining e, [])
  work drain m (notifying_one draining e) = (m, notifying_one draining e, [])
  work drain m (processing draining e) = (m, calling draining, process route e)
  work drain m checking = (m, if drain then calling true else left, [])
  work drain m left = (m, left, [])

  abbrev pub worked : Crew Q → Crew Q
  worked c =
      let (m, w, out) = work c.drain_on_stop c.shared c.worker in
      record c { shared = m; worker = w; written = c.written ++ out }

  -- A lane that was started is left to its producers and its worker, and to one call of `stop_lanes_`
  -- that drains or not: the crews that they bring about in any order, with the events that the inner
  -- queue was given and those that were processed.
  pub data Runs (drain : Bool) (start : WorkersEventQueue Q) (idle : List Bool)
      : Crew Q → List Event → List Event → Type 0 where
    begun : Runs drain start idle (at_rest start idle) [] []
    called :
        {c : Crew Q} {put handled : List Event} (xs ys : List Thread) (b blocks : Bool) (e : Event)
        → Runs drain start idle c put handled
        → c.producers ≡ xs ++ done b ∷ ys
        → Runs drain start idle
            (with_producers c (xs ++ begin (push_call blocks e) ∷ ys))
            put
            handled
    moved :
        {c : Crew Q} {put handled : List Event} (xs ys : List Thread) (t : Thread) (spurious : Bool)
        → Runs drain start idle c put handled
        → c.producers ≡ xs ++ t ∷ ys
        → Runs drain start idle
            (record c {
              shared = (advance W spurious c.shared t).0;
              producers = xs ++ (advance W spurious c.shared t).1 ∷ ys;
            })
            (put ++ put_by W c.shared t)
            handled
    notified :
        {c : Crew Q} {put handled : List Event} (xs ys ts : List Thread) (b : Bool)
        → Runs drain start idle c put handled
        → c.producers ≡ xs ++ notifying b ∷ ys
        → Woken W (xs ++ done b ∷ ys) ts
        → Runs drain start idle (with_producers c ts) put handled
    has_worked :
        {c : Crew Q} {put handled : List Event}
        → Runs drain start idle c put handled
        → Runs drain start idle (worked c) put (handled ++ handled_by c.worker)
    worker_notified :
        {c : Crew Q} {put handled : List Event} (draining : Bool) (e : Event) (ts : List Thread)
        → Runs drain start idle c put handled
        → c.worker ≡ notifying_one draining e
        → Woken W c.producers ts
        → Runs drain start idle
            (record c { producers = ts; worker = processing draining e })
            put
            handled
    sets_flag :
        {c : Crew Q} {put handled : List Event}
        → Runs drain start idle c put handled
        → c.stopper ≡ absent
        → Runs drain start idle (record c { drain_on_stop = drain; stopper = flagged }) put handled
    closes_queue :
        {c : Crew Q} {put handled : List Event}
        → Runs drain start idle c put handled
        → c.stopper ≡ flagged
        → Runs drain start idle
            (record c {
              shared = with_inner c.shared (W.close c.shared.events.queue);
              stopper = closed_queue;
            })
            put
            handled
    tells_queue :
        {c : Crew Q} {put handled : List Event}
        → Runs drain start idle c put handled
        → c.stopper ≡ closed_queue
        → Runs drain start idle
            (record c {
              shared = with_inner c.shared (W.notify_all c.shared.events.queue);
              stopper = told_queue;
            })
            put
            handled
    tells_all :
        {c : Crew Q} {put handled : List Event}
        → Runs drain start idle c put handled
        → c.stopper ≡ told_queue
        → Runs drain start idle
            (record c { producers = map wake c.producers; stopper = told_all })
            put
            handled
    requests_stop :
        {c : Crew Q} {put handled : List Event}
        → Runs drain start idle c put handled
        → c.stopper ≡ told_all
        → Runs drain start idle
            (record c { shared = record c.shared { stop = true }; stopper = requested })
            put
            handled
    joins :
        {c : Crew Q} {put handled : List Event}
        → Runs drain start idle c put handled
        → c.stopper ≡ requested
        → c.worker ≡ left
        → Runs drain start idle (record c { stopper = joined }) put handled
    switched :
        {c : Crew Q} {put handled : List Event} (accepting : Bool)
        → Runs drain start idle c put handled
        → Runs drain start idle
            (with_shared c (record c.shared { accepting = accepting }))
            put
            handled
