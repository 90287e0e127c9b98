-- ===== src/Crossbar/Threads/Lossless.antt =====
-- Nothing that a lane accepted is lost or reordered, whatever the interleaving: the invariant of
-- src/async/sink_crossbar.cpp along a run.
use sy_log.Crossbar.Threads.{
  notifying_one, processing, left, Crew, push_call, at_rest, Runs, begun, called, moved, notified,
  has_worked, worker_notified, sets_flag, closes_queue, tells_queue, tells_all, requests_stop,
  joins, switched,
}
use sy_log.Crossbar.Threads.Kept.{
  has_flagged, has_closed, IsKept, regroup, other_producers, moved-IsKept, worked-IsKept,
}
use sy_log.Crossbar.Threads.Producers.{Produces, begin-Produces, All-Woken}
use sy_log.Crossbar.Threads.Stopping.{
  switched-Kept, flagged-Kept, closed_queue-Kept, told_queue-Kept, told_all-Kept, requested-Kept,
  joined-Kept,
}
use sy_log.Crossbar.Threads.Work.{slot, holding, past_loop, has_left}
use sy_log.Crossbar.Worker.{written_for}
use sy_log.Event.{Event}
use sy_log.Prelude.{
  ◌+◌, ◌≤◌, ◌≡◌, refl, sym, ap, subst, ◌∙◌, Bool, true, false, List, [], ◌∷◌, ◌++◌, map, All,
  All-replaced, append-nil, length, arith,
}
use sy_log.Queue.{WorkersEventQueue}
use sy_log.Queue.Laws.{IsCounted, events}
use sy_log.Queue.Threads.{Thread, done, notifying, begin, Woken}
use sy_log.Queue.Threads.Bounded.{Woken-all_hold, same_hold, all_hold-done}
use sy_log.Queue.Threads.Slots.{holds, all_hold, holds-begin, inside}
use sy_log.Route.{Route}
use sy_log.Workers.{BlockingQueue, QueueLaws}

All-done : (bs : List Bool) → All Produces (map done bs)
All-done [] = tt
All-done (b ∷ bs) = (tt, All-done bs)

module _ {Q : Type 0} {W : BlockingQueue Event Q} (laws : QueueLaws W) (route : Route Q)
    (drain : Bool) (start : WorkersEventQueue Q) (idle : List Bool) (counted : IsCounted laws start)
    (open_ : laws.closed start.queue ≡ false) where
  open laws use {contents, closed}

  begun-IsKept : IsKept laws route drain start (at_rest start idle) [] []
  unfolding slot holding past_loop has_left has_flagged has_closed written_for
  begun-IsKept = record {
    fits = record {
      counted = omega (arith, counted.counted, all_hold-done laws idle);
      bounded = counted.bounded;
      small = counted.small;
    };
    same_capacity = refl;
    produces = All-done idle;
    output = refl;
    order = sym (append-nil (events laws start));
    closes = record {
      flags = λ h. absurd (cc h);
      after_flag = λ h. absurd (cc (open_, h));
      shuts = λ h. absurd (cc h);
      stops = λ h. absurd (cc h);
      loops = λ h. absurd (cc h);
      leaves = λ _ h. absurd (cc h);
    };
  }

  called-IsKept :
      (c : Crew Q) (xs ys : List Thread) (b blocks : Bool) (e : Event) (put handled : List Event)
      → c.producers ≡ xs ++ done b ∷ ys
      → IsKept laws route drain start c put handled
      → IsKept laws route drain start
          (record c { producers = xs ++ begin (push_call blocks e) ∷ ys })
          put
          handled
  unfolding holds
  called-IsKept c xs ys b blocks e put handled here k =
      let t = begin (push_call blocks e) in
      other_producers laws route drain start c (xs ++ t ∷ ys) put handled
        (same_hold laws xs ys t (done b) (holds-begin (push_call blocks e))
          ∙ ap all_hold (sym here))
        (All-replaced Produces xs ys (done b) t (begin-Produces blocks e)
          (subst (All Produces) here k.produces))
        k

  notified-IsKept :
      (c : Crew Q) (xs ys ts : List Thread) (b : Bool) (put handled : List Event)
      → c.producers ≡ xs ++ notifying b ∷ ys
      → Woken W (xs ++ done b ∷ ys) ts
      → IsKept laws route drain start c put handled
      → IsKept laws route drain start (record c { producers = ts }) put handled
  unfolding holds
  notified-IsKept c xs ys ts b put handled here woken k =
      other_producers laws route drain start c ts put handled
        (Woken-all_hold laws (xs ++ done b ∷ ys) ts woken
          ∙ same_hold laws xs ys (done b) (notifying b) refl
          ∙ ap all_hold (sym here))
        (All-Woken laws (xs ++ done b ∷ ys) ts woken (
          All-replaced Produces xs ys (notifying b) (done b) tt
            (subst (All Produces) here k.produces)))
        k

  worker_notified-IsKept :
      (c : Crew Q) (draining : Bool) (e : Event) (ts : List Thread) (put handled : List Event)
      → c.worker ≡ notifying_one draining e
      → Woken W c.producers ts
      → IsKept laws route drain start c put handled
      → IsKept laws route drain start
          (record c { producers = ts; worker = processing draining e })
          put
          handled
  unfolding slot holding past_loop has_left
  worker_notified-IsKept c draining e ts put handled here woken k =
      regroup laws route drain start c ts (processing draining e) put handled
        (omega (arith, Woken-all_hold laws c.producers ts woken, ap slot here))
        (All-Woken laws c.producers ts woken k.produces) (sym (ap holding here))
        (sym (ap past_loop here)) (sym (ap has_left here)) k

  pub Runs-IsKept :
      (c : Crew Q) (put handled : List Event)
      → Runs W route drain start idle c put handled
      → IsKept laws route drain start c put handled
  Runs-IsKept _ _ _ begun = begun-IsKept
  Runs-IsKept _ put handled (called {c = c} xs ys b blocks e r here) =
      called-IsKept c xs ys b blocks e put handled here (Runs-IsKept c put handled r)
  Runs-IsKept _ _ handled (moved {c = c} {put = put} xs ys t spurious r here) =
      moved-IsKept laws route drain start c xs ys t spurious put handled here
        (Runs-IsKept c put handled r)
  Runs-IsKept _ put handled (notified {c = c} xs ys ts b r here woken) =
      notified-IsKept c xs ys ts b put handled here woken (Runs-IsKept c put handled r)
  Runs-IsKept _ put _ (has_worked {c = c} {handled = handled} r) =
      worked-IsKept laws route drain start c put handled (Runs-IsKept c put handled r)
  Runs-IsKept _ put handled (worker_notified {c = c} draining e ts r here woken) =
      worker_notified-IsKept c draining e ts put handled here woken (Runs-IsKept c put handled r)
  Runs-IsKept _ put handled (sets_flag {c = c} r h) =
      flagged-Kept laws route drain start c put handled (Runs-IsKept c put handled r)
  Runs-IsKept _ put handled (closes_queue {c = c} r h) =
      closed_queue-Kept laws route drain start c put handled h (Runs-IsKept c put handled r)
  Runs-IsKept _ put handled (tells_queue {c = c} r h) =
      told_queue-Kept laws route drain start c put handled h (Runs-IsKept c put handled r)
  Runs-IsKept _ put handled (tells_all {c = c} r h) =
      told_all-Kept laws route drain start c put handled h (Runs-IsKept c put handled r)
  Runs-IsKept _ put handled (requests_stop {c = c} r h) =
      requested-Kept laws route drain start c put handled h (Runs-IsKept c put handled r)
  Runs-IsKept _ put handled (joins {c = c} r h end) =
      joined-Kept laws route drain start c put handled h (Runs-IsKept c put handled r)
  Runs-IsKept _ put handled (switched {c = c} accepting r) =
      switched-Kept laws route drain start c accepting put handled (Runs-IsKept c put handled r)

module _ {Q : Type 0} {W : BlockingQueue Event Q} (laws : QueueLaws W) (route : Route Q)
    (start : WorkersEventQueue Q) (idle : List Bool) (c : Crew Q) (put handled : List Event) where
  -- Start from a lane whose counter is right, whose queue is open and whose worker has just
  -- begun, and let any number of idle producers, the worker and a stop that drains or not
  -- interleave. At each point: what was written is what the route writes for the events that were
  -- processed; these, followed by the one that the worker holds and by those inside, are the
  -- events inside at the start, followed by those that the inner queue took since, in order; and
  -- the counter, at most the capacity, is the number of events inside and of slots that producers
  -- and the worker hold beyond them.
  pub Runs-in_order :
      (drain : Bool)
      → IsCounted laws start
      → laws.closed start.queue ≡ false
      → Runs W route drain start idle c put handled
      → (c.written ≡ written_for route handled)
        × (handled ++ (holding c.worker ++ inside laws c.shared) ≡ events laws start ++ put)
        × (c.shared.events.size
            ≡ length (inside laws c.shared) + (slot c.worker + all_hold c.producers))
        × (c.shared.events.size ≤ start.capacity)
  Runs-in_order drain counted open_ r =
      let k = Runs-IsKept laws route drain start idle counted open_ c put handled r in
      (k.output, k.order, k.fits.counted, omega (arith, k.fits.bounded, k.same_capacity))

  -- Start from a lane whose counter is right, whose queue is open and whose worker has just
  -- begun, and from any number of idle producers. Producers submit by the two strategies of the
  -- library, the worker runs `lane_loop_`, one call of `stop_lanes_` that drains goes through its
  -- steps, and the acceptance is switched, atomic step by atomic step and in any interleaving.
  -- Whenever the worker has returned, what was written is what the route writes for the events
  -- inside at the start, followed by those that the inner queue took since, in order, and no
  -- event is left inside.
  pub Runs-lossless :
      IsCounted laws start
      → laws.closed start.queue ≡ false
      → Runs W route true start idle c put handled
      → c.worker ≡ left
      → (c.written ≡ written_for route (events laws start ++ put)) × (inside laws c.shared ≡ [])
  unfolding has_left holding
  Runs-lossless counted open_ r gone =
      let k = Runs-IsKept laws route true start idle counted open_ c put handled r in
      let empty : inside laws c.shared ≡ [] = k.closes.leaves refl (ap has_left gone) in
      let all : handled ≡ events laws start ++ put =
        sym (append-nil handled)
        ∙ ap (λ w. handled ++ (holding w ++ [])) (sym gone)
        ∙ ap (λ es. handled ++ (holding c.worker ++ es)) (sym empty)
        ∙ k.order in
      (k.output ∙ ap (written_for route) all, empty)
