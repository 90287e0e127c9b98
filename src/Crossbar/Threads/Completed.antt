-- ===== src/Crossbar/Threads/Completed.antt =====
-- How the worker of a closed lane comes to its end: src/async/sink_crossbar.cpp, `stop_lanes_`.
use sy_log.Crossbar.Threads.{
  Worker, notifying_one, processing, handled_by, left, work, Crew, worked, Runs, has_worked,
  worker_notified,
}
use sy_log.Crossbar.Threads.Kept.{has_closed}
use sy_log.Crossbar.Threads.Leaves.{go_on, rank_zero, distance, work-Nears}
use sy_log.Crossbar.Threads.Lossless.{Runs-IsKept, Runs-lossless}
use sy_log.Crossbar.Threads.Work.{has_left, is_left, shut, work-Works}
use sy_log.Crossbar.Worker.{written_for}
use sy_log.Event.{Event}
use sy_log.Prelude.{
  ℕ, zero, suc, ◌≤◌, ◌≡◌, refl, sym, subst, ◌∙◌, Bool, true, false, List, [], ◌∷◌, ◌++◌, append-nil,
  append_assoc, arith, Bool-cases, ◌⊎◌, inl, inr,
}
use sy_log.Queue.{WorkersEventQueue}
use sy_log.Queue.Laws.{IsCounted, events}
use sy_log.Queue.Threads.{Thread, locking, sleeping, sleeps, Woken, nobody, somebody}
use sy_log.Queue.Threads.Slots.{inside}
use sy_log.Route.{Route}
use sy_log.Workers.{BlockingQueue, QueueLaws}

sleeps-cases : (t : Thread) → (sleeps t ≡ false) ⊎ ((e : Event) × (t ≡ sleeping e))
unfolding sleeps
sleeps-cases (sleeping e) = inr (e, refl)
sleeps-cases _ = inl refl

module _ {Q : Type 0} {W : BlockingQueue Event Q} where
  -- A notification can always be made.
  Woken-somehow : (ts : List Thread) → (us : List Thread) × Woken W ts us
  Woken-somehow [] = ([], nobody tt)
  Woken-somehow (t ∷ ts) = elim (sleeps-cases t) [
    | inl awake ↦ behind t awake ts (Woken-somehow ts)
    | inr (e, asleep) ↦ (
      locking e ∷ ts,
      subst (λ t. Woken W (t ∷ ts) (locking e ∷ ts)) (sym asleep) (somebody [] ts e),
    )
  ]
    where
      behind :
          (t : Thread)
          → sleeps t ≡ false
          → (ts : List Thread) → ((us : List Thread) × Woken W ts us)
          → (us : List Thread) × Woken W (t ∷ ts) us
      behind t awake ts (_, nobody h) = (t ∷ ts, nobody (awake, h))
      behind t awake _ (_, somebody xs ys e) = (t ∷ (xs ++ locking e ∷ ys), somebody (t ∷ xs) ys e)

module _ {Q : Type 0} (W : BlockingQueue Event Q) (route : Route Q) where
  -- From a crew on, the steps that the worker makes by itself, with the events that it processes.
  pub data ByWorker (c : Crew Q) : Crew Q → List Event → Type 0 where
    stays : ByWorker c c []
    works :
        {d : Crew Q} {es : List Event}
        → ByWorker c d es
        → ByWorker c (worked W route d) (es ++ handled_by d.worker)
    notifies :
        {d : Crew Q} {es : List Event} (draining : Bool) (e : Event) (ts : List Thread)
        → ByWorker c d es
        → d.worker ≡ notifying_one draining e
        → Woken W d.producers ts
        → ByWorker c (record d { producers = ts; worker = processing draining e }) es

  -- They are steps of a run.
  ByWorker-Runs :
      (drain : Bool) (start : WorkersEventQueue Q) (idle : List Bool) (c : Crew Q)
      (put handled : List Event) (d : Crew Q) (es : List Event)
      → Runs W route drain start idle c put handled
      → ByWorker c d es
      → Runs W route drain start idle d put (handled ++ es)
  ByWorker-Runs drain start idle c put handled _ _ r stays =
      subst (Runs W route drain start idle c put) (sym (append-nil handled)) r
  ByWorker-Runs drain start idle c put handled _ _ r (works {d = d} {es = es} b) =
      subst (Runs W route drain start idle (worked W route d) put)
        (append_assoc handled es (handled_by d.worker))
        (has_worked (ByWorker-Runs drain start idle c put handled d es r b))
  ByWorker-Runs drain start idle c put handled _ es r (notifies {d = d} draining e ts b h woken) =
      worker_notified draining e ts (ByWorker-Runs drain start idle c put handled d es r b) h woken

  -- The notification that a worker is about to make.
  goes_on :
      (c d : Crew Q) (es : List Event) (w : Worker)
      → ByWorker c d es
      → d.worker ≡ w
      → (us : List Thread) × ByWorker c (record d { producers = us; worker = go_on w }) es
  unfolding go_on
  goes_on c d es (notifying_one draining e) b h =
      let (us, woken) = Woken-somehow d.producers in (us, notifies draining e us b h woken)
  goes_on c d es _ b h =
      (d.producers, subst (λ (w : Worker). ByWorker c (record d { worker = w }) es) h b)

module _ {Q : Type 0} {W : BlockingQueue Event Q} (laws : QueueLaws W) (route : Route Q) where
  ByWorker-leaves :
      (n : ℕ) (c d : Crew Q) (es : List Event)
      → ByWorker W route c d es
      → shut laws d.shared ≡ true
      → distance laws route d.shared d.worker ≤ n
      → (c' : Crew Q) × (more : List Event) × ByWorker W route c c' more
        × (c'.worker ≡ left)
        × (c'.stopper ≡ d.stopper)
  ByWorker-leaves zero c d es b closed_ h =
      (d, es, b, is_left d.worker (ground (arith, rank_zero laws route d.worker)), refl)
  ByWorker-leaves (suc n) c d es b closed_ h = elim (Bool-cases (has_left d.worker)) [
    | inl done ↦ (d, es, b, is_left d.worker done, refl)
    | inr busy ↦
        let s = work W route d.drain_on_stop d.shared d.worker in
        let (us, b') = goes_on W route c (worked W route d) _ s.1 (works b) refl in
        ByWorker-leaves n c (record (worked W route d) { producers = us; worker = go_on s.1 }) _ b'
          ((work-Works laws route d.drain_on_stop d.shared d.worker).same_shut ∙ closed_)
          (omega (arith, work-Nears laws route d.drain_on_stop d.shared d.worker closed_ busy))
  ]

module _ {Q : Type 0} {W : BlockingQueue Event Q} (laws : QueueLaws W) (route : Route Q)
    (start : WorkersEventQueue Q) (idle : List Bool) (c : Crew Q) (put handled : List Event) where
  -- Start from a lane whose counter is right, whose queue is open and whose worker has just
  -- begun, and let any number of idle producers, the worker and a stop that drains interleave.
  -- From each point at which the stop has closed the queue, steps and wake-ups of the worker
  -- alone lead on, with the stop and the producers where they were, to a point at which it has
  -- returned, so that the join of `stop_lanes_` can return: everything that the inner queue took
  -- by then has been written, in order, and no event is left inside.
  pub Runs-completes :
      IsCounted laws start
      → laws.closed start.queue ≡ false
      → Runs W route true start idle c put handled
      → has_closed c.stopper ≡ true
      → (c' : Crew Q) × (more : List Event) × ByWorker W route c c' more
        × (c'.worker ≡ left)
        × (c'.stopper ≡ c.stopper)
        × (c'.written ≡ written_for route (events laws start ++ put))
        × (inside laws c'.shared ≡ [])
  Runs-completes counted open_ r closed_ =
      let k = Runs-IsKept laws route true start idle counted open_ c put handled r in
      let (c', more, b, gone, same) =
        ByWorker-leaves laws route (distance laws route c.shared c.worker) c c [] stays
          (k.closes.shuts closed_) (omega arith) in
      let r' = ByWorker-Runs W route true start idle c put handled c' more r b in
      let (all, empty) =
        Runs-lossless laws route start idle c' put (handled ++ more) counted open_ r' gone in
      (c', more, b, gone, same, all, empty)
