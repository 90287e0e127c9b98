-- ===== src/Crossbar/Stopping.antt =====
-- What a lane writes when its worker is given time and when it is stopped.
use sy_log.Crossbar.Worker.{
  written_for, written_for-append, Pops, Ran, pop_loop-Ran, DrainedAll, drain_loop-DrainedAll,
}
use sy_log.Crossbar.{
  Lane, also_written, left, asleep, pop_loop, drain_loop, rounds, lane_loop, close_lane, join_lane,
  stop_lane, worker_turn,
}
use sy_log.Event.{Event}
use sy_log.Prelude.{
  ℕ, ◌<◌, ◌≡◌, refl, sym, ap, ap₂, ◌∙◌, Bool, true, false, List, [], ◌++◌, append-nil, length,
  arith, if-cases, inl, inr,
}
use sy_log.Queue
use sy_log.Queue.Laws.{IsCounted, events, close_lem}
use sy_log.Queue.{WorkersEventQueue, new_queue}
use sy_log.Route.{Output}
use sy_log.Workers.{BlockingQueue, QueueLaws, ended}

module _ {Q : Type 0} (W : BlockingQueue Event Q) where
  pub turn-kept :
      (l : Lane Q) → ((worker_turn W l).1.route ≡ l.route) × ((worker_turn W l).1.worker ≡ l.worker)
  unfolding worker_turn
  turn-kept l =
      if-cases (λ (t : List Output × Lane Q). (t.1.route ≡ l.route) × (t.1.worker ≡ l.worker))
        l.worker _ _ (λ _. (refl, refl)) (λ _. (refl, refl))

module _ {Q : Type 0} {W : BlockingQueue Event Q} (laws : QueueLaws W) where
  open laws use {closed}

  enough : (q : WorkersEventQueue Q) → IsCounted laws q → length (events laws q) < rounds q
  enough q c = omega arith

  -- The worker's first loop, with the rounds that `lane_loop` gives it.
  first_loop :
      (lane : Lane Q) (stop : Bool)
      → IsCounted laws lane.queue
      → Ran laws lane.route lane.queue stop
          (pop_loop W (rounds lane.queue) lane.route stop lane.queue)
  first_loop lane stop c =
      pop_loop-Ran laws lane.route (rounds lane.queue) stop lane.queue c (enough lane.queue c)

  -- How the two loops of the worker follow one another.
  lane_loop-drain :
      (lane : Lane Q)
      → let first = pop_loop W (rounds lane.queue) lane.route true lane.queue in
        first.at ≡ left
        → lane.drain_on_stop ≡ true
        → lane_loop W lane true
          ≡ also_written first.written (drain_loop W (rounds first.queue) lane.route first.queue)
  unfolding lane_loop
  lane_loop-drain lane at drain = rw (at, lane_loop, drain)

  -- A worker that is stopped with the drain flag set writes for every queued event, in order, and
  -- leaves the queue empty.
  pub lane_loop-DrainedAll :
      (lane : Lane Q)
      → IsCounted laws lane.queue
      → lane.drain_on_stop ≡ true
      → DrainedAll laws lane.route lane.queue (lane_loop W lane true)
  lane_loop-DrainedAll lane c drain =
      let first = pop_loop W (rounds lane.queue) lane.route true lane.queue in
      let ran = first_loop lane true c in
      let at : first.at ≡ left = ground (arith, ran.reason) in
      let rest =
        drain_loop-DrainedAll laws lane.route (rounds first.queue) first.queue ran.kept
          (enough first.queue ran.kept) in
      rw (lane_loop-drain lane at drain) (record {
        output =
            ap₂ ◌++◌ ran.output rest.output
            ∙ sym (written_for-append lane.route ran.taken (events laws first.queue))
            ∙ ap (written_for lane.route) (sym ran.split);
        emptied = rest.emptied;
        kept = rest.kept;
        same_capacity = rest.same_capacity ∙ ran.same_capacity;
        same_closed = rest.same_closed ∙ ran.same_closed;
        done = rest.done;
      })

  -- The lane as `stop_lane` joins it: closed, with the flag set.
  closed_lane :
      (drain : Bool) (lane : Lane Q)
      → IsCounted laws lane.queue
      → IsCounted laws (close_lane W drain lane).queue
        × (events laws (close_lane W drain lane).queue ≡ events laws lane.queue)
        × (closed (close_lane W drain lane).queue.queue ≡ true)
  unfolding close_lane
  closed_lane drain lane c = let law = close_lem laws lane.queue c in (law.0, law.1, law.2)

  -- Stopping a lane gracefully, where its counter is right and its worker runs, writes for every
  -- queued event, in the order of the queue, leaves the queue empty and joins the worker.
  pub stop_lane_drains :
      (capacity : ℕ) (lane : Lane Q)
      → IsCounted laws lane.queue
      → lane.worker ≡ true
      → ((stop_lane W true capacity lane).0 ≡ written_for lane.route (events laws lane.queue))
        × (events laws (stop_lane W true capacity lane).1.queue ≡ [])
        × ((stop_lane W true capacity lane).1.worker ≡ false)
  unfolding stop_lane join_lane close_lane lane_loop
  stop_lane_drains capacity lane c on =
      let shut = closed_lane true lane c in
      let done = lane_loop-DrainedAll (close_lane W true lane) shut.0 refl in
      rw on (done.output ∙ ap (written_for lane.route) shut.1, done.emptied, refl)

  -- A lane whose worker was never started writes nothing when it is stopped gracefully: what it
  -- held stays in its closed queue.
  pub stop_lane_idle :
      (capacity : ℕ) (lane : Lane Q)
      → IsCounted laws lane.queue
      → lane.worker ≡ false
      → ((stop_lane W true capacity lane).0 ≡ [])
        × (events laws (stop_lane W true capacity lane).1.queue ≡ events laws lane.queue)
        × (closed (stop_lane W true capacity lane).1.queue.queue ≡ true)
  unfolding stop_lane join_lane close_lane lane_loop
  stop_lane_idle capacity lane c off =
      let shut = closed_lane true lane c in rw off (refl, shut.1, shut.2)

  lane_loop-fast :
      (lane : Lane Q)
      → IsCounted laws lane.queue
      → lane.drain_on_stop ≡ false
      → Ran laws lane.route lane.queue true (lane_loop W lane true)
        × ((lane_loop W lane true).at ≡ left)
  unfolding lane_loop
  lane_loop-fast lane c flag =
      let ran = first_loop lane true c in
      let at : (pop_loop W (rounds lane.queue) lane.route true lane.queue).at ≡ left =
        ground (arith, ran.reason) in
      rw (at, lane_loop, flag) (ran, at)

  -- A fast stop of a lane whose counter is right and whose worker runs: from the closed queue the
  -- worker takes events, with a stop requested, until `pop_blocking` reports the end, and these
  -- are the first events of the queue. The lane writes for these events and for no other, so the
  -- others are dropped; it has a fresh, empty, open queue afterwards, and its worker is joined.
  pub stop_lane_fast :
      (capacity : ℕ) (lane : Lane Q)
      → IsCounted laws lane.queue
      → lane.worker ≡ true
      → (taken : List Event) × (rest : WorkersEventQueue Q) × Pops W true
          (Queue.close W lane.queue)
          taken
          rest
        × ((Queue.pop_blocking W rest true).0 ≡ ended)
        × (events laws lane.queue ≡ taken ++ events laws rest)
        × ((stop_lane W false capacity lane).0 ≡ written_for lane.route taken)
        × ((stop_lane W false capacity lane).1.queue ≡ new_queue W capacity)
        × ((stop_lane W false capacity lane).1.worker ≡ false)
  unfolding stop_lane join_lane close_lane lane_loop
  stop_lane_fast capacity lane c on =
      let shut = closed_lane false lane c in
      let (ran, at) = lane_loop-fast (close_lane W false lane) shut.0 refl in
      let last : (Queue.pop_blocking W ran.rest true).0 ≡ ended = elim ran.no_more [
        | inl h ↦ h.1
        | inr h ↦ absurd (cc (h.0, at))
      ] in
      rw on (
        ran.taken,
        ran.rest,
        ran.pops,
        last,
        sym shut.1 ∙ ran.split ∙ ap (◌++◌ ran.taken) ran.left_over,
        ran.output,
        refl,
        refl,
      )

  lane_loop-open :
      (lane : Lane Q)
      → IsCounted laws lane.queue
      → closed lane.queue.queue ≡ false
      → Ran laws lane.route lane.queue false (lane_loop W lane false)
        × (events laws (lane_loop W lane false).queue ≡ [])
  unfolding lane_loop
  lane_loop-open lane c open_ =
      let first = pop_loop W (rounds lane.queue) lane.route false lane.queue in
      let ran = first_loop lane false c in
      let at : first.at ≡ asleep = ground (arith, ran.reason, ran.same_closed) in
      rw (at, lane_loop) (ran, ground (arith, ran.reason))

  -- A running worker that is given time, on an open queue whose counter is right, writes for
  -- every queued event, in order, and leaves the queue empty and open, with its counter right.
  pub worker_turn_lem :
      (lane : Lane Q)
      → IsCounted laws lane.queue
      → lane.worker ≡ true
      → closed lane.queue.queue ≡ false
      → ((worker_turn W lane).0 ≡ written_for lane.route (events laws lane.queue))
        × (events laws (worker_turn W lane).1.queue ≡ [])
        × IsCounted laws (worker_turn W lane).1.queue
        × (closed (worker_turn W lane).1.queue.queue ≡ false)
  unfolding worker_turn lane_loop
  worker_turn_lem lane c on open_ =
      let (ran, empty) = lane_loop-open lane c open_ in
      let all : ran.taken ≡ events laws lane.queue =
        sym (append-nil ran.taken) ∙ ap (◌++◌ ran.taken) (sym empty) ∙ sym ran.split in
      rw on (ran.output ∙ ap (written_for lane.route) all, empty, ran.kept, ran.same_closed ∙ open_)
