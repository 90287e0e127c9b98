-- ===== src/Crossbar/Worker.antt =====
-- The worker of a lane: what it writes while it runs and when it is stopped.
use sy_log.Crossbar.{left, asleep, Worked, pop_loop, drain_loop}
use sy_log.Event.{Event}
use sy_log.Prelude.{
  ℕ, zero, suc, ◌<◌, ◌≡◌, refl, sym, ap, ◌∙◌, ◌⊎◌, inl, inr, Bool, true, false, List, [], ◌∷◌, ◌++◌,
  append_assoc, Option-cases, length, arith,
}
use sy_log.Queue.{WorkersEventQueue}
use sy_log.Queue
use sy_log.Queue.Laws.{IsCounted, events}
use sy_log.Queue.Laws.Popping.{pop_blocking_cases, try_pop-Popped, try_pop_none}
use sy_log.Route.{Route, Output, process}
use sy_log.Workers.{BlockingQueue, QueueLaws, ok, ended, waits}

module _ {Q : Type 0} where
  -- What a route writes for events in a row.
  unfoldable pub written_for : Route Q → List Event → List Output
  written_for r [] = []
  written_for r (e ∷ es) = process r e ++ written_for r es

  pub written_for-append :
      (r : Route Q) (xs ys : List Event)
      → written_for r (xs ++ ys) ≡ written_for r xs ++ written_for r ys
  unfolding written_for
  written_for-append r [] ys = refl
  written_for-append r (e ∷ xs) ys =
      ap (◌++◌ (process r e)) (written_for-append r xs ys)
      ∙ sym (append_assoc (process r e) (written_for r xs) (written_for r ys))

-- Calls of `pop_blocking` that give events, one after another, and the queue that is left.
pub data Pops {Q : Type 0} (W : BlockingQueue Event Q) (stop : Bool)
    : WorkersEventQueue Q → List Event → WorkersEventQueue Q → Type 0 where
  none_popped : (q : WorkersEventQueue Q) → Pops W stop q [] q
  one_popped :
      {q r : WorkersEventQueue Q} {e : Event} {es : List Event}
      → (Queue.pop_blocking W q stop).0 ≡ ok e
      → Pops W stop (Queue.pop_blocking W q stop).1 es r
      → Pops W stop q (e ∷ es) r

module _ {Q : Type 0} {W : BlockingQueue Event Q} (laws : QueueLaws W) (r : Route Q) where
  open laws use {closed}

  -- The loop took some events off the front, wrote what the route writes for them, and left for a
  -- reason.
  pub record Ran (q : WorkersEventQueue Q) (stop : Bool) (w : Worked Q) : Type 0 where
    pub taken : List Event
    pub split : events laws q ≡ taken ++ events laws w.queue
    pub output : w.written ≡ written_for r taken
    pub rest : WorkersEventQueue Q
    pub pops : Pops W stop q taken rest
    pub no_more :
        ((w.at ≡ left) × ((Queue.pop_blocking W rest stop).0 ≡ ended))
        ⊎ ((w.at ≡ asleep) × ((Queue.pop_blocking W rest stop).0 ≡ waits))
    pub left_over : events laws w.queue ≡ events laws rest
    pub kept : IsCounted laws w.queue
    pub same_capacity : w.queue.capacity ≡ q.capacity
    pub same_closed : closed w.queue.queue ≡ closed q.queue
    pub reason :
        ((w.at ≡ left)
          × ((stop ≡ true) ⊎ ((events laws w.queue ≡ []) × (closed w.queue.queue ≡ true))))
        ⊎ ((w.at ≡ asleep) × (stop ≡ false) × (events laws w.queue ≡ []))

  pub pop_loop-Ran :
      (n : ℕ) (stop : Bool) (q : WorkersEventQueue Q)
      → IsCounted laws q
      → length (events laws q) < n
      → Ran q stop (pop_loop W n r stop q)
  unfolding pop_loop written_for
  pop_loop-Ran zero stop q c h = absurd (omega arith)
  pop_loop-Ran (suc n) stop q c h = elim (pop_blocking_cases laws q stop c) [
    | inl (e, got) ↦
        let q' = (Queue.pop_blocking W q stop).1 in
        let ih = pop_loop-Ran n stop q' got.kept (omega (arith, ap length got.front)) in
        rw (got.result, pop_loop)
          (record {
            taken = e ∷ ih.taken;
            split = got.front ∙ ap (◌∷◌ e) ih.split;
            output = ap (◌++◌ (process r e)) ih.output;
            rest = ih.rest;
            pops = one_popped got.result ih.pops;
            no_more = ih.no_more;
            left_over = ih.left_over;
            kept = ih.kept;
            same_capacity = ih.same_capacity ∙ got.same_capacity;
            same_closed = ih.same_closed ∙ got.same_closed;
            reason = ih.reason;
          })
    | inr (inl over) ↦
        rw (over.result, pop_loop)
          (record {
            taken = [];
            split = sym over.same;
            output = refl;
            rest = q;
            pops = none_popped q;
            no_more = inl (refl, over.result);
            left_over = over.same;
            kept = over.kept;
            same_capacity = over.same_capacity;
            same_closed = over.same_closed;
            reason = ground (arith, over.same, over.why, over.same_closed);
          })
    | inr (inr sleep) ↦
        rw (sleep.result, pop_loop)
          (record {
            taken = [];
            split = sleep.empty_before ∙ sym sleep.empty_after;
            output = refl;
            rest = q;
            pops = none_popped q;
            no_more = inr (refl, sleep.result);
            left_over = sleep.empty_after ∙ sym sleep.empty_before;
            kept = sleep.kept;
            same_capacity = sleep.same_capacity;
            same_closed = sleep.open_after ∙ sym sleep.open_before;
            reason = inr (refl, sleep.running, sleep.empty_after);
          })
  ]

  -- The drain loop writes for every event and leaves the queue empty.
  pub record DrainedAll (q : WorkersEventQueue Q) (w : Worked Q) : Type 0 where
    pub output : w.written ≡ written_for r (events laws q)
    pub emptied : events laws w.queue ≡ []
    pub kept : IsCounted laws w.queue
    pub same_capacity : w.queue.capacity ≡ q.capacity
    pub same_closed : closed w.queue.queue ≡ closed q.queue
    pub done : w.at ≡ left

  pub drain_loop-DrainedAll :
      (n : ℕ) (q : WorkersEventQueue Q)
      → IsCounted laws q
      → length (events laws q) < n
      → DrainedAll q (drain_loop W n r q)
  unfolding drain_loop written_for
  drain_loop-DrainedAll zero q c h = absurd (omega arith)
  drain_loop-DrainedAll (suc n) q c h =
      let pop = try_pop-Popped laws q c in
      elim (Option-cases (Queue.try_pop W q).0) [
        | inl nothing ↦
            let empty = try_pop_none laws q nothing in
            rw (nothing, drain_loop)
              (record {
                output = rw empty refl;
                emptied = pop.nothing nothing ∙ empty;
                kept = pop.kept;
                same_capacity = pop.same_capacity;
                same_closed = pop.same_closed;
                done = refl;
              })
        | inr (e, some_e) ↦
            let front = pop.front e some_e in
            let ih =
              drain_loop-DrainedAll n (Queue.try_pop W q).1 pop.kept
                (omega (arith, ap length front)) in
            rw (some_e, drain_loop)
              (record {
                output = ap (◌++◌ (process r e)) ih.output ∙ ap (written_for r) (sym front);
                emptied = ih.emptied;
                kept = ih.kept;
                same_capacity = ih.same_capacity ∙ pop.same_capacity;
                same_closed = ih.same_closed ∙ pop.same_closed;
                done = ih.done;
              })
      ]
