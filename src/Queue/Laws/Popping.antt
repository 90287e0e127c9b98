-- ===== src/Queue/Laws/Popping.antt =====
-- What `try_pop` and `pop_blocking` do to a queue whose counter is right:
-- src/async/workers_event_queue.cpp.
use sy_log.Event.{Event}
use sy_log.Prelude.{
  ◌⊎◌, inl, inr, ◌≡◌, Bool, true, false, ap, sym, ◌∙◌, List-cases, [], ◌∷◌, Option, none, some,
  arith, length,
}
use sy_log.Queue.{WorkersEventQueue, release_slot, try_pop, pop_blocking}
use sy_log.Workers.{BlockingQueue, QueueLaws, PopResult, PopResult-cases, ok, ended, waits}
use sy_log.Queue.Laws.{IsCounted, events}

module _ {Q : Type 0} {W : BlockingQueue Event Q} (laws : QueueLaws W) where
  open laws use {contents, closed}

  -- What a pop comes to.
  pub record Popped (q : WorkersEventQueue Q) (o : Option Event) (q' : WorkersEventQueue Q)
      : Type 0 where
    pub kept : IsCounted laws q'
    pub same_capacity : q'.capacity ≡ q.capacity
    pub same_closed : closed q'.queue ≡ closed q.queue
    pub front : (e : Event) → o ≡ some e → events laws q ≡ e ∷ events laws q'
    pub nothing : o ≡ none → events laws q' ≡ events laws q

  release-IsCounted :
      (q : WorkersEventQueue Q) (inner : Q) (e : Event)
      → IsCounted laws q
      → contents q.queue ≡ e ∷ contents inner
      → IsCounted laws (release_slot W (record q { queue = inner }))
  unfolding release_slot
  release-IsCounted q inner e c h = omega (arith, ap length h, c)

  pub try_pop-Popped :
      (q : WorkersEventQueue Q) → IsCounted laws q → Popped q (try_pop W q).0 (try_pop W q).1
  unfolding try_pop
  try_pop-Popped q c = elim (List-cases (contents q.queue)) [
    | inl empty ↦
        let law = laws.try_pop_empty q.queue empty in
        record {
          kept = ground arith;
          same_capacity = ground arith;
          same_closed = ground arith;
          front = ground arith;
          nothing = ground arith;
        }
    | inr (e, rest, held) ↦
        let law = laws.try_pop_front q.queue e rest held in
        let less = release-IsCounted q (W.try_pop q.queue).1 e c (held ∙ ap (◌∷◌ e) (sym law.1)) in
        record {
          kept = ground arith;
          same_capacity = ground arith;
          same_closed = ground arith;
          front = ground arith;
          nothing = ground arith;
        }
  ]

  -- `try_pop` fails on an empty queue only.
  pub try_pop_none : (q : WorkersEventQueue Q) → (try_pop W q).0 ≡ none → events laws q ≡ []
  unfolding try_pop
  try_pop_none q h = elim (List-cases (contents q.queue)) [
    | inl empty ↦ empty
    | inr (e, rest, held) ↦ ground (arith, laws.try_pop_front q.queue e rest held)
  ]

  -- `pop_blocking` by its outcomes: an event, the end, or a caller that waits.
  pub record Got (q : WorkersEventQueue Q) (e : Event) (p : PopResult Event × WorkersEventQueue Q)
      : Type 0 where
    pub result : p.0 ≡ ok e
    pub kept : IsCounted laws p.1
    pub same_capacity : p.1.capacity ≡ q.capacity
    pub same_closed : closed p.1.queue ≡ closed q.queue
    pub front : events laws q ≡ e ∷ events laws p.1

  pub record Over (q : WorkersEventQueue Q) (stop : Bool)
      (p : PopResult Event × WorkersEventQueue Q) : Type 0 where
    pub result : p.0 ≡ ended
    pub kept : IsCounted laws p.1
    pub same_capacity : p.1.capacity ≡ q.capacity
    pub same_closed : closed p.1.queue ≡ closed q.queue
    pub same : events laws p.1 ≡ events laws q
    pub why : (stop ≡ true) ⊎ ((events laws q ≡ []) × (closed q.queue ≡ true))

  pub record Asleep (q : WorkersEventQueue Q) (stop : Bool)
      (p : PopResult Event × WorkersEventQueue Q) : Type 0 where
    pub result : p.0 ≡ waits
    pub kept : IsCounted laws p.1
    pub same_capacity : p.1.capacity ≡ q.capacity
    pub open_before : closed q.queue ≡ false
    pub open_after : closed p.1.queue ≡ false
    pub running : stop ≡ false
    pub empty_before : events laws q ≡ []
    pub empty_after : events laws p.1 ≡ []

  -- `pop_blocking` on a queue whose counter is right gives out the first event; or it ends, on a
  -- stop request or on a closed and empty queue, with the events laws as they were; or the caller
  -- waits, on an open and empty queue without a stop request. In each case the counter stays
  -- right.
  pub pop_blocking_cases :
      (q : WorkersEventQueue Q) (stop : Bool)
      → IsCounted laws q
      → ((e : Event) × Got q e (pop_blocking W q stop))
        ⊎ (Over q stop (pop_blocking W q stop) ⊎ Asleep q stop (pop_blocking W q stop))
  unfolding pop_blocking
  pop_blocking_cases q stop c = elim (PopResult-cases (W.pop q.queue stop).0) [
    | inl (e, h) ↦
        let law = laws.pop_ok q.queue stop e h in
        let less = release-IsCounted q (W.pop q.queue stop).1 e c law.0 in
        inl (
          e,
          record {
            result = ground arith;
            kept = ground arith;
            same_capacity = ground arith;
            same_closed = ground arith;
            front = ground arith;
          },
        )
    | inr (inl h) ↦
        let law = laws.pop_ended q.queue stop h in
        inr (
          inl (record {
            result = ground arith;
            kept = ground arith;
            same_capacity = ground arith;
            same_closed = ground arith;
            same = ground arith;
            why = law.2;
          }))
    | inr (inr h) ↦
        let law = laws.pop_waits q.queue stop h in
        inr (
          inr (record {
            result = ground arith;
            kept = ground arith;
            same_capacity = ground arith;
            open_before = law.1;
            open_after = ground arith;
            running = law.2;
            empty_before = law.0;
            empty_after = ground arith;
          }))
  ]
