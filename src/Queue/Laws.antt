-- ===== src/Queue/Laws.antt =====
-- The bounded queue refines a list of at most `capacity` events.
pub mod Popping
use sy_log.Event.{Event}
use sy_log.Prelude.{
  ℕ, ◌+◌, ◌^◌, ◌≤◌, ◌<◌, ◌⊎◌, inl, inr, Bool-cases, ◌≡◌, refl, Bool, true, false, ap, sym, ◌∙◌,
  List-cases, if◌then◌else◌, List, [], ◌∷◌, ◌++◌, Option, none, some, ltb, arith, length,
  length-append,
}
use sy_log.Queue.{
  WorkersEventQueue, returned, waiting, new_queue, reserve_slot, release_slot, push_reserved,
  try_push, push_blocking, try_pop, pop_blocking, notify_all, close,
}
use sy_log.Workers.{BlockingQueue, QueueLaws, PopResult, ok, ended, waits}

module _ {Q : Type 0} {W : BlockingQueue Event Q} (laws : QueueLaws W) where
  open laws use {contents, closed}

  -- The counter counts what the inner queue holds, within the capacity.
  pub record IsCounted (q : WorkersEventQueue Q) : Type 0 where
    pub counted : q.size ≡ length (contents q.queue)
    pub bounded : q.size ≤ q.capacity
    pub roomy : 1 ≤ q.capacity
    pub small : q.capacity < 2 ^ 64

  abbrev pub events : WorkersEventQueue Q → List Event
  events q = contents q.queue

  pub new_queue-IsCounted : (capacity : ℕ) → capacity < 2 ^ 64 → IsCounted (new_queue W capacity)
  unfolding new_queue
  new_queue-IsCounted capacity h = ground (arith, laws.fresh_empty)

  -- Closing refuses later events and keeps the ones that are queued.
  pub close_lem :
      (q : WorkersEventQueue Q)
      → IsCounted q
      → IsCounted (close W q)
        × (events (close W q) ≡ events q)
        × (closed (close W q).queue ≡ true)
        × ((close W q).capacity ≡ q.capacity)
  unfolding close notify_all
  close_lem q c =
      let shut = laws.close_keeps q.queue in
      let told = laws.notify_keeps (W.close q.queue) in
      (omega (arith, ap length shut.0, ap length told.0), ground arith, ground arith, refl)

  -- What a push comes to, in terms of the events held.
  pub record Pushed (q : WorkersEventQueue Q) (e : Event) (r : Bool × WorkersEventQueue Q)
      : Type 0 where
    pub kept : IsCounted r.1
    pub same_capacity : r.1.capacity ≡ q.capacity
    pub same_closed : closed r.1.queue ≡ closed q.queue
    pub accepted : r.0 ≡ true → (events r.1 ≡ events q ++ e ∷ []) × (closed q.queue ≡ false)
    pub refused : r.0 ≡ false → events r.1 ≡ events q

  push_reserved-Pushed :
      (q : WorkersEventQueue Q) (e : Event)
      → IsCounted q
      → q.size < q.capacity
      → Pushed q e (push_reserved W (record q { size = q.size + 1 }) e)
  unfolding push_reserved
  push_reserved-Pushed q e c h = elim (Bool-cases (closed q.queue)) [
    | inl shut ↦
        let law = laws.push_closed q.queue e shut in
        record {
          kept = ground arith;
          same_capacity = ground arith;
          same_closed = ground arith;
          accepted = ground arith;
          refused = ground arith;
        }
    | inr open_ ↦
        let law = laws.push_open q.queue e open_ in
        record {
          kept = ground (arith, length-append (contents q.queue) (e ∷ []));
          same_capacity = ground arith;
          same_closed = ground arith;
          accepted = ground arith;
          refused = ground arith;
        }
  ]

  -- `try_push` on a queue whose counter is right keeps the counter right, the capacity and
  -- whether the queue is closed; if it succeeds, the queue was open and has the event at its end,
  -- and if it fails, the queue holds what it held.
  pub try_push-Pushed :
      (q : WorkersEventQueue Q) (e : Event) → IsCounted q → Pushed q e (try_push W q e)
  unfolding try_push reserve_slot
  try_push-Pushed q e c = elim (Bool-cases (ltb q.size q.capacity)) [
    | inl room ↦ rw room (push_reserved-Pushed q e c (ground arith))
    | inr full ↦ rw full (record {
      kept = c;
      same_capacity = refl;
      same_closed = refl;
      accepted = λ h. cc;
      refused = λ _. refl;
    })
  ]

  pub try_push_full :
      (q : WorkersEventQueue Q) (e : Event) → q.capacity ≤ q.size → try_push W q e ≡ (false, q)
  unfolding try_push reserve_slot
  try_push_full q e h = ground arith

  pub try_push_roomy :
      (q : WorkersEventQueue Q) (e : Event)
      → q.size < q.capacity
      → closed q.queue ≡ false
      → (try_push W q e).0 ≡ true
  unfolding try_push reserve_slot push_reserved
  try_push_roomy q e h k = ground (arith, laws.push_open q.queue e k)

  -- While the pipeline accepts events, `push_blocking` is `try_push` on a queue with a free slot,
  -- and leaves the caller waiting on a full one.
  pub push_blocking_lem :
      (q : WorkersEventQueue Q) (e : Event)
      → push_blocking W q e true ≡ (
          if ltb q.size q.capacity then returned (try_push W q e).0 (try_push W q e).1 else waiting)
  unfolding push_blocking try_push reserve_slot
  push_blocking_lem q e = ground arith

  -- Once the pipeline accepts nothing, it fails at once.
  pub push_blocking_refused :
      (q : WorkersEventQueue Q) (e : Event) → push_blocking W q e false ≡ returned false q
  unfolding push_blocking
  push_blocking_refused q e = refl
