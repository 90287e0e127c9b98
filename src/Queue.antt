-- ===== src/Queue.antt =====
-- src/async/workers_event_queue.{hpp,cpp}: the bounded event queue. Each function is one call with
-- no other thread in between.
pub mod Laws
pub mod Threads
use sy_log.Event.{Event}
use sy_log.Prelude.{
  ℕ, ◌+◌, ◌-◌, ◌%◌, ◌^◌, Bool, true, false, Option, none, some, ltb, ◌==◌, if◌then◌else◌,
}
use sy_log.Workers.{BlockingQueue, PopResult, ok, ended, waits}

pub record WorkersEventQueue (Q : Type 0) : Type 0 where
  pub capacity : ℕ
  pub queue : Q
  pub size : ℕ

-- `std::max<std::size_t>(capacity, 1u)`
abbrev pub at_least_one : ℕ → ℕ
at_least_one capacity = if ltb capacity 1 then 1 else capacity

-- What `push_blocking` comes to: it returns, or the caller waits for space. A caller that waits
-- has changed nothing; when it is woken it goes through the loop again, which is another call.
pub data Push (Q : Type 0) : Type 0 where
  returned : Bool → WorkersEventQueue Q → Push Q
  waiting : Push Q

module _ {Q : Type 0} (W : BlockingQueue Event Q) where
  unfoldable pub new_queue : ℕ → WorkersEventQueue Q
  new_queue capacity = record { capacity = at_least_one capacity; queue = W.fresh; size = 0 }

  unfoldable pub is_empty : WorkersEventQueue Q → Bool
  is_empty q = q.size == 0

  -- With no other thread in between the compare-exchange succeeds at once.
  unfoldable pub reserve_slot : WorkersEventQueue Q → Bool × WorkersEventQueue Q
  reserve_slot q =
      if ltb q.size q.capacity then (true, record q { size = q.size + 1 }) else (false, q)

  -- `fetch_sub` on a `std::size_t`.
  unfoldable pub release_slot : WorkersEventQueue Q → WorkersEventQueue Q
  release_slot q = record q { size = (q.size + 2 ^ 64 - 1) % 2 ^ 64 }

  -- `queue_.push` after a slot is reserved, with the slot given back if it fails.
  unfoldable pub push_reserved : WorkersEventQueue Q → Event → Bool × WorkersEventQueue Q
  unfolding release_slot
  push_reserved q e =
      let (pushed, inner) = W.push q.queue e in
      let q' = record q { queue = inner } in if pushed then (true, q') else (false, release_slot q')

  unfoldable pub try_push : WorkersEventQueue Q → Event → Bool × WorkersEventQueue Q
  unfolding reserve_slot push_reserved
  try_push q e =
      let (reserved, q') = reserve_slot q in if reserved then push_reserved q' e else (false, q')

  -- One round of the loop: the wait's predicate is false exactly where the round comes to it.
  unfoldable pub push_blocking : WorkersEventQueue Q → Event → Bool → Push Q
  unfolding reserve_slot push_reserved
  push_blocking q e accepting =
      let (reserved, q') = reserve_slot q in
      let (pushed, q'') = push_reserved q' e in
      if accepting then if reserved then returned pushed q'' else waiting else returned false q

  unfoldable pub try_pop : WorkersEventQueue Q → Option Event × WorkersEventQueue Q
  unfolding release_slot
  try_pop q =
      let (popped, inner) = W.try_pop q.queue in
      let q' = record q { queue = inner } in
      elim popped [ none ↦ (none, q') | some e ↦ (some e, release_slot q') ]

  -- The caller may be left waiting.
  unfoldable pub pop_blocking : WorkersEventQueue Q → Bool → PopResult Event × WorkersEventQueue Q
  unfolding release_slot
  pop_blocking q stop =
      let (result, inner) = W.pop q.queue stop in
      let q' = record q { queue = inner } in
      elim result [ ok e ↦ (ok e, release_slot q') | ended ↦ (ended, q') | waits ↦ (waits, q') ]

  -- The condition variable holds no data: only the inner queue is told.
  unfoldable pub notify_all : WorkersEventQueue Q → WorkersEventQueue Q
  notify_all q = record q { queue = W.notify_all q.queue }

  unfoldable pub close : WorkersEventQueue Q → WorkersEventQueue Q
  unfolding notify_all
  close q = notify_all (record q { queue = W.close q.queue })
