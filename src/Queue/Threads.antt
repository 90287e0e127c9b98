-- ===== src/Queue/Threads.antt =====
-- src/async/workers_event_queue.cpp with threads in it: each atomic operation, each call of the inner
-- queue and each step of the mutex and the condition variable is a step of its own.
pub mod Slots
pub mod Bounded
pub mod Alone
pub mod LostWakeup
use sy_log.Event.{Event}
use sy_log.Prelude.{
  ℕ, ◌+◌, ◌-◌, ◌%◌, ◌^◌, ◌≡◌, Bool, true, false, Option, none, some, List, [], ◌∷◌, ◌++◌, map, All,
  ltb, not, ◌&&◌, ◌||◌, ◌==◌, if◌then◌else◌,
}
use sy_log.Queue.{WorkersEventQueue}
use sy_log.Workers.{BlockingQueue, PopResult, ok, ended, waits}

-- The queue, its mutex `space_m_`, the pipeline's `accepting` and the stop token of the consumer.
pub record Shared (Q : Type 0) : Type 0 where
  pub events : WorkersEventQueue Q
  pub locked : Bool
  pub accepting : Bool
  pub stop : Bool

-- Where a thread is. The Boolean of a producer says whether it blocks; `done` has what the last call
-- returned. With the mutex, a producer tests the two parts of the wait's predicate, and `parking` is
-- about to sleep, which gives the mutex back.
pub data Thread : Type 0 where
  done : Bool → Thread
  looping : Event → Thread
  loading : Event → Bool → Thread
  comparing : Event → Bool → ℕ → Thread
  pushing : Event → Thread
  refused : Thread
  locking : Event → Thread
  testing : Event → Thread
  checking : Event → Thread
  parking : Event → Thread
  sleeping : Event → Thread
  trying_pop : Thread
  popping : Thread
  dozing : Thread
  popped : Thread
  notifying : Bool → Thread
  closing : Thread
  telling : Thread
  notifying_all : Thread

pub data Call : Type 0 where
  try_push push_blocking : Event → Call
  try_pop pop_blocking close : Call

unfoldable pub begin : Call → Thread
begin (try_push e) = loading e false
begin (push_blocking e) = looping e
begin try_pop = trying_pop
begin pop_blocking = popping
begin close = closing

unfoldable pub wake : Thread → Thread
wake (done b) = done b
wake (looping e) = looping e
wake (loading e blocks) = loading e blocks
wake (comparing e blocks n) = comparing e blocks n
wake (pushing e) = pushing e
wake refused = refused
wake (locking e) = locking e
wake (testing e) = testing e
wake (checking e) = checking e
wake (parking e) = parking e
wake (sleeping e) = locking e
wake trying_pop = trying_pop
wake popping = popping
wake dozing = dozing
wake popped = popped
wake (notifying b) = notifying b
wake closing = closing
wake telling = telling
wake notifying_all = notifying_all

-- Who sleeps, and who is about to wake others.
unfoldable pub sleeps : Thread → Bool
sleeps (done b) = false
sleeps (looping e) = false
sleeps (loading e blocks) = false
sleeps (comparing e blocks n) = false
sleeps (pushing e) = false
sleeps refused = false
sleeps (locking e) = false
sleeps (testing e) = false
sleeps (checking e) = false
sleeps (parking e) = false
sleeps (sleeping e) = true
sleeps trying_pop = false
sleeps popping = false
sleeps dozing = false
sleeps popped = false
sleeps (notifying b) = false
sleeps closing = false
sleeps telling = false
sleeps notifying_all = false

module _ {Q : Type 0} where
  -- No thread is in the queue's calls, so the mutex is free.
  abbrev pub calm : WorkersEventQueue Q → Bool → Bool → Shared Q
  calm q accepting stop = record { events = q; locked = false; accepting = accepting; stop = stop }

  abbrev pub with_size : Shared Q → ℕ → Shared Q
  with_size m n = record m { events = record m.events { size = n } }

  abbrev pub with_inner : Shared Q → Q → Shared Q
  with_inner m q = record m { events = record m.events { queue = q } }

  -- `fetch_sub` of `release_slot_`.
  abbrev pub decremented : Shared Q → Shared Q
  decremented m = with_size m ((m.events.size + 2 ^ 64 - 1) % 2 ^ 64)

module _ {Q : Type 0} (W : BlockingQueue Event Q) where
  -- One step of a thread. The flag stands for a weak compare-exchange that fails without a reason,
  -- and for a wait that ends: that of `sleeping` on the condition variable without a reason, and
  -- that of `dozing` inside `queue_.pop`, whose reasons are the inner queue's. Notifications, which
  -- change other threads, are steps of their own.
  unfoldable pub advance : Bool → Shared Q → Thread → Shared Q × Thread
  advance spurious m (done b) = (m, done b)
  advance spurious m (looping e) = (m, if m.accepting then loading e true else done false)
  advance spurious m (loading e blocks) = (m, comparing e blocks m.events.size)
  advance spurious m (comparing e blocks n) =
      if ltb n m.events.capacity
      then if (m.events.size == n) && not spurious
        then (with_size m (n + 1), pushing e)
        else (m, comparing e blocks m.events.size)
      else (m, if blocks then locking e else done false)
  advance spurious m (pushing e) =
      let (taken, q) = W.push m.events.queue e in
      (with_inner m q, if taken then done true else refused)
  advance spurious m refused = (decremented m, notifying false)
  advance spurious m (locking e) =
      if m.locked then (m, locking e) else (record m { locked = true }, testing e)
  advance spurious m (testing e) =
      if m.accepting then (m, checking e) else (record m { locked = false }, looping e)
  advance spurious m (checking e) =
      if ltb m.events.size m.events.capacity
      then (record m { locked = false }, looping e)
      else (m, parking e)
  advance spurious m (parking e) = (record m { locked = false }, sleeping e)
  advance spurious m (sleeping e) = (m, if spurious then locking e else sleeping e)
  advance spurious m trying_pop =
      let (got, q) = W.try_pop m.events.queue in
      (with_inner m q, elim got [ none ↦ done false | some e ↦ popped ])
  advance spurious m popping =
      let (result, q) = W.pop m.events.queue m.stop in
      (with_inner m q, elim result [ ok e ↦ popped | ended ↦ done false | waits ↦ dozing ])
  advance spurious m dozing = (m, if spurious then popping else dozing)
  advance spurious m popped = (decremented m, notifying true)
  advance spurious m (notifying b) = (m, notifying b)
  advance spurious m closing = (with_inner m (W.close m.events.queue), telling)
  advance spurious m telling = (with_inner m (W.notify_all m.events.queue), notifying_all)
  advance spurious m notifying_all = (m, notifying_all)

  -- What a step gives to the inner queue, and what it takes from it.
  unfoldable pub put_by : Shared Q → Thread → List Event
  put_by m (pushing e) = if (W.push m.events.queue e).0 then e ∷ [] else []
  put_by m t = []

  unfoldable pub got_by : Shared Q → Thread → List Event
  got_by m trying_pop = elim (W.try_pop m.events.queue).0 [ none ↦ [] | some e ↦ e ∷ [] ]
  got_by m popping = elim (W.pop m.events.queue m.stop).0 [
    | ok e ↦ e ∷ []
    | ended ↦ []
    | waits ↦ []
  ]
  got_by m t = []

  -- `notify_one` wakes a sleeper, if there is one.
  pub data Woken : List Thread → List Thread → Type 0 where
    nobody : {ts : List Thread} → All (λ t. sleeps t ≡ false) ts → Woken ts ts
    somebody :
        (xs ys : List Thread) (e : Event) → Woken (xs ++ sleeping e ∷ ys) (xs ++ locking e ∷ ys)

  -- The steps of threads in any order, from idle threads on: the events that the inner queue was given
  -- and gave out, in order.
  pub data Reach (start : Shared Q) (idle : List Bool)
      : Shared Q → List Thread → List Event → List Event → Type 0 where
    begun : Reach start idle start (map done idle) [] []
    called :
        {m : Shared Q} {put got : List Event} (xs ys : List Thread) (b : Bool) (c : Call)
        → Reach start idle m (xs ++ done b ∷ ys) put got
        → Reach start idle m (xs ++ begin c ∷ ys) put got
    moved :
        {m : Shared Q} {put got : List Event} (xs ys : List Thread) (t : Thread) (spurious : Bool)
        → Reach start idle m (xs ++ t ∷ ys) put got
        → Reach start idle
            (advance spurious m t).0
            (xs ++ (advance spurious m t).1 ∷ ys)
            (put ++ put_by m t)
            (got ++ got_by m t)
    notified_one :
        {m : Shared Q} {put got : List Event} (xs ys ts : List Thread) (b : Bool)
        → Reach start idle m (xs ++ notifying b ∷ ys) put got
        → Woken (xs ++ done b ∷ ys) ts
        → Reach start idle m ts put got
    notified_all :
        {m : Shared Q} {put got : List Event} (xs ys : List Thread)
        → Reach start idle m (xs ++ notifying_all ∷ ys) put got
        → Reach start idle m (map wake (xs ++ done true ∷ ys)) put got
    switched :
        {m : Shared Q} {ts : List Thread} {put got : List Event} (accepting stop : Bool)
        → Reach start idle m ts put got
        → Reach start idle (record m { accepting = accepting; stop = stop }) ts put got
