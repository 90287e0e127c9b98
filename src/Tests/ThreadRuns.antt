-- ===== src/Tests/ThreadRuns.antt =====
-- Runs of the queue with threads in it: src/async/workers_event_queue.cpp.
use sy_log.Prelude.{◌+◌, ◌<◌, ◌≤◌, ◌≡◌, refl, true, false, [], ◌∷◌, ◌++◌, length, arith}
use sy_log.Queue.{WorkersEventQueue}
use sy_log.Queue.Laws.{IsCounted}
use sy_log.Queue.Threads.{
  Shared, done, sleeping, popped, trying_pop, notifying, try_pop, put_by, got_by, push_blocking,
  begin, calm, Reach, begun, called, moved, advance,
}
use sy_log.Queue.Threads.Alone.{alone, at_once, alone-at_once}
use sy_log.Queue.Threads.Bounded.{Reach_bounded_in_order}
use sy_log.Queue.Threads.LostWakeup.{CanReach, Reach_lost_wakeup}
use sy_log.Queue.Threads.Slots.{all_hold}
use sy_log.Tests.Data.{net_event}
use sy_log.Tests.Fifo.{Fifo, fifo, fifo_laws}

-- One slot, which is taken.
abbrev full : WorkersEventQueue Fifo
full = record { capacity = 1; queue = (net_event ∷ [], false); size = 1 }

full-IsCounted : IsCounted fifo_laws full
full-IsCounted = record {
  counted = refl;
  bounded = omega arith;
  roomy = omega arith;
  small = omega arith;
}

abbrev emptied : WorkersEventQueue Fifo
emptied = record { capacity = 1; queue = ([], false); size = 0 }

-- A thread takes the event and gives the slot back; another one is idle.
given_back :
    Reach fifo
      (calm full true false)
      (false ∷ true ∷ [])
      (calm emptied true false)
      (notifying true ∷ done true ∷ [])
      []
      (net_event ∷ [])
unfolding begin advance put_by got_by
given_back =
    let others = done true ∷ [] in
    moved [] others popped false
      (moved [] others trying_pop false (called [] others false try_pop begun))

Reach_bounded_in_order_example :
    (0 ≡ length (emptied.queue.0) + all_hold (notifying true ∷ done true ∷ []))
    × (0 ≤ 1)
    × (net_event ∷ [] ≡ (net_event ∷ []) ++ [])
Reach_bounded_in_order_example =
    Reach_bounded_in_order fifo_laws (calm full true false) (false ∷ true ∷ [])
      (calm emptied true false) (notifying true ∷ done true ∷ []) [] (net_event ∷ []) full-IsCounted
      given_back

alone-at_once_example :
    alone fifo 7 (calm full true false) (begin (push_blocking net_event))
    ≡ at_once fifo (calm full true false) (push_blocking net_event)
alone-at_once_example = alone-at_once fifo full true false (push_blocking net_event)

Reach_lost_wakeup_example :
    (m : Shared Fifo) × CanReach fifo_laws
      (calm full true false)
      (false ∷ false ∷ [])
      m
      (sleeping net_event ∷ done true ∷ [])
    × (m.events.size < m.events.capacity)
    × (m.accepting ≡ true)
    × (m.locked ≡ false)
Reach_lost_wakeup_example = Reach_lost_wakeup fifo_laws full false net_event full-IsCounted refl
