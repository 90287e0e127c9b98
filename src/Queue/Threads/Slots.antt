-- ===== src/Queue/Threads/Slots.antt =====
-- The slots of the queue that threads hold.
pub mod Steps
use sy_log.Event.{Event}
use sy_log.Prelude.{
  ℕ, ◌+◌, ◌^◌, ◌<◌, ◌≤◌, ◌≡◌, refl, sym, ap, ◌∙◌, Bool, true, false, List, [], ◌∷◌, ◌++◌, map,
  length, length-append, append-nil, ltb, not, ◌&&◌, ◌==◌, arith, Bool-cases, List-cases, if-cases,
  ==_iff, ◌⊎◌, inl, inr,
}
use sy_log.Queue.Threads.{
  Shared, Thread, done, looping, loading, comparing, pushing, refused, locking, testing, checking,
  parking, sleeping, trying_pop, popping, dozing, popped, notifying, closing, telling,
  notifying_all, Call, begin, wake, with_inner, decremented, advance, put_by, got_by,
}
use sy_log.Workers.{BlockingQueue, QueueLaws, PopResult, ok, ended, waits}

-- The slots that a thread has reserved beyond the events in the inner queue.
unfoldable pub holds : Thread → ℕ
holds (done b) = 0
holds (looping e) = 0
holds (loading e blocks) = 0
holds (comparing e blocks n) = 0
holds (pushing e) = 1
holds refused = 1
holds (locking e) = 0
holds (testing e) = 0
holds (checking e) = 0
holds (parking e) = 0
holds (sleeping e) = 0
holds trying_pop = 0
holds popping = 0
holds dozing = 0
holds popped = 1
holds (notifying b) = 0
holds closing = 0
holds telling = 0
holds notifying_all = 0

unfoldable pub all_hold : List Thread → ℕ
all_hold [] = 0
all_hold (t ∷ ts) = holds t + all_hold ts

pub all_hold-middle :
    (xs ys : List Thread) (t : Thread) → all_hold (xs ++ t ∷ ys) ≡ holds t + all_hold (xs ++ ys)
unfolding all_hold
all_hold-middle [] ys t = refl
all_hold-middle (x ∷ xs) ys t = omega (arith, all_hold-middle xs ys t)

pub holds-wake : (t : Thread) → holds (wake t) ≡ holds t
unfolding holds wake
holds-wake t = ground arith

pub all_hold-wake : (ts : List Thread) → all_hold (map wake ts) ≡ all_hold ts
unfolding all_hold
all_hold-wake [] = refl
all_hold-wake (t ∷ ts) = omega (arith, holds-wake t, all_hold-wake ts)

pub holds-begin : (c : Call) → holds (begin c) ≡ 0
unfolding holds begin
holds-begin c = ground arith

module _ {Q : Type 0} {W : BlockingQueue Event Q} (laws : QueueLaws W) where
  open laws use {contents, closed}

  abbrev pub inside : Shared Q → List Event
  inside m = contents m.events.queue

  -- The counter is right if threads have reserved `k` slots beyond the events in the inner queue.
  pub record Fits (m : Shared Q) (k : ℕ) : Type 0 where
    pub counted : m.events.size ≡ length (inside m) + k
    pub bounded : m.events.size ≤ m.events.capacity
    pub small : m.events.capacity < 2 ^ 64
