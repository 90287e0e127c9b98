-- ===== src/Queue/Threads/Alone.antt =====
-- A call that no other thread interrupts, step by step, against the call as one function.
use sy_log.Event.{Event}
use sy_log.Prelude.{
  ◌+◌, ==_iff, ℕ, zero, suc, ◌≡◌, refl, ◌∙◌, Bool, true, false, none, some, Bool-cases,
  Option-cases, inl, inr, ltb,
}
use sy_log.Queue.{
  WorkersEventQueue, returned, waiting, reserve_slot, release_slot, push_reserved, notify_all,
}
use sy_log.Queue
use sy_log.Queue.Threads.{
  Shared, Thread, done, looping, loading, comparing, pushing, refused, locking, testing, checking,
  parking, sleeping, trying_pop, popping, dozing, popped, notifying, closing, telling,
  notifying_all, Call, try_push, push_blocking, try_pop, pop_blocking, close, with_size, calm,
  begin, advance,
}
use sy_log.Workers.{PopResult-cases, BlockingQueue, ok, ended, waits}

-- A notification with no other thread to wake.
unfoldable pub finish : Thread → Thread
finish (done b) = done b
finish (looping e) = looping e
finish (loading e blocks) = loading e blocks
finish (comparing e blocks n) = comparing e blocks n
finish (pushing e) = pushing e
finish refused = refused
finish (locking e) = locking e
finish (testing e) = testing e
finish (checking e) = checking e
finish (parking e) = parking e
finish (sleeping e) = sleeping e
finish trying_pop = trying_pop
finish popping = popping
finish dozing = dozing
finish popped = popped
finish (notifying b) = done b
finish closing = closing
finish telling = telling
finish notifying_all = done true

module _ {Q : Type 0} (W : BlockingQueue Event Q) where
  unfoldable pub alone : ℕ → Shared Q → Thread → Shared Q × Thread
  unfolding finish
  alone zero m t = (m, finish t)
  alone (suc n) m t = let (m', t') = advance W false m t in alone n m' t'

  abbrev pub with_events : Shared Q → WorkersEventQueue Q → Shared Q
  with_events m q = record m { events = q }

  -- The same call as one function, and where it leaves the thread.
  unfoldable pub at_once : Shared Q → Call → Shared Q × Thread
  at_once m (try_push e) = let (b, q) = Queue.try_push W m.events e in (with_events m q, done b)
  at_once m (push_blocking e) = elim (Queue.push_blocking W m.events e m.accepting) [
    | returned b q ↦ (with_events m q, done b)
    | waiting ↦ (m, sleeping e)
  ]
  at_once m try_pop =
      let (got, q) = Queue.try_pop W m.events in
      (with_events m q, elim got [ none ↦ done false | some e ↦ done true ])
  at_once m pop_blocking =
      let (result, q) = Queue.pop_blocking W m.events m.stop in
      (with_events m q, elim result [ ok e ↦ done true | ended ↦ done false | waits ↦ dozing ])
  at_once m close = (with_events m (Queue.close W m.events), done true)

  alone-done : (n : ℕ) (m : Shared Q) (b : Bool) → alone n m (done b) ≡ (m, done b)
  unfolding alone advance finish
  alone-done zero m b = refl
  alone-done (suc n) m b = alone-done n m b

  alone-notifying : (n : ℕ) (m : Shared Q) (b : Bool) → alone n m (notifying b) ≡ (m, done b)
  unfolding alone advance finish
  alone-notifying zero m b = refl
  alone-notifying (suc n) m b = alone-notifying n m b

  alone-pushing :
      (n : ℕ) (m : Shared Q) (e : Event)
      → alone (suc (suc n)) m (pushing e)
        ≡ (with_events m (push_reserved W m.events e).1, done (push_reserved W m.events e).0)
  unfolding alone advance push_reserved release_slot
  alone-pushing n m e = elim (Bool-cases (W.push m.events.queue e).0) [
    | inl taken ↦ rw (taken, push_reserved) (alone-done n _ true)
    | inr shut ↦ rw (shut, push_reserved) (alone-notifying n _ false)
  ]

  alone-comparing :
      (n : ℕ) (m : Shared Q) (e : Event) (blocks : Bool)
      → ltb m.events.size m.events.capacity ≡ true
      → alone (suc n) m (comparing e blocks m.events.size)
        ≡ alone n (with_size m (m.events.size + 1)) (pushing e)
  unfolding alone advance
  alone-comparing n m e blocks room = rw (room, (==_iff m.events.size m.events.size).1 refl) refl

  -- A producer that finds the queue full: the one gives up, the other goes to sleep.
  alone-refused :
      (n : ℕ) (m : Shared Q) (e : Event)
      → ltb m.events.size m.events.capacity ≡ false
      → alone (suc n) m (comparing e false m.events.size) ≡ (m, done false)
  unfolding alone advance
  alone-refused n m e full = rw full (alone-done n m false)

  alone-waiting :
      (n : ℕ) (m : Shared Q) (e : Event)
      → ltb m.events.size m.events.capacity ≡ false
      → alone (suc n) m (comparing e true m.events.size) ≡ alone n m (locking e)
  unfolding alone advance
  alone-waiting n m e full = rw full refl

  alone-sleeping :
      (q : WorkersEventQueue Q) (stop : Bool) (e : Event)
      → ltb q.size q.capacity ≡ false
      → alone 4 (calm q true stop) (locking e) ≡ (calm q true stop, sleeping e)
  unfolding alone advance finish
  alone-sleeping q stop e full = rw full refl

  reserved : WorkersEventQueue Q → WorkersEventQueue Q
  reserved q = record q { size = q.size + 1 }

  try_push-room :
      (q : WorkersEventQueue Q) (e : Event)
      → ltb q.size q.capacity ≡ true
      → Queue.try_push W q e ≡ push_reserved W (reserved q) e
  unfolding Queue.try_push push_reserved reserved
  try_push-room q e room = rw room refl

  try_push-full :
      (q : WorkersEventQueue Q) (e : Event)
      → ltb q.size q.capacity ≡ false
      → Queue.try_push W q e ≡ (false, q)
  unfolding Queue.try_push
  try_push-full q e full = rw full refl

  push_blocking-room :
      (q : WorkersEventQueue Q) (e : Event)
      → ltb q.size q.capacity ≡ true
      → Queue.push_blocking W q e true
        ≡ returned (push_reserved W (reserved q) e).0 (push_reserved W (reserved q) e).1
  unfolding Queue.push_blocking push_reserved reserved
  push_blocking-room q e room = rw room refl

  push_blocking-full :
      (q : WorkersEventQueue Q) (e : Event)
      → ltb q.size q.capacity ≡ false
      → Queue.push_blocking W q e true ≡ waiting
  unfolding Queue.push_blocking
  push_blocking-full q e full = rw full refl

  push_blocking-shut :
      (q : WorkersEventQueue Q) (e : Event) → Queue.push_blocking W q e false ≡ returned false q
  unfolding Queue.push_blocking
  push_blocking-shut q e = refl

  alone-loading :
      (n : ℕ) (m : Shared Q) (e : Event)
      → alone (suc n) m (loading e false) ≡ alone n m (comparing e false m.events.size)
  unfolding alone advance
  alone-loading n m e = refl

  alone-try_push : (m : Shared Q) (e : Event) → alone 7 m (loading e false) ≡ at_once m (try_push e)
  unfolding at_once reserved
  alone-try_push m e = elim (Bool-cases (ltb m.events.size m.events.capacity)) [
    | inl room ↦ rw (try_push-room m.events e room) (
        alone-loading 6 m e
        ∙ alone-comparing 5 m e false room
        ∙ alone-pushing 3 (with_size m (m.events.size + 1)) e)
    | inr full ↦ rw (try_push-full m.events e full) (alone-loading 6 m e ∙ alone-refused 5 m e full)
  ]

  alone-push_blocking :
      (q : WorkersEventQueue Q) (accepting stop : Bool) (e : Event)
      → alone 7 (calm q accepting stop) (looping e)
        ≡ at_once (calm q accepting stop) (push_blocking e)
  unfolding at_once alone advance reserved
  alone-push_blocking q false stop e =
      rw (push_blocking-shut q e, at_once) (alone-done 6 (calm q false stop) false)
  alone-push_blocking q true stop e = elim (Bool-cases (ltb q.size q.capacity)) [
    | inl room ↦
        rw (push_blocking-room q e room, at_once)
          (alone-comparing 4 (calm q true stop) e true room
            ∙ alone-pushing 2 (with_size (calm q true stop) (q.size + 1)) e)
    | inr full ↦
        rw (push_blocking-full q e full, at_once)
          (alone-waiting 4 (calm q true stop) e full ∙ alone-sleeping q stop e full)
  ]

  alone-try_pop : (m : Shared Q) → alone 7 m trying_pop ≡ at_once m try_pop
  unfolding alone advance finish at_once Queue.try_pop
  alone-try_pop m = elim (Option-cases (W.try_pop m.events.queue).0) [
    | inl none_ ↦ rw (none_, Queue.try_pop) refl
    | inr (e, got) ↦ rw (got, Queue.try_pop) refl
  ]

  alone-pop_blocking : (m : Shared Q) → alone 7 m popping ≡ at_once m pop_blocking
  unfolding alone advance finish at_once Queue.pop_blocking
  alone-pop_blocking m = elim (PopResult-cases (W.pop m.events.queue m.stop).0) [
    | inl (e, got) ↦ rw (got, Queue.pop_blocking) refl
    | inr (inl over) ↦ rw (over, Queue.pop_blocking) refl
    | inr (inr asleep) ↦ rw (asleep, Queue.pop_blocking) refl
  ]

  -- A call of `try_push`, `push_blocking`, `try_pop`, `pop_blocking` or `close` that no other
  -- thread interrupts comes in seven atomic steps to what the call as one function gives: the
  -- same queue and the same result, or a caller that sleeps where the function leaves it waiting.
  pub alone-at_once :
      (q : WorkersEventQueue Q) (accepting stop : Bool) (c : Call)
      → alone 7 (calm q accepting stop) (begin c) ≡ at_once (calm q accepting stop) c
  unfolding begin alone advance finish at_once Queue.close
  alone-at_once q accepting stop (try_push e) = alone-try_push (calm q accepting stop) e
  alone-at_once q accepting stop (push_blocking e) = alone-push_blocking q accepting stop e
  alone-at_once q accepting stop try_pop = alone-try_pop (calm q accepting stop)
  alone-at_once q accepting stop pop_blocking = alone-pop_blocking (calm q accepting stop)
  alone-at_once q accepting stop close = refl
