-- ===== src/Queue/Threads/LostWakeup.antt =====
-- A notification that falls between the test of a wait and the wait.
use sy_log.Event.{Event}
use sy_log.Prelude.{
  ◌∙◌, ◌<◌, ◌≡◌, refl, ap, subst, Bool, true, false, List, [], ◌∷◌, ◌++◌, length, ltb, arith,
  List-cases, inl, inr,
}
use sy_log.Queue.{WorkersEventQueue}
use sy_log.Queue.Laws.{IsCounted, events}
use sy_log.Queue.Threads.{
  Shared, Thread, done, looping, loading, comparing, locking, testing, checking, parking, sleeping,
  trying_pop, popped, notifying, push_blocking, try_pop, begin, sleeps, advance, nobody, Reach,
  begun, called, moved, notified_one, with_inner, decremented, calm, closing, telling,
  notifying_all, close, switched, notified_all, wake,
}
use sy_log.Workers.{BlockingQueue, QueueLaws}

module _ {Q : Type 0} {W : BlockingQueue Event Q} (laws : QueueLaws W) where
  -- Threads get there, whatever went into the inner queue and came out of it.
  abbrev pub CanReach : Shared Q → List Bool → Shared Q → List Thread → Type 0
  CanReach start idle m ts =
      (put : List Event) × (got : List Event) × Reach W start idle m ts put got

  go :
      {start m m' : Shared Q} {idle : List Bool} {t' : Thread} (xs ys : List Thread) (t : Thread)
      → CanReach start idle m (xs ++ t ∷ ys)
      → advance W false m t ≡ (m', t')
      → CanReach start idle m' (xs ++ t' ∷ ys)
  go {start = start} {idle = idle} xs ys t (put, got, r) same =
      subst (λ (p : Shared Q × Thread). CanReach start idle p.0 (xs ++ p.1 ∷ ys)) same
        (_, _, moved xs ys t false r)

  -- The producer comes to where it is about to sleep.
  to_parking :
      (q : WorkersEventQueue Q) (stop : Bool) (e : Event)
      → ltb q.size q.capacity ≡ false
      → CanReach
          (calm q true stop)
          (false ∷ false ∷ [])
          (record (calm q true stop) { locked = true })
          (parking e ∷ done false ∷ [])
  unfolding advance begin
  to_parking q stop e full =
      let others = done false ∷ [] in
      let m = calm q true stop in
      let started : CanReach m (false ∷ false ∷ []) m (looping e ∷ others) =
        ([], [], called [] others false (push_blocking e) begun) in
      let full_for : advance W false m (comparing e true q.size) ≡ (m, locking e) = rw full refl in
      let taken : CanReach m (false ∷ false ∷ []) (record m { locked = true })
          (testing e ∷ others) =
        go [] others (locking e)
          (go [] others (comparing e true q.size)
            (go [] others (loading e true)
              (go {t' = loading e true} [] others (looping e) started refl) refl)
            full_for)
          refl in
      go [] others (checking e) (go {t' = checking e} [] others (testing e) taken refl)
        (rw full refl)

  -- The consumer takes an event, and its notification finds nobody asleep.
  popped_meanwhile :
      (q : WorkersEventQueue Q) (stop : Bool) (e : Event)
      → IsCounted laws q
      → q.size ≡ q.capacity
      → let m = record (calm q true stop) { locked = true } in
        let m' = decremented (with_inner m (W.try_pop q.queue).1) in
        CanReach (calm q true stop) (false ∷ false ∷ []) m (parking e ∷ done false ∷ [])
        → CanReach (calm q true stop) (false ∷ false ∷ []) m' (parking e ∷ done true ∷ [])
  unfolding advance begin sleeps
  popped_meanwhile q stop e c full (put, got, r) = elim (List-cases (events laws q)) [
    | inl empty ↦ absurd (omega (arith, c.counted, c.roomy, ap length empty))
    | inr (e', rest, front) ↦
        let m = record (calm q true stop) { locked = true } in
        let got_one : advance W false m trying_pop ≡ (with_inner m (W.try_pop q.queue).1, popped) =
          rw (laws.try_pop_front q.queue e' rest front).0 refl in
        let before = parking e ∷ [] in
        let called_ = called before [] false try_pop r in
        let notified =
          go {t' = notifying true} before [] popped
            (go before [] trying_pop (put, got, called_) got_one) refl in
        (
          notified.0,
          notified.1,
          notified_one before [] _ true notified.2 (nobody (refl, (refl, tt))),
        )
  ]

  -- From a full queue whose counter is right, with the pipeline accepting events, a blocking push
  -- and a pop can interleave so that the pop has returned and a slot is free, yet the producer
  -- sleeps on: the notification came after the wait's test and before its sleep.
  pub Reach_lost_wakeup :
      (q : WorkersEventQueue Q) (stop : Bool) (e : Event)
      → IsCounted laws q
      → q.size ≡ q.capacity
      → (m : Shared Q) × CanReach
          (calm q true stop)
          (false ∷ false ∷ [])
          m
          (sleeping e ∷ done true ∷ [])
        × (m.events.size < m.events.capacity)
        × (m.accepting ≡ true)
        × (m.locked ≡ false)
  unfolding advance
  Reach_lost_wakeup q stop e c full =
      let m =
        decremented
          (with_inner (record (calm q true stop) { locked = true }) (W.try_pop q.queue).1) in
      (
        record m { locked = false },
        go [] (done true ∷ []) (parking e)
            (popped_meanwhile q stop e c full (to_parking q stop e (ground arith))) refl,
        omega (arith, c.roomy, c.small),
        refl,
        refl,
      )

  -- From a full queue with the pipeline accepting events, a blocking push and a shut-down, which
  -- ends the acceptance and closes the queue with its notification of all, can interleave so that
  -- the close has returned and the producer still sleeps.
  pub Reach_sleeps_after_close :
      (q : WorkersEventQueue Q) (stop : Bool) (e : Event)
      → q.size ≡ q.capacity
      → (m : Shared Q) × CanReach
          (calm q true stop)
          (false ∷ false ∷ [])
          m
          (sleeping e ∷ done true ∷ [])
        × (m.accepting ≡ false)
        × (laws.closed m.events.queue ≡ true)
  unfolding advance begin wake
  Reach_sleeps_after_close q stop e full =
      let (put, got, parked) = to_parking q stop e (ground arith) in
      let m = calm q true stop in
      let before = parking e ∷ [] in
      let off : Shared Q = record m { locked = true; accepting = false } in
      let shut = with_inner off (W.close q.queue) in
      let told = with_inner off (W.notify_all (W.close q.queue)) in
      let called_ : CanReach m (false ∷ false ∷ []) off (parking e ∷ closing ∷ []) =
        (put, got, called before [] false close (switched false stop parked)) in
      let noted : CanReach m (false ∷ false ∷ []) told (parking e ∷ notifying_all ∷ []) =
        go {m' = told} {t' = notifying_all} before [] telling
          (go {m' = shut} {t' = telling} before [] closing called_ refl) refl in
      let woken : CanReach m (false ∷ false ∷ []) told (parking e ∷ done true ∷ []) =
        (noted.0, noted.1, notified_all before [] noted.2) in
      (
        record told { locked = false },
        go [] (done true ∷ []) (parking e) woken refl,
        refl,
        (laws.notify_keeps (W.close q.queue)).1 ∙ (laws.close_keeps q.queue).1,
      )
