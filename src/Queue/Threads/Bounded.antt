-- ===== src/Queue/Threads/Bounded.antt =====
-- How many events the queue holds, and in which order it gives them out, however threads interleave.
use sy_log.Event.{Event}
use sy_log.Prelude.{
  ◌+◌, ◌≤◌, ◌≡◌, refl, sym, ap, subst, ◌∙◌, Bool, true, List, [], ◌∷◌, ◌++◌, map, length,
  append_assoc, append-nil, arith,
}
use sy_log.Queue.Laws.{IsCounted}
use sy_log.Queue.Threads.{
  Shared, Thread, done, locking, sleeping, notifying, notifying_all, begin, wake, advance, put_by,
  got_by, Woken, nobody, somebody, Reach, begun, called, moved, notified_one, notified_all,
  switched,
}
use sy_log.Queue.Threads.Slots.{
  holds, all_hold, all_hold-middle, all_hold-wake, holds-begin, inside, Fits,
}
use sy_log.Queue.Threads.Slots.Steps.{advance-Fits}
use sy_log.Workers.{BlockingQueue, QueueLaws}

module _ {Q : Type 0} {W : BlockingQueue Event Q} (laws : QueueLaws W) where
  open laws use {contents, closed}

  pub advance-capacity :
      (spurious : Bool) (m : Shared Q) (t : Thread)
      → (advance W spurious m t).0.events.capacity ≡ m.events.capacity
  unfolding advance
  advance-capacity spurious m t = ground arith

  pub Woken-all_hold : (ts us : List Thread) → Woken W ts us → all_hold us ≡ all_hold ts
  unfolding holds
  Woken-all_hold ts _ (nobody h) = refl
  Woken-all_hold _ _ (somebody xs ys e) =
      all_hold-middle xs ys (locking e) ∙ sym (all_hold-middle xs ys (sleeping e))

  pub same_hold :
      (xs ys : List Thread) (t u : Thread)
      → holds t ≡ holds u
      → all_hold (xs ++ t ∷ ys) ≡ all_hold (xs ++ u ∷ ys)
  same_hold xs ys t u h =
      all_hold-middle xs ys t ∙ ap (λ n. n + all_hold (xs ++ ys)) h ∙ sym (all_hold-middle xs ys u)

  -- What holds along the way.
  record IsFaithful (start m : Shared Q) (ts : List Thread) (put got : List Event) : Type 0 where
    fits : Fits laws m (all_hold ts)
    order : got ++ inside laws m ≡ inside laws start ++ put
    same_capacity : m.events.capacity ≡ start.events.capacity

  moved-IsFaithful :
      (start m : Shared Q) (xs ys : List Thread) (t : Thread) (spurious : Bool)
      (put got : List Event)
      → IsFaithful start m (xs ++ t ∷ ys) put got
      → IsFaithful start
          (advance W spurious m t).0
          (xs ++ (advance W spurious m t).1 ∷ ys)
          (put ++ put_by W m t)
          (got ++ got_by W m t)
  moved-IsFaithful start m xs ys t spurious put got h =
      let (fits, order) =
        advance-Fits laws spurious m t (all_hold (xs ++ ys))
          (subst (Fits laws m) (all_hold-middle xs ys t) h.fits) in
      record {
        fits =
            subst (Fits laws (advance W spurious m t).0)
              (sym (all_hold-middle xs ys (advance W spurious m t).1)) fits;
        order =
            append_assoc got (got_by W m t) (inside laws (advance W spurious m t).0)
            ∙ ap (◌++◌ got) order
            ∙ sym (append_assoc got (inside laws m) (put_by W m t))
            ∙ ap (λ es. es ++ put_by W m t) h.order
            ∙ append_assoc (inside laws start) put (put_by W m t);
        same_capacity = advance-capacity spurious m t ∙ h.same_capacity;
      }

  refit :
      (start m : Shared Q) (ts us : List Thread) (put got : List Event)
      → all_hold us ≡ all_hold ts
      → IsFaithful start m ts put got
      → IsFaithful start m us put got
  refit start m ts us put got same h = record {
    fits = subst (Fits laws m) (sym same) h.fits;
    order = h.order;
    same_capacity = h.same_capacity;
  }

  pub all_hold-done : (bs : List Bool) → all_hold (map done bs) ≡ 0
  unfolding all_hold holds
  all_hold-done [] = refl
  all_hold-done (b ∷ bs) = omega (arith, all_hold-done bs)

  Reach-IsFaithful :
      (start : Shared Q) (idle : List Bool) (m : Shared Q) (ts : List Thread) (put got : List Event)
      → IsCounted laws start.events
      → Reach W start idle m ts put got
      → IsFaithful start m ts put got
  unfolding holds
  Reach-IsFaithful start idle _ _ _ _ c begun = record {
    fits = record {
      counted = omega (arith, c.counted, all_hold-done idle);
      bounded = c.bounded;
      small = c.small;
    };
    order = sym (append-nil (inside laws start));
    same_capacity = refl;
  }
  Reach-IsFaithful start idle m _ put got c (called xs ys b call r) =
      refit start m (xs ++ done b ∷ ys) (xs ++ begin call ∷ ys) put got
        (same_hold xs ys (begin call) (done b) (holds-begin call))
        (Reach-IsFaithful start idle m (xs ++ done b ∷ ys) put got c r)
  Reach-IsFaithful start idle _ _ _ _ c (moved {m = m} {put = put} {got = got} xs ys t spurious r) =
      moved-IsFaithful start m xs ys t spurious put got
        (Reach-IsFaithful start idle m (xs ++ t ∷ ys) put got c r)
  Reach-IsFaithful start idle m _ put got c (notified_one xs ys ts b r w) =
      refit start m (xs ++ notifying b ∷ ys) ts put got
        (Woken-all_hold (xs ++ done b ∷ ys) ts w ∙ same_hold xs ys (done b) (notifying b) refl)
        (Reach-IsFaithful start idle m (xs ++ notifying b ∷ ys) put got c r)
  Reach-IsFaithful start idle m _ put got c (notified_all xs ys r) =
      refit start m (xs ++ notifying_all ∷ ys) (map wake (xs ++ done true ∷ ys)) put got
        (all_hold-wake (xs ++ done true ∷ ys) ∙ same_hold xs ys (done true) notifying_all refl)
        (Reach-IsFaithful start idle m (xs ++ notifying_all ∷ ys) put got c r)
  Reach-IsFaithful start idle _ ts put got c (switched {m = m} accepting stop r) =
      let h = Reach-IsFaithful start idle m ts put got c r in
      record {
        fits = record { counted = h.fits.counted; bounded = h.fits.bounded; small = h.fits.small };
        order = h.order;
        same_capacity = h.same_capacity;
      }

  -- Start from a queue whose counter is right and from any number of idle threads, which push,
  -- pop and close atomic step by atomic step, in any interleaving, with compare-exchanges that
  -- fail, wake-ups without a reason, and the acceptance and the stop request switched at any
  -- time. At each point the counter is the number of events in the inner queue and of slots that
  -- threads hold beyond them; it is at most the capacity; and the events taken out so far,
  -- followed by those inside, are the ones inside at the start, followed by those put in, in
  -- order.
  pub Reach_bounded_in_order :
      (start : Shared Q) (idle : List Bool) (m : Shared Q) (ts : List Thread) (put got : List Event)
      → IsCounted laws start.events
      → Reach W start idle m ts put got
      → (m.events.size ≡ length (inside laws m) + all_hold ts)
        × (m.events.size ≤ start.events.capacity)
        × (got ++ inside laws m ≡ inside laws start ++ put)
  Reach_bounded_in_order start idle m ts put got c r =
      let h = Reach-IsFaithful start idle m ts put got c r in
      (h.fits.counted, omega (arith, h.fits.bounded, h.same_capacity), h.order)
