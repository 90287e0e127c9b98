-- ===== src/Queue/Threads/Slots/Steps.antt =====
-- What one step of a thread makes of the counter and of the events in the inner queue.
use sy_log.Event.{Event}
use sy_log.Prelude.{
  ℕ, ◌+◌, ◌≡◌, sym, ap, ◌∙◌, Bool, true, false, List, [], ◌∷◌, ◌++◌, length, length-append,
  append-nil, ltb, not, ◌&&◌, ◌==◌, arith, Bool-cases, List-cases, if-cases, ==_iff, inl, inr,
}
use sy_log.Queue.Threads.{
  Shared, Thread, done, looping, loading, comparing, pushing, refused, locking, testing, checking,
  parking, sleeping, trying_pop, popping, dozing, popped, notifying, closing, telling,
  notifying_all, with_inner, decremented, advance, put_by, got_by,
}
use sy_log.Queue.Threads.Slots.{holds, inside, Fits}
use sy_log.Workers.{BlockingQueue, QueueLaws, PopResult-cases}

module _ {Q : Type 0} {W : BlockingQueue Event Q} (laws : QueueLaws W) where
  open laws use {contents, closed}

  relocked :
      (b : Bool) (m : Shared Q) (k : ℕ)
      → Fits laws m (0 + k)
      → Fits laws (record m { locked = b }) (0 + k)
  relocked b m k f = record { counted = f.counted; bounded = f.bounded; small = f.small }

  -- What a step makes of the counter, and of the events inside.
  abbrev pub Moves : Shared Q → ℕ → List Event → List Event → Shared Q × Thread → Type 0
  Moves m k put got r =
      Fits laws r.0 (holds r.1 + k) × (got ++ inside laws r.0 ≡ inside laws m ++ put)

  kept : (m : Shared Q) → inside laws m ≡ inside laws m ++ []
  kept m = sym (append-nil (inside laws m))

  comparing-Moves :
      (spurious : Bool) (m : Shared Q) (e : Event) (blocks : Bool) (n k : ℕ)
      → Fits laws m (0 + k)
      → Moves m k [] [] (advance W spurious m (comparing e blocks n))
  unfolding advance holds
  comparing-Moves spurious m e blocks n k f =
      if-cases (Moves m k [] []) (ltb n m.events.capacity) _ _
        (λ room.
          if-cases (Moves m k [] []) ((m.events.size == n) && not spurious) _ _
            (λ same. (
              record {
                counted = ground (arith, ==_iff m.events.size n, f.counted);
                bounded = ground arith;
                small = f.small;
              },
              kept m,
            ))
            (λ differs. (f, kept m)))
        (λ full.
          if-cases
            (λ (t : Thread). Fits laws m (holds t + k) × (inside laws m ≡ inside laws m ++ []))
            blocks (locking e) (done false) (λ _. (f, kept m)) (λ _. (f, kept m)))

  pushing-Moves :
      (spurious : Bool) (m : Shared Q) (e : Event) (k : ℕ)
      → Fits laws m (1 + k)
      → Moves m k (put_by W m (pushing e)) [] (advance W spurious m (pushing e))
  unfolding advance holds put_by
  pushing-Moves spurious m e k f = elim (Bool-cases (closed m.events.queue)) [
    | inl shut ↦
        let law = laws.push_closed m.events.queue e shut in
        rw law.0 (
          record {
            counted = f.counted ∙ ap (λ (es : List Event). length es + (1 + k)) (sym law.1);
            bounded = f.bounded;
            small = f.small;
          },
          law.1 ∙ kept m,
        )
    | inr open_ ↦
        let law = laws.push_open m.events.queue e open_ in
        rw law.0 (
          record {
            counted =
                omega (arith, f.counted, ap length law.1, length-append (inside laws m) (e ∷ []));
            bounded = f.bounded;
            small = f.small;
          },
          law.1,
        )
  ]

  pub releasing-Fits :
      (m : Shared Q) (k : ℕ) → Fits laws m (1 + k) → Fits laws (decremented m) (0 + k)
  releasing-Fits m k f = record {
    counted = omega (arith, f.counted, f.bounded, f.small);
    bounded = omega (arith, f.counted, f.bounded, f.small);
    small = f.small;
  }

  -- A popped event gives its place in the inner queue to the thread that has it.
  taken-Moves :
      (m : Shared Q) (q : Q) (e : Event) (k : ℕ)
      → Fits laws m (0 + k)
      → inside laws m ≡ e ∷ contents q
      → Moves m k [] (e ∷ []) (with_inner m q, popped)
  unfolding holds
  taken-Moves m q e k f front = (
    record {
      counted = omega (arith, f.counted, ap length front);
      bounded = f.bounded;
      small = f.small;
    },
    sym front ∙ kept m,
  )

  idle-Moves :
      (m : Shared Q) (q : Q) (k : ℕ)
      → Fits laws m (0 + k)
      → contents q ≡ inside laws m
      → Fits laws (with_inner m q) (0 + k) × (contents q ≡ inside laws m ++ [])
  idle-Moves m q k f same = (
    record {
      counted = f.counted ∙ ap (λ (es : List Event). length es + (0 + k)) (sym same);
      bounded = f.bounded;
      small = f.small;
    },
    same ∙ kept m,
  )

  trying_pop-Moves :
      (spurious : Bool) (m : Shared Q) (k : ℕ)
      → Fits laws m (0 + k)
      → Moves m k [] (got_by W m trying_pop) (advance W spurious m trying_pop)
  unfolding advance holds got_by
  trying_pop-Moves spurious m k f = elim (List-cases (inside laws m)) [
    | inl empty ↦
        let law = laws.try_pop_empty m.events.queue empty in
        rw (law.0, got_by) (idle-Moves m (W.try_pop m.events.queue).1 k f (law.1 ∙ sym empty))
    | inr (e, rest, front) ↦
        let law = laws.try_pop_front m.events.queue e rest front in
        rw (law.0, got_by)
          (taken-Moves m (W.try_pop m.events.queue).1 e k f (front ∙ ap (◌∷◌ e) (sym law.1)))
  ]

  popping-Moves :
      (spurious : Bool) (m : Shared Q) (k : ℕ)
      → Fits laws m (0 + k)
      → Moves m k [] (got_by W m popping) (advance W spurious m popping)
  unfolding advance holds got_by
  popping-Moves spurious m k f =
      let q = (W.pop m.events.queue m.stop).1 in
      elim (PopResult-cases (W.pop m.events.queue m.stop).0) [
        | inl (e, got) ↦
            rw (got, got_by) (taken-Moves m q e k f (laws.pop_ok m.events.queue m.stop e got).0)
        | inr (inl over) ↦
            rw (over, got_by) (idle-Moves m q k f (laws.pop_ended m.events.queue m.stop over).0)
        | inr (inr asleep) ↦
            let law = laws.pop_waits m.events.queue m.stop asleep in
            rw (asleep, got_by) (idle-Moves m q k f (law.3 ∙ sym law.0))
      ]

  pub advance-Fits :
      (spurious : Bool) (m : Shared Q) (t : Thread) (k : ℕ)
      → Fits laws m (holds t + k)
      → Moves m k (put_by W m t) (got_by W m t) (advance W spurious m t)
  unfolding advance holds got_by put_by
  advance-Fits spurious m (done b) k f = (f, kept m)
  advance-Fits spurious m (looping e) k f =
      if-cases (λ t. Fits laws m (holds t + k) × (inside laws m ≡ inside laws m ++ [])) m.accepting
        (loading e true) (done false) (λ _. (f, kept m)) (λ _. (f, kept m))
  advance-Fits spurious m (loading e blocks) k f = (f, kept m)
  advance-Fits spurious m (comparing e blocks n) k f = comparing-Moves spurious m e blocks n k f
  advance-Fits spurious m (pushing e) k f = pushing-Moves spurious m e k f
  advance-Fits spurious m refused k f = (releasing-Fits m k f, kept m)
  advance-Fits spurious m (locking e) k f =
      if-cases (Moves m k [] []) m.locked _ _ (λ _. (f, kept m))
        (λ _. (relocked true m k f, kept m))
  advance-Fits spurious m (testing e) k f =
      if-cases (Moves m k [] []) m.accepting _ _ (λ _. (f, kept m))
        (λ _. (relocked false m k f, kept m))
  advance-Fits spurious m (checking e) k f =
      if-cases (Moves m k [] []) (ltb m.events.size m.events.capacity) _ _
        (λ _. (relocked false m k f, kept m)) (λ _. (f, kept m))
  advance-Fits spurious m (parking e) k f = (relocked false m k f, kept m)
  advance-Fits spurious m (sleeping e) k f =
      if-cases (λ t. Fits laws m (holds t + k) × (inside laws m ≡ inside laws m ++ [])) spurious
        (locking e) (sleeping e) (λ _. (f, kept m)) (λ _. (f, kept m))
  advance-Fits spurious m trying_pop k f = trying_pop-Moves spurious m k f
  advance-Fits spurious m popping k f = popping-Moves spurious m k f
  advance-Fits spurious m dozing k f =
      if-cases (λ t. Fits laws m (holds t + k) × (inside laws m ≡ inside laws m ++ [])) spurious
        popping dozing (λ _. (f, kept m)) (λ _. (f, kept m))
  advance-Fits spurious m popped k f = (releasing-Fits m k f, kept m)
  advance-Fits spurious m (notifying b) k f = (f, kept m)
  advance-Fits spurious m closing k f =
      idle-Moves m (W.close m.events.queue) k f (laws.close_keeps m.events.queue).0
  advance-Fits spurious m telling k f =
      idle-Moves m (W.notify_all m.events.queue) k f (laws.notify_keeps m.events.queue).0
  advance-Fits spurious m notifying_all k f = (f, kept m)
