-- ===== src/Crossbar/Threads/Producers.antt =====
-- What one step of a producer comes to: the calls of delivery strategies, src/delivery.cpp.
use sy_log.Crossbar.Threads.{push_call}
use sy_log.Crossbar.Threads.Work.{shut}
use sy_log.Event.{Event}
use sy_log.Prelude.{
  ◌≡◌, refl, sym, ap, ◌∙◌, Bool, true, false, List, [], ◌∷◌, map, All, All-replaced, Bool-cases,
  if-cases, inl, inr, ltb, ◌==◌, not, ◌&&◌,
}
use sy_log.Queue.Threads.{
  Shared, Thread, done, looping, loading, comparing, pushing, refused, locking, testing, checking,
  parking, sleeping, trying_pop, popping, dozing, popped, notifying, closing, telling,
  notifying_all, begin, wake, advance, put_by, got_by, Woken, nobody, somebody,
}
use sy_log.Workers.{BlockingQueue, QueueLaws}

-- The places that a push comes to.
abbrev pub Produces : Thread → Type 0
Produces (done b) = Unit
Produces (looping e) = Unit
Produces (loading e blocks) = Unit
Produces (comparing e blocks n) = Unit
Produces (pushing e) = Unit
Produces refused = Unit
Produces (locking e) = Unit
Produces (testing e) = Unit
Produces (checking e) = Unit
Produces (parking e) = Unit
Produces (sleeping e) = Unit
Produces trying_pop = ⊥
Produces popping = ⊥
Produces dozing = ⊥
Produces popped = ⊥
Produces (notifying b) = Unit
Produces closing = ⊥
Produces telling = ⊥
Produces notifying_all = ⊥

pub begin-Produces : (blocks : Bool) (e : Event) → Produces (begin (push_call blocks e))
unfolding begin
begin-Produces true e = tt
begin-Produces false e = tt

pub All-wake : (ts : List Thread) → All Produces ts → All Produces (map wake ts)
unfolding wake
All-wake [] h = tt
All-wake (t ∷ ts) h = (wakes t h.0, All-wake ts h.1)
  where
    wakes : (t : Thread) → Produces t → Produces (wake t)
    wakes (done b) p = tt
    wakes (looping e) p = tt
    wakes (loading e blocks) p = tt
    wakes (comparing e blocks n) p = tt
    wakes (pushing e) p = tt
    wakes refused p = tt
    wakes (locking e) p = tt
    wakes (testing e) p = tt
    wakes (checking e) p = tt
    wakes (parking e) p = tt
    wakes (sleeping e) p = tt
    wakes (notifying b) p = tt
    wakes trying_pop p = elim p [ ]
    wakes popping p = elim p [ ]
    wakes dozing p = elim p [ ]
    wakes popped p = elim p [ ]
    wakes closing p = elim p [ ]
    wakes telling p = elim p [ ]
    wakes notifying_all p = elim p [ ]

module _ {Q : Type 0} {W : BlockingQueue Event Q} (laws : QueueLaws W) where
  open laws use {closed}

  pub All-Woken : (ts us : List Thread) → Woken W ts us → All Produces ts → All Produces us
  All-Woken ts _ (nobody h) p = p
  All-Woken _ _ (somebody xs ys e) p = All-replaced Produces xs ys (sleeping e) (locking e) tt p

  pub record Pushes (m : Shared Q) (t : Thread) (r : Shared Q × Thread) : Type 0 where
    pub still : Produces r.1
    pub nothing_got : got_by W m t ≡ []
    pub same_shut : shut laws r.0 ≡ shut laws m
    pub same_stop : r.0.stop ≡ m.stop
    pub shut_out : shut laws m ≡ true → put_by W m t ≡ []

  quiet-Pushes :
      (m m' : Shared Q) (t t' : Thread)
      → Produces t'
      → got_by W m t ≡ []
      → put_by W m t ≡ []
      → m'.events.queue ≡ m.events.queue
      → m'.stop ≡ m.stop
      → Pushes m t (m', t')
  quiet-Pushes m m' t t' still got put queue stop = record {
    still = still;
    nothing_got = got;
    same_shut = ap closed queue;
    same_stop = stop;
    shut_out = λ _. put;
  }

  pushing-Pushes :
      (spurious : Bool) (m : Shared Q) (e : Event)
      → Pushes m (pushing e) (advance W spurious m (pushing e))
  unfolding advance put_by got_by
  pushing-Pushes spurious m e = elim (Bool-cases (closed m.events.queue)) [
    | inl closed_ ↦
        let law = laws.push_closed m.events.queue e closed_ in
        rw law.0 (record {
          still = tt;
          nothing_got = refl;
          same_shut = law.2 ∙ sym closed_;
          same_stop = refl;
          shut_out = λ _. rw (law.0, put_by) refl;
        })
    | inr open_ ↦
        let law = laws.push_open m.events.queue e open_ in
        rw law.0 (record {
          still = tt;
          nothing_got = refl;
          same_shut = law.2 ∙ sym open_;
          same_stop = refl;
          shut_out = λ closed_. absurd (cc (open_, closed_));
        })
  ]

  pub advance-Pushes :
      (spurious : Bool) (m : Shared Q) (t : Thread)
      → Produces t
      → Pushes m t (advance W spurious m t)
  unfolding advance put_by got_by
  advance-Pushes spurious m (done b) p = quiet-Pushes m m (done b) (done b) tt refl refl refl refl
  advance-Pushes spurious m (looping e) p =
      if-cases (λ t. Pushes m (looping e) (m, t)) m.accepting (loading e true) (done false)
        (λ _. quiet-Pushes m m (looping e) _ tt refl refl refl refl)
        (λ _. quiet-Pushes m m (looping e) _ tt refl refl refl refl)
  advance-Pushes spurious m (loading e blocks) p =
      quiet-Pushes m m (loading e blocks) _ tt refl refl refl refl
  advance-Pushes spurious m (comparing e blocks n) p =
      if-cases (Pushes m (comparing e blocks n)) (ltb n m.events.capacity) _ _
        (λ _.
          if-cases (Pushes m (comparing e blocks n)) ((m.events.size == n) && not spurious) _ _
            (λ _. quiet-Pushes m _ (comparing e blocks n) _ tt refl refl refl refl)
            (λ _. quiet-Pushes m _ (comparing e blocks n) _ tt refl refl refl refl))
        (λ _.
          if-cases (λ t. Pushes m (comparing e blocks n) (m, t)) blocks (locking e) (done false)
            (λ _. quiet-Pushes m m (comparing e blocks n) _ tt refl refl refl refl)
            (λ _. quiet-Pushes m m (comparing e blocks n) _ tt refl refl refl refl))
  advance-Pushes spurious m (pushing e) p = pushing-Pushes spurious m e
  advance-Pushes spurious m refused p = quiet-Pushes m _ refused _ tt refl refl refl refl
  advance-Pushes spurious m (locking e) p =
      if-cases (Pushes m (locking e)) m.locked _ _
        (λ _. quiet-Pushes m _ (locking e) _ tt refl refl refl refl)
        (λ _. quiet-Pushes m _ (locking e) _ tt refl refl refl refl)
  advance-Pushes spurious m (testing e) p =
      if-cases (Pushes m (testing e)) m.accepting _ _
        (λ _. quiet-Pushes m _ (testing e) _ tt refl refl refl refl)
        (λ _. quiet-Pushes m _ (testing e) _ tt refl refl refl refl)
  advance-Pushes spurious m (checking e) p =
      if-cases (Pushes m (checking e)) (ltb m.events.size m.events.capacity) _ _
        (λ _. quiet-Pushes m _ (checking e) _ tt refl refl refl refl)
        (λ _. quiet-Pushes m _ (checking e) _ tt refl refl refl refl)
  advance-Pushes spurious m (parking e) p = quiet-Pushes m _ (parking e) _ tt refl refl refl refl
  advance-Pushes spurious m (sleeping e) p =
      if-cases (λ t. Pushes m (sleeping e) (m, t)) spurious (locking e) (sleeping e)
        (λ _. quiet-Pushes m m (sleeping e) _ tt refl refl refl refl)
        (λ _. quiet-Pushes m m (sleeping e) _ tt refl refl refl refl)
  advance-Pushes spurious m (notifying b) p =
      quiet-Pushes m m (notifying b) _ tt refl refl refl refl
  advance-Pushes spurious m trying_pop p = elim p [ ]
  advance-Pushes spurious m popping p = elim p [ ]
  advance-Pushes spurious m dozing p = elim p [ ]
  advance-Pushes spurious m popped p = elim p [ ]
  advance-Pushes spurious m closing p = elim p [ ]
  advance-Pushes spurious m telling p = elim p [ ]
  advance-Pushes spurious m notifying_all p = elim p [ ]
