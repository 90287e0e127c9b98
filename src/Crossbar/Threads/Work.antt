-- ===== src/Crossbar/Threads/Work.antt =====
-- What one step of a worker comes to: src/async/sink_crossbar.cpp, `lane_loop_`.
use sy_log.Crossbar.Threads.{
  Worker, calling, dozing, popped, notifying_one, processing, checking, left, work, handled_by,
}
use sy_log.Crossbar.Worker.{written_for}
use sy_log.Event.{Event}
use sy_log.Prelude.{
  ℕ, ◌+◌, ◌≡◌, refl, sym, ap, ◌∙◌, Bool, true, false, List, [], ◌∷◌, ◌++◌, append-nil, append_assoc,
  length, arith, List-cases, ◌⊎◌, inl, inr,
}
use sy_log.Queue.Threads.{Shared, with_inner, decremented}
use sy_log.Queue.Threads.Slots.{inside, Fits}
use sy_log.Queue.Threads.Slots.Steps.{releasing-Fits}
use sy_log.Route.{Route, Output, process}
use sy_log.Workers.{PopResult-cases, BlockingQueue, QueueLaws}

-- The slot of an event that was popped, and the events that a worker holds.
unfoldable pub slot : Worker → ℕ
slot (calling draining) = 0
slot dozing = 0
slot (popped draining e) = 1
slot (notifying_one draining e) = 0
slot (processing draining e) = 0
slot checking = 0
slot left = 0

unfoldable pub holding : Worker → List Event
holding (calling draining) = []
holding dozing = []
holding (popped draining e) = e ∷ []
holding (notifying_one draining e) = e ∷ []
holding (processing draining e) = e ∷ []
holding checking = []
holding left = []

-- The worker has left its first loop, or the function.
unfoldable pub past_loop : Worker → Bool
past_loop (calling draining) = draining
past_loop dozing = false
past_loop (popped draining e) = draining
past_loop (notifying_one draining e) = draining
past_loop (processing draining e) = draining
past_loop checking = true
past_loop left = true

unfoldable pub has_left : Worker → Bool
has_left (calling draining) = false
has_left dozing = false
has_left (popped draining e) = false
has_left (notifying_one draining e) = false
has_left (processing draining e) = false
has_left checking = false
has_left left = true

pub has_left-past_loop : (w : Worker) → has_left w ≡ true → past_loop w ≡ true
unfolding has_left past_loop
has_left-past_loop w h = ground arith

pub is_left : (w : Worker) → has_left w ≡ true → w ≡ left
unfolding has_left
is_left w h = ground arith

module _ {Q : Type 0} {W : BlockingQueue Event Q} (laws : QueueLaws W) where
  open laws use {closed}

  abbrev pub shut : Shared Q → Bool
  shut m = closed m.events.queue

module _ {Q : Type 0} {W : BlockingQueue Event Q} (laws : QueueLaws W) (route : Route Q) where
  open laws use {contents, closed}

  pub record Works (drain : Bool) (m : Shared Q) (w : Worker) (r : Shared Q × Worker × List Output)
      : Type 0 where
    pub fits : (k : ℕ) → Fits laws m (slot w + k) → Fits laws r.0 (slot r.1 + k)
    pub output : r.2 ≡ written_for route (handled_by w)
    pub order : handled_by w ++ (holding r.1 ++ inside laws r.0) ≡ holding w ++ inside laws m
    pub same_shut : shut laws r.0 ≡ shut laws m
    pub same_stop : r.0.stop ≡ m.stop
    pub same_capacity : r.0.events.capacity ≡ m.events.capacity
    pub loops :
        past_loop r.1 ≡ true → (past_loop w ≡ true) ⊎ ((m.stop ≡ true) ⊎ (shut laws m ≡ true))
    pub leaves :
        has_left r.1 ≡ true → (has_left w ≡ true) ⊎ ((drain ≡ false) ⊎ (inside laws r.0 ≡ []))

  taken-Works :
      (drain draining : Bool) (m : Shared Q) (q : Q) (e : Event)
      → inside laws m ≡ e ∷ contents q
      → closed q ≡ shut laws m
      → Works drain m (calling draining) (with_inner m q, popped draining e, [])
  unfolding slot holding past_loop has_left handled_by written_for
  taken-Works drain draining m q e front same = record {
    fits = λ k f. record {
      counted = omega (arith, f.counted, ap length front);
      bounded = f.bounded;
      small = f.small;
    };
    output = refl;
    order = sym front;
    same_shut = same;
    same_stop = refl;
    same_capacity = refl;
    loops = λ p. inl p;
    leaves = λ p. absurd (ground (arith, p));
  }

  -- The call of the inner queue gave nothing.
  nothing-Works :
      (drain draining : Bool) (m : Shared Q) (q : Q) (w : Worker)
      → contents q ≡ inside laws m
      → closed q ≡ shut laws m
      → slot w ≡ 0
      → holding w ≡ []
      → (past_loop w ≡ true → (draining ≡ true) ⊎ ((m.stop ≡ true) ⊎ (shut laws m ≡ true)))
      → (has_left w ≡ true → contents q ≡ [])
      → Works drain m (calling draining) (with_inner m q, w, [])
  unfolding slot holding past_loop has_left handled_by written_for
  nothing-Works drain draining m q w same same_closed no_slot no_event loops leaves = record {
    fits = λ k f. record {
      counted = omega (arith, f.counted, ap length same, no_slot);
      bounded = f.bounded;
      small = f.small;
    };
    output = refl;
    order = rw no_event same;
    same_shut = same_closed;
    same_stop = refl;
    same_capacity = refl;
    loops = loops;
    leaves = λ p. inr (inr (leaves p));
  }

  calling-Works :
      (drain draining : Bool) (m : Shared Q)
      → Works drain m (calling draining) (work W route drain m (calling draining))
  unfolding work past_loop has_left holding slot
  calling-Works drain false m =
      let q = (W.pop m.events.queue m.stop).1 in
      elim (PopResult-cases (W.pop m.events.queue m.stop).0) [
        | inl (e, got) ↦
            let law = laws.pop_ok m.events.queue m.stop e got in
            rw got (taken-Works drain false m q e law.0 law.1)
        | inr (inl over) ↦
            let law = laws.pop_ended m.events.queue m.stop over in
            rw over (
              nothing-Works drain false m q checking law.0 law.1 refl refl
                (λ p. elim law.2 [ inl s ↦ inr (inl s) | inr e ↦ inr (inr e.1) ]) (λ p. cc p))
        | inr (inr asleep) ↦
            let law = laws.pop_waits m.events.queue m.stop asleep in
            rw asleep (
              nothing-Works drain false m q dozing (law.3 ∙ sym law.0) (law.4 ∙ sym law.1) refl refl
                (λ p. cc p) (λ p. law.3))
      ]
  calling-Works drain true m =
      let q = (W.try_pop m.events.queue).1 in
      elim (List-cases (inside laws m)) [
        | inl empty ↦
            let law = laws.try_pop_empty m.events.queue empty in
            rw law.0 (
              nothing-Works drain true m q left (law.1 ∙ sym empty) law.2 refl refl (λ p. inl refl)
                (λ p. law.1))
        | inr (e, rest, front) ↦
            let law = laws.try_pop_front m.events.queue e rest front in
            rw law.0 (taken-Works drain true m q e (front ∙ ap (◌∷◌ e) (sym law.1)) law.2)
      ]

  -- A step that leaves the inner queue alone.
  quiet-Works :
      (drain : Bool) (m m' : Shared Q) (w w' : Worker) (out : List Output)
      → ((k : ℕ) → Fits laws m (slot w + k) → Fits laws m' (slot w' + k))
      → out ≡ written_for route (handled_by w)
      → handled_by w ++ holding w' ≡ holding w
      → m'.events.queue ≡ m.events.queue
      → m'.stop ≡ m.stop
      → m'.events.capacity ≡ m.events.capacity
      → (past_loop w' ≡ true → past_loop w ≡ true)
      → (has_left w' ≡ true → (has_left w ≡ true) ⊎ (drain ≡ false))
      → Works drain m w (m', w', out)
  quiet-Works drain m m' w w' out fits output order queue stop capacity loops leaves = record {
    fits = fits;
    output = output;
    order =
        sym (append_assoc (handled_by w) (holding w') (inside laws m'))
        ∙ ap (λ es. es ++ inside laws m') order
        ∙ ap (λ q. holding w ++ contents q) queue;
    same_shut = ap closed queue;
    same_stop = stop;
    same_capacity = capacity;
    loops = λ p. inl (loops p);
    leaves = λ p. elim (leaves p) [ inl l ↦ inl l | inr d ↦ inr (inl d) ];
  }

  pub work-Works :
      (drain : Bool) (m : Shared Q) (w : Worker) → Works drain m w (work W route drain m w)
  unfolding work past_loop has_left holding slot handled_by written_for
  work-Works drain m (calling draining) = calling-Works drain draining m
  work-Works drain m dozing =
      quiet-Works drain m m dozing (calling false) [] (λ k f. f) refl refl refl refl refl
        (λ p. cc p) (λ p. cc p)
  work-Works drain m (popped draining e) =
      quiet-Works drain m (decremented m) (popped draining e) (notifying_one draining e) []
        (releasing-Fits laws m) refl refl refl refl refl (λ p. p) (λ p. cc p)
  work-Works drain m (notifying_one draining e) =
      quiet-Works drain m m (notifying_one draining e) (notifying_one draining e) [] (λ k f. f) refl
        refl refl refl refl (λ p. p) (λ p. cc p)
  work-Works drain m (processing draining e) =
      quiet-Works drain m m (processing draining e) (calling draining) (process route e) (λ k f. f)
        (sym (append-nil (process route e))) refl refl refl refl (λ p. p) (λ p. cc p)
  work-Works true m checking =
      quiet-Works true m m checking (calling true) [] (λ k f. f) refl refl refl refl refl (λ p. p)
        (λ p. cc p)
  work-Works false m checking =
      quiet-Works false m m checking left [] (λ k f. f) refl refl refl refl refl (λ p. p)
        (λ p. inr refl)
  work-Works drain m left =
      quiet-Works drain m m left left [] (λ k f. f) refl refl refl refl refl (λ p. p)
        (λ p. inl refl)

  pub work-left :
      (drain : Bool) (m : Shared Q) (w : Worker)
      → has_left w ≡ true
      → (work W route drain m w).0 ≡ m
  unfolding work
  work-left drain m w h = rw (is_left w h) refl
