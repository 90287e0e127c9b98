-- ===== src/Crossbar/Threads/Kept.antt =====
-- What holds of a lane with its producers, its worker and its stopper, in whatever order they step.
use sy_log.Crossbar.Threads.{
  Worker, work, handled_by, Stopper, absent, flagged, closed_queue, told_queue, told_all, requested,
  joined, Crew, worked, with_producers,
}
use sy_log.Crossbar.Threads.Producers.{Produces, advance-Pushes}
use sy_log.Crossbar.Threads.Work.{
  slot, holding, past_loop, has_left, has_left-past_loop, shut, work-Works, work-left,
}
use sy_log.Crossbar.Worker.{written_for, written_for-append}
use sy_log.Event.{Event}
use sy_log.Prelude.{
  ◌+◌, ◌≡◌, refl, sym, ap, ap₂, subst, ◌∙◌, Bool, true, false, List, [], ◌∷◌, ◌++◌, All, All-at,
  All-replaced, append_assoc, arith, inl, inr,
}
use sy_log.Queue.{WorkersEventQueue}
use sy_log.Queue.Laws.{events}
use sy_log.Queue.Threads.{Thread, advance, put_by}
use sy_log.Queue.Threads.Bounded.{advance-capacity}
use sy_log.Queue.Threads.Slots.{all_hold, all_hold-middle, inside, Fits}
use sy_log.Queue.Threads.Slots.Steps.{advance-Fits}
use sy_log.Route.{Route}
use sy_log.Workers.{BlockingQueue, QueueLaws}

unfoldable pub has_flagged : Stopper → Bool
has_flagged absent = false
has_flagged flagged = true
has_flagged closed_queue = true
has_flagged told_queue = true
has_flagged told_all = true
has_flagged requested = true
has_flagged joined = true

unfoldable pub has_closed : Stopper → Bool
has_closed absent = false
has_closed flagged = false
has_closed closed_queue = true
has_closed told_queue = true
has_closed told_all = true
has_closed requested = true
has_closed joined = true

module _ {Q : Type 0} {W : BlockingQueue Event Q} (laws : QueueLaws W) (route : Route Q)
    (drain : Bool) (start : WorkersEventQueue Q) where
  open laws use {contents, closed}

  -- What has to do with the end of the lane.
  pub record Closes (c : Crew Q) : Type 0 where
    pub flags : has_flagged c.stopper ≡ true → c.drain_on_stop ≡ drain
    pub after_flag : shut laws c.shared ≡ true → has_flagged c.stopper ≡ true
    pub shuts : has_closed c.stopper ≡ true → shut laws c.shared ≡ true
    pub stops : c.shared.stop ≡ true → shut laws c.shared ≡ true
    pub loops : past_loop c.worker ≡ true → shut laws c.shared ≡ true
    pub leaves : drain ≡ true → has_left c.worker ≡ true → inside laws c.shared ≡ []

  pub record IsKept (c : Crew Q) (put handled : List Event) : Type 0 where
    pub fits : Fits laws c.shared (slot c.worker + all_hold c.producers)
    pub same_capacity : c.shared.events.capacity ≡ start.capacity
    pub produces : All Produces c.producers
    pub output : c.written ≡ written_for route handled
    pub order : handled ++ (holding c.worker ++ inside laws c.shared) ≡ events laws start ++ put
    pub closes : Closes c

  -- Other producers and another worker, with as many slots and the same events.
  pub regroup :
      (c : Crew Q) (ts : List Thread) (w : Worker) (put handled : List Event)
      → slot w + all_hold ts ≡ slot c.worker + all_hold c.producers
      → All Produces ts
      → holding w ≡ holding c.worker
      → past_loop w ≡ past_loop c.worker
      → has_left w ≡ has_left c.worker
      → IsKept c put handled
      → IsKept (record c { producers = ts; worker = w }) put handled
  regroup c ts w put handled same p hold past end k = record {
    fits = subst (Fits laws c.shared) (sym same) k.fits;
    same_capacity = k.same_capacity;
    produces = p;
    output = k.output;
    order = ap (λ es. handled ++ (es ++ inside laws c.shared)) hold ∙ k.order;
    closes = record {
      flags = k.closes.flags;
      after_flag = k.closes.after_flag;
      shuts = k.closes.shuts;
      stops = k.closes.stops;
      loops = λ l. k.closes.loops (sym past ∙ l);
      leaves = λ d l. k.closes.leaves d (sym end ∙ l);
    };
  }

  pub other_producers :
      (c : Crew Q) (ts : List Thread) (put handled : List Event)
      → all_hold ts ≡ all_hold c.producers
      → All Produces ts
      → IsKept c put handled
      → IsKept (with_producers c ts) put handled
  other_producers c ts put handled same p =
      regroup c ts c.worker put handled (ap (λ n. slot c.worker + n) same) p refl refl refl

  pub moved-IsKept :
      (c : Crew Q) (xs ys : List Thread) (t : Thread) (spurious : Bool) (put handled : List Event)
      → c.producers ≡ xs ++ t ∷ ys
      → IsKept c put handled
      → IsKept
          (record c {
            shared = (advance W spurious c.shared t).0;
            producers = xs ++ (advance W spurious c.shared t).1 ∷ ys;
          })
          (put ++ put_by W c.shared t)
          handled
  moved-IsKept c xs ys t spurious put handled here k =
      let r = advance W spurious c.shared t in
      let p = All-at Produces xs ys t (subst (All Produces) here k.produces) in
      let push = advance-Pushes laws spurious c.shared t p in
      let rest = slot c.worker + all_hold (xs ++ ys) in
      let (fits, order) = advance-Fits laws spurious c.shared t rest (
        subst (Fits laws c.shared) (omega (arith, ap all_hold here, all_hold-middle xs ys t))
          k.fits) in
      let inside_ : inside laws r.0 ≡ inside laws c.shared ++ put_by W c.shared t =
        ap (λ es. es ++ inside laws r.0) (sym push.nothing_got) ∙ order in
      record {
        fits = subst (Fits laws r.0) (omega (arith, all_hold-middle xs ys r.1)) fits;
        same_capacity = advance-capacity laws spurious c.shared t ∙ k.same_capacity;
        produces =
            All-replaced Produces xs ys t r.1 push.still (subst (All Produces) here k.produces);
        output = k.output;
        order =
            ap (λ es. handled ++ (holding c.worker ++ es)) inside_
            ∙ ap (◌++◌ handled) (sym (append_assoc (holding c.worker) (inside laws c.shared) _))
            ∙ sym (append_assoc handled _ (put_by W c.shared t))
            ∙ ap (λ es. es ++ put_by W c.shared t) k.order
            ∙ append_assoc (events laws start) put (put_by W c.shared t);
        closes = record {
          flags = k.closes.flags;
          after_flag = λ s. k.closes.after_flag (sym push.same_shut ∙ s);
          shuts = λ s. push.same_shut ∙ k.closes.shuts s;
          stops = λ s. push.same_shut ∙ k.closes.stops (sym push.same_stop ∙ s);
          loops = λ s. push.same_shut ∙ k.closes.loops s;
          leaves = λ d s.
              inside_
              ∙ ap₂ ◌++◌ (k.closes.leaves d s)
                  (push.shut_out (k.closes.loops (has_left-past_loop c.worker s)));
        };
      }

  pub worked-IsKept :
      (c : Crew Q) (put handled : List Event)
      → IsKept c put handled
      → IsKept (worked W route c) put (handled ++ handled_by c.worker)
  worked-IsKept c put handled k =
      let w = work-Works laws route c.drain_on_stop c.shared c.worker in
      let r = work W route c.drain_on_stop c.shared c.worker in
      let loops : past_loop r.1 ≡ true → shut laws c.shared ≡ true = λ p. elim (w.loops p) [
        | inl old ↦ k.closes.loops old
        | inr (inl told) ↦ k.closes.stops told
        | inr (inr closed_) ↦ closed_
      ] in
      record {
        fits = w.fits (all_hold c.producers) k.fits;
        same_capacity = w.same_capacity ∙ k.same_capacity;
        produces = k.produces;
        output =
            ap₂ ◌++◌ k.output w.output
            ∙ sym (written_for-append route handled (handled_by c.worker));
        order =
            append_assoc handled (handled_by c.worker) (holding r.1 ++ inside laws r.0)
            ∙ ap (◌++◌ handled) w.order
            ∙ k.order;
        closes = record {
          flags = k.closes.flags;
          after_flag = λ s. k.closes.after_flag (sym w.same_shut ∙ s);
          shuts = λ s. w.same_shut ∙ k.closes.shuts s;
          stops = λ s. w.same_shut ∙ k.closes.stops (sym w.same_stop ∙ s);
          loops = λ p. w.same_shut ∙ loops p;
          leaves = λ d l. elim (w.leaves l) [
            | inl old ↦
                ap (λ m. inside laws m) (work-left laws route c.drain_on_stop c.shared c.worker old)
                ∙ k.closes.leaves d old
            | inr (inl no_drain) ↦
                let flag =
                  k.closes.flags (k.closes.after_flag (loops (has_left-past_loop r.1 l))) in
                absurd (cc (no_drain, flag, d))
            | inr (inr empty) ↦ empty
          ];
        };
      }
