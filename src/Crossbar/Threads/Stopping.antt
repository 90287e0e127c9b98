-- ===== src/Crossbar/Threads/Stopping.antt =====
-- What the steps of `stop_lanes_` come to: src/async/sink_crossbar.cpp.
use sy_log.Crossbar.Threads.{
  Stopper, flagged, closed_queue, told_queue, told_all, requested, joined, Crew,
}
use sy_log.Crossbar.Threads.Kept.{has_flagged, has_closed, Closes, IsKept, other_producers}
use sy_log.Crossbar.Threads.Producers.{All-wake}
use sy_log.Crossbar.Threads.Work.{holding, shut}
use sy_log.Event.{Event}
use sy_log.Prelude.{ℕ, ◌+◌, ◌≡◌, refl, sym, ap, ◌∙◌, Bool, true, List, ◌++◌, map, length}
use sy_log.Queue.{WorkersEventQueue}
use sy_log.Queue.Threads.{Shared, wake, with_inner}
use sy_log.Queue.Threads.Slots.{all_hold-wake, inside, Fits}
use sy_log.Route.{Route}
use sy_log.Workers.{BlockingQueue, QueueLaws}

module _ {Q : Type 0} {W : BlockingQueue Event Q} (laws : QueueLaws W) (route : Route Q)
    (drain : Bool) (start : WorkersEventQueue Q) where
  open laws use {contents, closed}

  abbrev Kept : Crew Q → List Event → List Event → Type 0
  Kept = IsKept laws route drain start

  abbrev Ends : Crew Q → Type 0
  Ends = Closes laws route drain start

  -- The lane with its events where they were.
  settled :
      (c : Crew Q) (m : Shared Q) (flag : Bool) (s : Stopper) (put handled : List Event)
      → ((n : ℕ) → Fits laws c.shared n → Fits laws m n)
      → m.events.capacity ≡ c.shared.events.capacity
      → inside laws m ≡ inside laws c.shared
      → Ends (record c { shared = m; drain_on_stop = flag; stopper = s })
      → Kept c put handled
      → Kept (record c { shared = m; drain_on_stop = flag; stopper = s }) put handled
  settled c m flag s put handled fits capacity same ends k = record {
    fits = fits _ k.fits;
    same_capacity = capacity ∙ k.same_capacity;
    produces = k.produces;
    output = k.output;
    order = ap (λ es. handled ++ (holding c.worker ++ es)) same ∙ k.order;
    closes = ends;
  }

  same_inside :
      (m : Shared Q) (q : Q)
      → contents q ≡ inside laws m
      → (n : ℕ) → Fits laws m n
      → Fits laws (with_inner m q) n
  same_inside m q same n f = record {
    counted = f.counted ∙ ap (λ (es : List Event). length es + n) (sym same);
    bounded = f.bounded;
    small = f.small;
  }

  -- A step after the queue was closed.
  onward :
      (c : Crew Q) (m : Shared Q) (s : Stopper) (put handled : List Event)
      → ((n : ℕ) → Fits laws c.shared n → Fits laws m n)
      → m.events.capacity ≡ c.shared.events.capacity
      → inside laws m ≡ inside laws c.shared
      → shut laws m ≡ shut laws c.shared
      → has_flagged c.stopper ≡ true
      → has_closed c.stopper ≡ true
      → has_flagged s ≡ true
      → Kept c put handled
      → Kept (record c { shared = m; stopper = s }) put handled
  onward c m s put handled fits capacity same same_shut flagged_ closed_ still k =
      settled c m c.drain_on_stop s put handled fits capacity same
        (record {
          flags = λ _. k.closes.flags flagged_;
          after_flag = λ _. still;
          shuts = λ _. same_shut ∙ k.closes.shuts closed_;
          stops = λ _. same_shut ∙ k.closes.shuts closed_;
          loops = λ _. same_shut ∙ k.closes.shuts closed_;
          leaves = λ d l. same ∙ k.closes.leaves d l;
        })
        k

  pub switched-Kept :
      (c : Crew Q) (accepting : Bool) (put handled : List Event)
      → Kept c put handled
      → Kept (record c { shared = record c.shared { accepting = accepting } }) put handled
  switched-Kept c accepting put handled k =
      settled c _ c.drain_on_stop c.stopper put handled
        (λ n f. record { counted = f.counted; bounded = f.bounded; small = f.small }) refl refl
        (record {
          flags = k.closes.flags;
          after_flag = k.closes.after_flag;
          shuts = k.closes.shuts;
          stops = k.closes.stops;
          loops = k.closes.loops;
          leaves = k.closes.leaves;
        })
        k

  pub flagged-Kept :
      (c : Crew Q) (put handled : List Event)
      → Kept c put handled
      → Kept (record c { drain_on_stop = drain; stopper = flagged }) put handled
  unfolding has_flagged has_closed
  flagged-Kept c put handled k =
      settled c c.shared drain flagged put handled (λ n f. f) refl refl
        (record {
          flags = λ _. refl;
          after_flag = λ _. refl;
          shuts = λ h. absurd (cc h);
          stops = k.closes.stops;
          loops = k.closes.loops;
          leaves = k.closes.leaves;
        })
        k

  pub closed_queue-Kept :
      (c : Crew Q) (put handled : List Event)
      → c.stopper ≡ flagged
      → Kept c put handled
      → Kept
          (record c {
            shared = with_inner c.shared (W.close c.shared.events.queue);
            stopper = closed_queue;
          })
          put
          handled
  unfolding has_flagged
  closed_queue-Kept c put handled h k =
      let law = laws.close_keeps c.shared.events.queue in
      settled c _ c.drain_on_stop closed_queue put handled (same_inside c.shared _ law.0) refl law.0
        (record {
          flags = λ _. k.closes.flags (ap has_flagged h);
          after_flag = λ _. refl;
          shuts = λ _. law.1;
          stops = λ _. law.1;
          loops = λ _. law.1;
          leaves = λ d l. law.0 ∙ k.closes.leaves d l;
        })
        k

  pub told_queue-Kept :
      (c : Crew Q) (put handled : List Event)
      → c.stopper ≡ closed_queue
      → Kept c put handled
      → Kept
          (record c {
            shared = with_inner c.shared (W.notify_all c.shared.events.queue);
            stopper = told_queue;
          })
          put
          handled
  unfolding has_flagged has_closed
  told_queue-Kept c put handled h =
      let law = laws.notify_keeps c.shared.events.queue in
      onward c _ told_queue put handled (same_inside c.shared _ law.0) refl law.0 law.1
        (ap has_flagged h) (ap has_closed h) refl

  pub told_all-Kept :
      (c : Crew Q) (put handled : List Event)
      → c.stopper ≡ told_queue
      → Kept c put handled
      → Kept (record c { producers = map wake c.producers; stopper = told_all }) put handled
  unfolding has_flagged has_closed
  told_all-Kept c put handled h k =
      other_producers laws route drain start (record c { stopper = told_all })
        (map wake c.producers) put handled (all_hold-wake c.producers)
        (All-wake c.producers k.produces)
        (onward c c.shared told_all put handled (λ n f. f) refl refl refl (ap has_flagged h)
          (ap has_closed h) refl k)

  pub requested-Kept :
      (c : Crew Q) (put handled : List Event)
      → c.stopper ≡ told_all
      → Kept c put handled
      → Kept
          (record c { shared = record c.shared { stop = true }; stopper = requested })
          put
          handled
  unfolding has_flagged has_closed
  requested-Kept c put handled h =
      onward c _ requested put handled
        (λ n f. record { counted = f.counted; bounded = f.bounded; small = f.small }) refl refl refl
        (ap has_flagged h) (ap has_closed h) refl

  pub joined-Kept :
      (c : Crew Q) (put handled : List Event)
      → c.stopper ≡ requested
      → Kept c put handled
      → Kept (record c { stopper = joined }) put handled
  unfolding has_flagged has_closed
  joined-Kept c put handled h =
      onward c c.shared joined put handled (λ n f. f) refl refl refl (ap has_flagged h)
        (ap has_closed h) refl
