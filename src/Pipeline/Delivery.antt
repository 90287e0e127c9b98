-- ===== src/Pipeline/Delivery.antt =====
-- A lane while callers submit to it and its worker runs, in any order: src/async/sink_crossbar.cpp.
use sy_log.Crossbar.{Lane, push_lane, with_queue, worker_turn, stop_lane}
use sy_log.Crossbar.Stopping.{turn-kept, worker_turn_lem, stop_lane_drains}
use sy_log.Crossbar.Worker.{written_for, written_for-append}
use sy_log.Event.{Event}
use sy_log.Pipeline.Agreement.{BuiltIn}
use sy_log.Pipeline.Closing.{pending}
use sy_log.Pipeline.Invariant.{IsReady}
use sy_log.Prelude.{
  ℕ, ◌≡◌, refl, sym, ap, ap₂, subst, ◌∙◌, Bool, true, false, Option, none, some, List, [], ◌∷◌,
  ◌++◌, append_assoc, append-nil, if◌then◌else◌, arith, Bool-cases, inl, inr,
}
use sy_log.Queue.{WorkersEventQueue, returned, try_push}
use sy_log.Queue.Laws.{IsCounted, events, try_push-Pushed, push_blocking_lem}
use sy_log.Route.{Route, Output, Strategy, drop_when_full, block_when_full, custom, submit_with}
use sy_log.Workers.{BlockingQueue, QueueLaws}

-- The event of a submission, if it was accepted.
abbrev pub taken : Event → Bool → List Event
taken e b = if b then e ∷ [] else []

module _ {Q : Type 0} (W : BlockingQueue Event Q) where
  -- From one lane, by submissions that return and turns of the worker: what was written, and the
  -- events that were accepted.
  pub data Delivers (start : Lane Q) : Lane Q → List Output → List Event → Type 0 where
    begun : Delivers start start [] []
    pushed :
        {l : Lane Q} {out : List Output} {es : List Event} (e : Event) (b : Bool)
        (q : WorkersEventQueue Q)
        → Delivers start l out es
        → push_lane W l e true ≡ returned b q
        → Delivers start (with_queue l q) out (es ++ taken e b)
    worked :
        {l : Lane Q} {out : List Output} {es : List Event}
        → Delivers start l out es
        → Delivers start (worker_turn W l).1 (out ++ (worker_turn W l).0) es

module _ {Q : Type 0} {W : BlockingQueue Event Q} (laws : QueueLaws W) where
  open laws use {closed}

  -- What an accepted or refused event leaves in the queue.
  Push-fact : WorkersEventQueue Q → Event → Bool → WorkersEventQueue Q → Type 0
  Push-fact q e b q' =
      IsCounted laws q' × (closed q'.queue ≡ false) × (events laws q' ≡ events laws q ++ taken e b)

  try_push-fact :
      (q : WorkersEventQueue Q) (e : Event)
      → IsCounted laws q
      → closed q.queue ≡ false
      → Push-fact q e (try_push W q e).0 (try_push W q e).1
  unfolding Push-fact
  try_push-fact q e c o =
      let t = try_push-Pushed laws q e c in
      (
        t.kept,
        t.same_closed ∙ o,
        elim (Bool-cases (try_push W q e).0) [
          | inl has ↦ rw has (t.accepted has).0
          | inr full ↦ rw full (t.refused full ∙ sym (append-nil (events laws q)))
        ],
      )

  -- The library's strategies return what `try_push` does, when they return.
  push_lane-try_push :
      (o : Option (Strategy Q)) (l : Lane Q) (q : WorkersEventQueue Q) (e : Event) (b : Bool)
      → l.route.delivery_strategy ≡ o
      → BuiltIn o
      → push_lane W l e true ≡ returned b q
      → ((try_push W l.queue e).0 ≡ b) × ((try_push W l.queue e).1 ≡ q)
  unfolding push_lane submit_with
  push_lane-try_push none l q e b same k h = ground arith
  push_lane-try_push (some drop_when_full) l q e b same k h = ground arith
  push_lane-try_push (some block_when_full) l q e b same k h =
      ground (arith, push_blocking_lem laws l.queue e)
  push_lane-try_push (some (custom name f)) l q e b same k h = elim k [ ]

  push_lane-fact :
      (l : Lane Q) (q : WorkersEventQueue Q) (e : Event) (b : Bool)
      → BuiltIn l.route.delivery_strategy
      → IsReady laws true l
      → push_lane W l e true ≡ returned b q
      → Push-fact l.queue e b q
  push_lane-fact l q e b k r h =
      let same = push_lane-try_push l.route.delivery_strategy l q e b refl k h in
      subst (λ (p : Bool × WorkersEventQueue Q). Push-fact l.queue e p.0 p.1)
        (λ i. (same.0 i, same.1 i)) (try_push-fact l.queue e r.counted r.open_)

  turn-fact :
      (l : Lane Q)
      → IsReady laws true l
      → ((worker_turn W l).1.route ≡ l.route)
        × IsReady laws true (worker_turn W l).1
        × ((worker_turn W l).0 ++ pending laws (worker_turn W l).1 ≡ pending laws l)
  unfolding written_for
  turn-fact l r =
      let t = worker_turn_lem laws l r.counted r.attended r.open_ in
      let kept = turn-kept W l in
      (
        kept.0,
        record { counted = t.2; open_ = t.3; attended = kept.1 ∙ r.attended },
        ap₂ ◌++◌ t.0 (ap (written_for (worker_turn W l).1.route) t.1) ∙ append-nil (pending laws l),
      )

  -- What holds along the way.
  record Balanced (start l : Lane Q) (out : List Output) (es : List Event) : Type 0 where
    same_route : l.route ≡ start.route
    ready : IsReady laws true l
    balance : out ++ pending laws l ≡ pending laws start ++ written_for start.route es

  Delivers-Balanced :
      (start l : Lane Q) (out : List Output) (es : List Event)
      → BuiltIn start.route.delivery_strategy
      → IsReady laws true start
      → Delivers W start l out es
      → Balanced start l out es
  unfolding Push-fact written_for
  Delivers-Balanced start l out es k r begun = record {
    same_route = refl;
    ready = r;
    balance = sym (append-nil (pending laws start));
  }
  Delivers-Balanced start _ out _ k r (pushed {l = l} {es = es} e b q d h) =
      let ih = Delivers-Balanced start l out es k r d in
      let now : BuiltIn l.route.delivery_strategy =
        subst (λ (o : Route Q). BuiltIn o.delivery_strategy) (sym ih.same_route) k in
      let f = push_lane-fact l q e b now ih.ready h in
      record {
        same_route = ih.same_route;
        ready = record { counted = f.0; open_ = f.1; attended = ih.ready.attended };
        balance =
            ap (◌++◌ out)
              (ap (written_for l.route) f.2 ∙ written_for-append l.route (events laws l.queue) _)
            ∙ sym (append_assoc out (pending laws l) (written_for l.route (taken e b)))
            ∙ ap (λ o. o ++ written_for l.route (taken e b)) ih.balance
            ∙ append_assoc (pending laws start) (written_for start.route es) _
            ∙ ap (◌++◌ (pending laws start)) (
                ap (λ (o : Route Q). written_for start.route es ++ written_for o (taken e b))
                  ih.same_route
                ∙ sym (written_for-append start.route es (taken e b)));
      }
  Delivers-Balanced start _ _ es k r (worked {l = l} {out = out} d) =
      let ih = Delivers-Balanced start l out es k r d in
      let t = turn-fact l ih.ready in
      record {
        same_route = t.0 ∙ ih.same_route;
        ready = t.1;
        balance =
            append_assoc out (worker_turn W l).0 (pending laws (worker_turn W l).1)
            ∙ ap (◌++◌ out) t.2
            ∙ ih.balance;
      }

  -- Take a lane whose delivery strategy is one of the library's, whose counter is right, whose
  -- queue is open and whose worker runs, and any order of submissions to it that return, accepted
  -- or refused, and of turns of its worker. If the lane is then stopped gracefully, the turns and
  -- the stop together have written exactly what the route writes for the events that it held and
  -- for the accepted ones, in the order of their acceptance, and its queue is empty.
  pub stop_lane-Delivers :
      (capacity : ℕ) (start l : Lane Q) (out : List Output) (es : List Event)
      → BuiltIn start.route.delivery_strategy
      → IsReady laws true start
      → Delivers W start l out es
      → (out ++ (stop_lane W true capacity l).0 ≡ pending laws start ++ written_for start.route es)
        × (events laws (stop_lane W true capacity l).1.queue ≡ [])
  stop_lane-Delivers capacity start l out es k r d =
      let b = Delivers-Balanced start l out es k r d in
      let s = stop_lane_drains laws capacity l b.ready.counted b.ready.attended in
      (ap (◌++◌ out) s.0 ∙ b.balance, s.1)
