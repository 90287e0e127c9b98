-- ===== src/Pipeline/Upkeep.antt =====
-- `Pipeline::submit` keeps the invariant.
use sy_log.Crossbar.Submit.{loop, round, loop-nil}
use sy_log.Crossbar.{Lane, Submission, push_lane, with_queue, submit_loop}
use sy_log.Crossbar
use sy_log.Event.{Event}
use sy_log.Filter.{all_pass}
use sy_log.Host.{Host}
use sy_log.Pipeline.{Pipeline, Effect, Submitted, submit, async_mode}
use sy_log.Pipeline.Cache.{cached_route_mask}
use sy_log.Pipeline.Cache.Fresh.{cached_route_mask_lem}
use sy_log.Pipeline.Invariant.{IsReady, Keeps, Behaves, Serves, IsSound}
use sy_log.Prelude.{
  ℕ, suc, ◌≡◌, sym, subst, ap, not, ◌==◌, if◌then◌else◌, Bool, true, false, List, [], ◌∷◌, arith,
  inl, inr, All, Option, some, none, ◌||◌,
}
use sy_log.Queue.{WorkersEventQueue, returned}
use sy_log.Queue.Laws.{IsCounted, try_push-Pushed, push_blocking_lem, push_blocking_refused}
use sy_log.Route.{Route, Strategy, drop_when_full, block_when_full, custom, submit_with}
use sy_log.Workers.{BlockingQueue, QueueLaws}

module _ {Q : Type 0} {W : BlockingQueue Event Q} (laws : QueueLaws W) where
  open laws use {closed}

  push_with-ready :
      (s : Strategy Q) (q q' : WorkersEventQueue Q) (e : Event) (accepting b : Bool)
      → Keeps laws (some s)
      → IsCounted laws q
      → closed q.queue ≡ false
      → submit_with W s q e accepting ≡ returned b q'
      → IsCounted laws q' × (closed q'.queue ≡ false)
  unfolding submit_with
  push_with-ready drop_when_full q q' e accepting b k c o h =
      let t = try_push-Pushed laws q e c in ground (arith, t.kept, t.same_closed)
  push_with-ready block_when_full q q' e true b k c o h =
      let t = try_push-Pushed laws q e c in
      ground (arith, t.kept, t.same_closed, push_blocking_lem laws q e)
  push_with-ready block_when_full q q' e false b k c o h =
      ground (arith, push_blocking_refused laws q e)
  push_with-ready (custom name f) q q' e accepting b k c o h = k q q' e accepting b c o h

  push_lane-ready :
      (o : Option (Strategy Q)) (lane : Lane Q) (q' : WorkersEventQueue Q) (e : Event)
      (accepting b : Bool)
      → lane.route.delivery_strategy ≡ o
      → Keeps laws o
      → IsCounted laws lane.queue
      → closed lane.queue.queue ≡ false
      → push_lane W lane e accepting ≡ returned b q'
      → IsCounted laws q' × (closed q'.queue ≡ false)
  unfolding push_lane
  push_lane-ready none lane q' e accepting b same k c o h =
      let t = try_push-Pushed laws lane.queue e c in ground (arith, t.kept, t.same_closed)
  push_lane-ready (some s) lane q' e accepting b same k c o h =
      push_with-ready s lane.queue q' e accepting b k c o (ground arith)

  push_lane-IsReady :
      (running : Bool) (r : Route Q) (lane : Lane Q) (q' : WorkersEventQueue Q) (e : Event)
      (accepting b : Bool)
      → lane.route ≡ r
      → Behaves laws r
      → IsReady laws running lane
      → push_lane W lane e accepting ≡ returned b q'
      → IsReady laws running (with_queue lane q')
  push_lane-IsReady running r lane q' e accepting b same k ready h =
      let (c, o) =
        push_lane-ready r.delivery_strategy lane q' e accepting b
          (ap (λ (t : Route Q). t.delivery_strategy) same) k ready.counted ready.open_ h in
      record { counted = c; open_ = o; attended = ready.attended }

  module _ (running : Bool) (e : Event) (accepting : Bool) (from mask : ℕ) where
    abbrev go : ℕ → List (Lane Q) → Bool → List (Lane Q)
    go i ls d = (loop W e accepting from mask i ls d).0

    pub submit_loop-Serves :
        (i : ℕ) (rs : List (Route Q)) (ls : List (Lane Q)) (d : Bool)
        → All (Behaves laws) rs
        → Serves laws running rs ls
        → Serves laws running rs (go i ls d)
    submit_loop-Serves i [] [] d k s =
        subst (λ x. Serves laws running [] x.0) (sym (loop-nil W e accepting from mask i d)) tt
    submit_loop-Serves i [] (l ∷ ls) d k s = elim s [ ]
    submit_loop-Serves i (r ∷ rs) [] d k s = elim s [ ]
    submit_loop-Serves i (r ∷ rs) (l ∷ ls) d k s =
        let goal = λ (x : List (Lane Q) × Submission). Serves laws running (r ∷ rs) x.0 in
        elim (round W e accepting from mask i l ls d) [
          | inl (_, h) ↦ subst goal (sym h) s
          | inr (inl (_, _, h)) ↦
              subst goal (sym h) (s.0, s.1, submit_loop-Serves (suc i) rs ls d k.1 s.2)
          | inr (inr (inl (b, q, _, p, h))) ↦ subst goal (sym h) (
            s.0,
            push_lane-IsReady running r l q e accepting b s.0 k.0 s.1 p,
            submit_loop-Serves (suc i) rs ls (d || b) k.1 s.2,
          )
          | inr (inr (inr (_, _, h))) ↦ subst goal (sym h) s
        ]

  -- The four ways out of `submit`.
  ways_out :
      (a b c : Bool) (r s t u : List Effect × Submitted × Pipeline Q)
      → IsSound laws r.2
      → IsSound laws s.2
      → IsSound laws t.2
      → IsSound laws u.2
      → IsSound laws (if a then r else if b then s else if c then t else u).2
  ways_out true b c r s t u hr hs ht hu = hr
  ways_out false true c r s t u hr hs ht hu = hs
  ways_out false false true r s t u hr hs ht hu = ht
  ways_out false false false r s t u hr hs ht hu = hu

  -- A submission to a sound pipeline, synchronous or not, returning or left waiting, leaves it
  -- sound.
  pub submit-IsSound :
      (host : Host) (e : Event) (force_sync : Bool) (p : Pipeline Q)
      → IsSound laws p
      → IsSound laws (submit W host e force_sync p).2
  unfolding submit Crossbar.submit
  submit-IsSound host e force_sync p s =
      let ce = cached_route_mask p.routes p.cache e.endpoint in
      let look : IsSound laws (record p { cache = ce.1 }) = record {
        current = inr (cached_route_mask_lem p.routes p.cache e.endpoint s.current).1;
        behaved = s.behaved;
        serves = s.serves;
        same_running = s.same_running;
        small = s.small;
        small_crossbar = s.small_crossbar;
      } in
      ways_out (ce.0.route_mask == 0) (not (all_pass p.global_filters e))
        (not (async_mode p.cfg e force_sync) || not p.accepting) _ _ _ _ look look look
        (record {
          current = look.current;
          behaved = s.behaved;
          serves =
              submit_loop-Serves p.running e p.accepting 0 ce.0.route_mask 0 p.routes
                p.crossbar.lanes false s.behaved s.serves;
          same_running = s.same_running;
          small = s.small;
          small_crossbar = s.small_crossbar;
        })
