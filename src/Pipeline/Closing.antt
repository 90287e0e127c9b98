-- ===== src/Pipeline/Closing.antt =====
-- What `close` does with the events that are queued.
use sy_log.Crossbar.{
  Lane, SinkCrossbar, new_crossbar, new_lane, stop_lane, flush_lanes, has_no_lanes, close_lane,
  join_lane,
}
use sy_log.Crossbar
use sy_log.Crossbar.Stopping.{stop_lane_drains, stop_lane_idle}
use sy_log.Crossbar.Worker.{written_for}
use sy_log.Event.{Event}
use sy_log.Pipeline.{
  Pipeline, Effect, by_lanes, by_caller, close, shut_down, replace_crossbar, flush_pipeline,
}
use sy_log.Pipeline.Invariant.{Serves, IsSound}
use sy_log.Prelude.{
  ℕ, ◌≡◌, refl, ap, ap₂, subst, ◌∙◌, Bool, true, false, List, [], ◌∷◌, map, not, ◌&&◌, if-cases,
  arith,
}
use sy_log.Queue.{at_least_one, new_queue}
use sy_log.Queue.Laws.{events}
use sy_log.Route.{Route, Output}
use sy_log.Workers.{BlockingQueue, QueueLaws}

module _ {Q : Type 0} {W : BlockingQueue Event Q} (laws : QueueLaws W) where
  -- What a lane would write for the events that it holds.
  abbrev pub pending : Lane Q → List Output
  pending lane = written_for lane.route (events laws lane.queue)

  stop_running :
      (capacity : ℕ) (rs : List (Route Q)) (ls : List (Lane Q))
      → Serves laws true rs ls
      → map (λ s. s.0) (map (stop_lane W true capacity) ls) ≡ map pending ls
  stop_running capacity [] [] s = refl
  stop_running capacity [] (l ∷ ls) s = elim s [ ]
  stop_running capacity (r ∷ rs) [] s = elim s [ ]
  stop_running capacity (r ∷ rs) (l ∷ ls) s =
      ap₂ ◌∷◌ (stop_lane_drains laws capacity l s.1.counted s.1.attended).0
        (stop_running capacity rs ls s.2)

  stop_unstarted :
      (capacity : ℕ) (rs : List (Route Q)) (ls : List (Lane Q))
      → Serves laws false rs ls
      → map (λ s. s.0) (map (stop_lane W true capacity) ls) ≡ map (λ l. []) ls
  stop_unstarted capacity [] [] s = refl
  stop_unstarted capacity [] (l ∷ ls) s = elim s [ ]
  stop_unstarted capacity (r ∷ rs) [] s = elim s [ ]
  stop_unstarted capacity (r ∷ rs) (l ∷ ls) s =
      ap₂ ◌∷◌ (stop_lane_idle laws capacity l s.1.counted s.1.attended).0
        (stop_unstarted capacity rs ls s.2)

  stop_lane-route :
      (drain : Bool) (capacity : ℕ) (l : Lane Q) → (stop_lane W drain capacity l).1.route ≡ l.route
  unfolding stop_lane join_lane close_lane
  stop_lane-route drain capacity l = ground arith

  flush_cons :
      (l l' : Lane Q) (ls ls' : List (Lane Q))
      → l.route ≡ l'.route
      → flush_lanes ls ≡ flush_lanes ls'
      → flush_lanes (l ∷ ls) ≡ flush_lanes (l' ∷ ls')
  unfolding flush_lanes
  flush_cons l l' ls ls' h k = ground arith

  flush_stopped :
      (drain : Bool) (capacity : ℕ) (ls : List (Lane Q))
      → flush_lanes (map (λ s. s.1) (map (stop_lane W drain capacity) ls)) ≡ flush_lanes ls
  flush_stopped drain capacity [] = refl
  flush_stopped drain capacity (l ∷ ls) =
      flush_cons (stop_lane W drain capacity l).1 l _ ls (stop_lane-route drain capacity l)
        (flush_stopped drain capacity ls)

  no_lanes : (x : SinkCrossbar Q) → (not x.running && has_no_lanes x) ≡ true → [] ≡ x.lanes
  unfolding has_no_lanes
  no_lanes x h = ground arith

  -- A crossbar that is closed writes what its lanes write, and has its sinks to flush afterwards.
  close_crossbar :
      (x : SinkCrossbar Q) (out : List (List Output))
      → map (λ s. s.0) (map (stop_lane W true x.queue_capacity) x.lanes) ≡ out
      → ((Crossbar.close W x).0 ≡ out)
        × (Crossbar.flush_crossbar (Crossbar.close W x).1 ≡ flush_lanes x.lanes)
  unfolding Crossbar.close Crossbar.flush_crossbar
  close_crossbar x out h =
      if-cases
        (λ (r : List (List Output) × SinkCrossbar Q).
          (r.0 ≡ out) × (flush_lanes r.1.lanes ≡ flush_lanes x.lanes))
        (not x.running && has_no_lanes x) _ _
        (λ none_. (
          ap (λ ls. map (λ s. s.0) (map (stop_lane W true x.queue_capacity) ls)) (no_lanes x none_)
              ∙ h,
          refl,
        ))
        (λ some_. (h, flush_stopped true x.queue_capacity x.lanes))

  stop_lane-joined :
      (drain : Bool) (capacity : ℕ) (l : Lane Q) → (stop_lane W drain capacity l).1.worker ≡ false
  unfolding stop_lane join_lane close_lane
  stop_lane-joined drain capacity l = ground arith

  stop_lane-again :
      (capacity : ℕ) (l : Lane Q) → l.worker ≡ false → (stop_lane W false capacity l).0 ≡ []
  unfolding stop_lane join_lane close_lane
  stop_lane-again capacity l h = ground arith

  stop_again :
      (capacity c : ℕ) (ls : List (Lane Q))
      → map
          (λ s. s.0)
          (map (stop_lane W false c) (map (λ s. s.1) (map (stop_lane W true capacity) ls)))
        ≡ map (λ l. []) ls
  stop_again capacity c [] = refl
  stop_again capacity c (l ∷ ls) =
      ap₂ ◌∷◌ (stop_lane-again c (stop_lane W true capacity l).1 (stop_lane-joined true capacity l))
        (stop_again capacity c ls)

  abbrev crossbar_of : ℕ → Bool → List (Lane Q) → SinkCrossbar Q
  crossbar_of capacity running ls = record {
    queue_capacity = capacity;
    running = running;
    lanes = ls;
  }

  destroy_parts :
      (capacity : ℕ) (running : Bool) (ls : List (Lane Q))
      → (Crossbar.request_stop W (Crossbar.close W (crossbar_of capacity running ls)).1).0
        ≡ map (λ l. []) ls
  unfolding Crossbar.close Crossbar.request_stop has_no_lanes
  destroy_parts capacity true [] = refl
  destroy_parts capacity false [] = refl
  destroy_parts capacity true (l ∷ ls) = stop_again capacity capacity (l ∷ ls)
  destroy_parts capacity false (l ∷ ls) = stop_again capacity capacity (l ∷ ls)

  -- The old crossbar's destructor finds nothing to write.
  destroy_closed :
      (x : SinkCrossbar Q)
      → (Crossbar.request_stop W (Crossbar.close W x).1).0 ≡ map (λ l. []) x.lanes
  destroy_closed x = destroy_parts x.queue_capacity x.running x.lanes

  later_effects : Pipeline Q → List Effect
  later_effects p = by_lanes (map (λ l. []) p.crossbar.lanes) ∷ by_lanes [] ∷ []

  -- The effects of `close`, for whatever the lanes write when they are stopped.
  close_effects :
      (p : Pipeline Q) (out : List (List Output))
      → map (λ s. s.0) (map (stop_lane W true p.crossbar.queue_capacity) p.crossbar.lanes) ≡ out
      → (close W p).0
        ≡ by_lanes out
          ∷ by_caller (flush_lanes p.crossbar.lanes)
          ∷ by_lanes (map (λ l. []) p.crossbar.lanes)
          ∷ by_lanes []
          ∷ []
  unfolding close shut_down flush_pipeline replace_crossbar new_crossbar Crossbar.configure
  close_effects p out h =
      let (first, second) = close_crossbar p.crossbar out h in
      let third = destroy_closed p.crossbar in
      λ i. by_lanes (first i) ∷ by_caller (second i) ∷ by_lanes (third i) ∷ by_lanes [] ∷ []

  -- Closing a sound pipeline that runs first writes, lane by lane and in the order of each queue,
  -- what the lane's route writes for every event that the lane holds, then flushes the lanes'
  -- sinks, and writes nothing after that.
  pub close_drains :
      (p : Pipeline Q)
      → IsSound laws p
      → p.running ≡ true
      → (close W p).0
        ≡ by_lanes (map pending p.crossbar.lanes)
          ∷ by_caller (flush_lanes p.crossbar.lanes)
          ∷ by_lanes (map (λ l. []) p.crossbar.lanes)
          ∷ by_lanes []
          ∷ []
  close_drains p s on = close_effects p (map pending p.crossbar.lanes) (
      stop_running p.crossbar.queue_capacity p.routes p.crossbar.lanes
        (subst (λ b. Serves laws b p.routes p.crossbar.lanes) on s.serves))

  lanes_empty :
      (capacity : ℕ) (rs : List (Route Q))
      → map (λ l. events laws l.queue) (map (new_lane W capacity) rs) ≡ map (λ r. []) rs
  unfolding new_lane new_queue
  lanes_empty capacity [] = refl
  lanes_empty capacity (r ∷ rs) = ap₂ ◌∷◌ laws.fresh_empty (lanes_empty capacity rs)

  -- Closing a sound pipeline that was not started writes none of the events that its lanes hold,
  -- and none of them is in a lane afterwards.
  pub close_unstarted_loses :
      (p : Pipeline Q)
      → IsSound laws p
      → p.running ≡ false
      → ((close W p).0
          ≡ by_lanes (map (λ l. []) p.crossbar.lanes)
            ∷ by_caller (flush_lanes p.crossbar.lanes)
            ∷ by_lanes (map (λ l. []) p.crossbar.lanes)
            ∷ by_lanes []
            ∷ [])
        × (map (λ l. events laws l.queue) (close W p).1.crossbar.lanes ≡ map (λ r. []) p.routes)
  unfolding close shut_down replace_crossbar new_crossbar Crossbar.configure
  close_unstarted_loses p s off = (
    close_effects p (map (λ l. []) p.crossbar.lanes) (
        stop_unstarted p.crossbar.queue_capacity p.routes p.crossbar.lanes
          (subst (λ b. Serves laws b p.routes p.crossbar.lanes) off s.serves)),
    lanes_empty (at_least_one p.cfg.queue_capacity) p.routes,
  )
