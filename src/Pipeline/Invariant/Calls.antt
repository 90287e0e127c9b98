-- ===== src/Pipeline/Invariant/Calls.antt =====
-- Each call that configures, starts or stops a pipeline leaves it sound: src/logger.cpp.
use sy_log.Config.{Config}
use sy_log.Crossbar.{
  Lane, SinkCrossbar, new_crossbar, new_lane, start_lane, push_lane, with_queue, submit_loop,
}
use sy_log.Crossbar
use sy_log.Event.{Event}
use sy_log.Pipeline.{
  Pipeline, Effect, new_pipeline, replace_crossbar, configure, add_route, clear_routes, start,
  shut_down,
}
use sy_log.Pipeline.Cache.{invalidate}
use sy_log.Pipeline.Cache.Fresh.{IsCurrent}
use sy_log.Prelude.{
  ℕ, ◌^◌, ◌<◌, ◌≡◌, refl, sym, subst, ◌∙◌, Bool, true, false, List, [], ◌∷◌, ◌++◌, map, arith, inl,
  inr, Bool-cases, if-cases, All, All-append,
}
use sy_log.Queue.{at_least_one, new_queue}
use sy_log.Queue.Laws.{new_queue-IsCounted}
use sy_log.Route.{Route, Output}
use sy_log.Workers.{BlockingQueue, QueueLaws}
use sy_log.Pipeline.Invariant.{Behaves, Serves, IsSound}

module _ {Q : Type 0} {W : BlockingQueue Event Q} (laws : QueueLaws W) where
  fresh_lanes :
      (capacity : ℕ) (rs : List (Route Q))
      → capacity < 2 ^ 64
      → Serves laws false rs (map (new_lane W capacity) rs)
  unfolding new_lane new_queue
  fresh_lanes capacity [] h = tt
  fresh_lanes capacity (r ∷ rs) h = (
    refl,
    record {
      counted = new_queue-IsCounted laws capacity h;
      open_ = laws.fresh_open;
      attended = refl;
    },
    fresh_lanes capacity rs h,
  )

  started_lanes :
      (running : Bool) (rs : List (Route Q)) (ls : List (Lane Q))
      → Serves laws running rs ls
      → Serves laws true rs (map start_lane ls)
  unfolding start_lane
  started_lanes running [] [] s = tt
  started_lanes running [] (l ∷ ls) s = elim s [ ]
  started_lanes running (r ∷ rs) [] s = elim s [ ]
  started_lanes running (r ∷ rs) (l ∷ ls) s = (
    s.0,
    record { counted = s.1.counted; open_ = s.1.open_; attended = refl },
    started_lanes running rs ls s.2,
  )

  -- A crossbar that is configured serves the routes that it is given, and runs as before.
  record Configured (routes : List (Route Q)) (running : Bool) (x : SinkCrossbar Q) : Type 0 where
    lanes : Serves laws running routes x.lanes
    runs : x.running ≡ running
    small : x.queue_capacity < 2 ^ 64

  configure-Configured :
      (routes : List (Route Q)) (capacity : ℕ) (x : SinkCrossbar Q)
      → capacity < 2 ^ 64
      → Configured routes x.running (Crossbar.configure W routes capacity x).1
  unfolding Crossbar.configure
  configure-Configured routes capacity x h =
      let small : at_least_one capacity < 2 ^ 64 = ground arith in
      let fresh = fresh_lanes (at_least_one capacity) routes small in
      elim (Bool-cases x.running) [
        | inl on ↦
            rw on
              (record { lanes = started_lanes false routes _ fresh; runs = refl; small = small })
        | inr off ↦ rw off (record { lanes = fresh; runs = refl; small = small })
      ]

  abbrev with_crossbar : Pipeline Q → SinkCrossbar Q → Pipeline Q
  with_crossbar p x = record p { crossbar = x }

  -- A fresh crossbar that is configured for the routes of a pipeline that does not run.
  replace-IsSound :
      (p : Pipeline Q)
      → p.running ≡ false
      → IsCurrent p.routes p.cache
      → All (Behaves laws) p.routes
      → p.cfg.queue_capacity < 2 ^ 64
      → IsSound laws (replace_crossbar W p).1
  unfolding replace_crossbar new_crossbar
  replace-IsSound p off current behaved small =
      let c =
        configure-Configured p.routes p.cfg.queue_capacity (new_crossbar W p.cfg.queue_capacity)
          small in
      record {
        current = current;
        behaved = behaved;
        serves = rw off c.lanes;
        same_running = c.runs ∙ sym off;
        small = small;
        small_crossbar = c.small;
      }

  pub new_pipeline-IsSound : IsSound laws (new_pipeline W)
  unfolding new_pipeline new_crossbar
  new_pipeline-IsSound = record {
    current = inl refl;
    behaved = tt;
    serves = tt;
    same_running = refl;
    small = omega arith;
    small_crossbar = omega arith;
  }

  -- Configuring a sound pipeline, running or not, with a capacity below 2 ^ 64 leaves it sound.
  pub configure-IsSound :
      (cfg : Config) (p : Pipeline Q)
      → cfg.queue_capacity < 2 ^ 64
      → IsSound laws p
      → IsSound laws (configure W cfg p).1
  unfolding configure
  configure-IsSound cfg p h s =
      if-cases (λ (r : List Effect × Pipeline Q). IsSound laws r.1) p.running _ _
        (λ on. record {
          current = s.current;
          behaved = s.behaved;
          serves = s.serves;
          same_running = s.same_running;
          small = h;
          small_crossbar = s.small_crossbar;
        })
        (λ off.
          let r = replace-IsSound (record p { cfg = cfg }) off s.current s.behaved h in
          record {
            current = r.current;
            behaved = r.behaved;
            serves = r.serves;
            same_running = r.same_running;
            small = r.small;
            small_crossbar = r.small_crossbar;
          })

  reconfigured-IsSound :
      (p : Pipeline Q)
      → p.crossbar.running ≡ p.running
      → IsCurrent p.routes p.cache
      → All (Behaves laws) p.routes
      → p.cfg.queue_capacity < 2 ^ 64
      → IsSound laws
          (with_crossbar p (Crossbar.configure W p.routes p.cfg.queue_capacity p.crossbar).1)
  reconfigured-IsSound p same current behaved small =
      let c = configure-Configured p.routes p.cfg.queue_capacity p.crossbar small in
      record {
        current = current;
        behaved = behaved;
        serves =
            subst
              (λ b.
                Serves laws b p.routes
                  (Crossbar.configure W p.routes p.cfg.queue_capacity p.crossbar).1.lanes)
              same c.lanes;
        same_running = c.runs ∙ same;
        small = small;
        small_crossbar = c.small;
      }

  -- Adding a route to a sound pipeline leaves it sound, if a custom strategy of the route's keeps
  -- the queue's counter right and the queue open.
  pub add_route-IsSound :
      (r : Route Q) (p : Pipeline Q)
      → Behaves laws r
      → IsSound laws p
      → IsSound laws (add_route W r p).1
  unfolding add_route
  add_route-IsSound r p b s =
      reconfigured-IsSound (record p { routes = p.routes ++ r ∷ []; cache = invalidate p.cache })
        s.same_running (inl refl) (All-append (Behaves laws) p.routes (r ∷ []) s.behaved (b, tt))
        s.small

  -- Clearing the routes of a sound pipeline leaves it sound.
  pub clear_routes-IsSound : (p : Pipeline Q) → IsSound laws p → IsSound laws (clear_routes W p).1
  unfolding clear_routes
  clear_routes-IsSound p s =
      reconfigured-IsSound (record p { routes = []; cache = invalidate p.cache }) s.same_running
        (inl refl) tt s.small

  -- Starting a sound pipeline, running or not, leaves it sound.
  pub start-IsSound : (p : Pipeline Q) → IsSound laws p → IsSound laws (start W p)
  unfolding start Crossbar.start
  start-IsSound p s =
      let c = started_lanes p.running p.routes p.crossbar.lanes s.serves in
      if-cases (IsSound laws) p.running _ _
        (λ on. record {
          current = s.current;
          behaved = s.behaved;
          serves = s.serves;
          same_running = s.same_running;
          small = s.small;
          small_crossbar = s.small_crossbar;
        })
        (λ off. record {
          current = s.current;
          behaved = s.behaved;
          serves =
              if-cases (λ (x : SinkCrossbar Q). Serves laws true p.routes x.lanes)
                p.crossbar.running _ _ (λ on. cc (on, off, s.same_running)) (λ _. c);
          same_running =
              if-cases (λ (x : SinkCrossbar Q). x.running ≡ true) p.crossbar.running _ _ (λ on. on)
                (λ _. refl);
          small = s.small;
          small_crossbar =
              if-cases (λ (x : SinkCrossbar Q). x.queue_capacity < 2 ^ 64) p.crossbar.running _ _
                (λ _. s.small_crossbar) (λ _. s.small_crossbar);
        })

  -- Shutting a sound pipeline down leaves it sound, however its crossbar is stopped.
  pub shut_down-IsSound :
      (stop : SinkCrossbar Q → List (List Output) × SinkCrossbar Q) (p : Pipeline Q)
      → IsSound laws p
      → IsSound laws (shut_down W stop p).1
  unfolding shut_down
  shut_down-IsSound stop p s =
      replace-IsSound
        (record p { accepting = false; running = false; crossbar = (stop p.crossbar).1 }) refl
        s.current s.behaved s.small
