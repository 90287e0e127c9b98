-- ===== src/Examples/Written.antt =====
-- What the example programs write.
use sy_log.Config.{synchronous}
use sy_log.Crossbar
use sy_log.Event.{Event}
use sy_log.Examples.{log, basic_route, basic}
use sy_log.Examples.Order.{in_order-step, in_order-end}
use sy_log.Filter.{all_pass}
use sy_log.Host.{Host}
use sy_log.Logger.{Logger, Site, make_event, enabled, log_at, submit_and_flush}
use sy_log.Pipeline.{
  Pipeline, close, flush_pipeline, by_lanes, by_caller, new_pipeline, configure, add_route, start,
  submit, replace_crossbar, cached_min_priority, dispatch_sync, sync_loop, sync_route, async_mode,
}
use sy_log.Pipeline.Cache.{
  cached_route_mask, refresh, find_entry, compute_cache_entry, entry_loop, add_route_to_entry,
  emplace,
}
use sy_log.Prelude.{
  ap, ◌∙◌, arith, has_bit, ℕ, ◌≡◌, refl, true, false, some, [], ◌∷◌, ◌++◌, map, codes,
}
use sy_log.Render.Pattern.{render_pattern, replace_each, replacements}
use sy_log.Render.Replace.{replace_all, replace_loop, find, find_from, starts_with, replace}
use sy_log.Route.{Route, write, flush, render_event, terminate_line}
use sy_log.Pipeline.Closing.{close_drains, pending}
use sy_log.Crossbar.{flush_lanes, new_lane, start_lane}
use sy_log.Crossbar.Worker.{written_for}
use sy_log.Queue.{new_queue}
use sy_log.Pipeline.Invariant.{IsSound}
use sy_log.Pipeline.Reach.{
  made, later, configured, route_added, has_started, asked, submitted, Reach-IsSound,
}
use sy_log.Severity.{info, warn}
use sy_log.Workers.{BlockingQueue, QueueLaws}

module _ {Q : Type 0} (W : BlockingQueue Event Q) (host : Host) (console : ℕ) where
  abbrev ready : Pipeline Q
  ready =
      start W
        (add_route W (basic_route W host console) (configure W synchronous (new_pipeline W)).1).1

  abbrev logger : Logger
  logger = record { endpoint = codes "example.basic" }

  -- The pipeline after a call of the logger.
  abbrev after : Event → Pipeline Q → Pipeline Q
  after e p = (submit W host e false (cached_min_priority logger.endpoint p).1).2

  log-info :
      (at_info : Site)
      → log W host logger info at_info (codes "hello from SyLog") ready
        ≡ some (
          by_caller (write console (codes "[INFO] example.basic: hello from SyLog\n") ∷ []) ∷ [],
          after (make_event logger info at_info (codes "hello from SyLog")) ready,
        )
  unfolding log log_at submit_and_flush enabled submit start add_route configure new_pipeline
      make_event cached_min_priority cached_route_mask refresh find_entry compute_cache_entry
      entry_loop add_route_to_entry emplace dispatch_sync sync_loop sync_route async_mode all_pass
      render_event terminate_line render_pattern replace_each replacements replace_all replace_loop
      find find_from starts_with replace replace_crossbar has_bit
  log-info at_info = refl

  log-warn :
      (at_info at_warn : Site)
      → let p = after (make_event logger info at_info (codes "hello from SyLog")) ready in
        log W host logger warn at_warn (codes "this warning is routed to the console") p
        ≡ some (
          by_caller (
                write console
                  (codes "[WARN] example.basic: this warning is routed to the console\n")
                ∷ [])
              ∷ [],
          after (make_event logger warn at_warn (codes "this warning is routed to the console")) p,
        )
  unfolding log log_at submit_and_flush enabled submit start add_route configure new_pipeline
      make_event cached_min_priority cached_route_mask refresh find_entry compute_cache_entry
      entry_loop add_route_to_entry emplace dispatch_sync sync_loop sync_route async_mode all_pass
      render_event terminate_line render_pattern replace_each replacements replace_all replace_loop
      find find_from starts_with replace replace_crossbar has_bit
  log-warn at_info at_warn = refl

  abbrev told : Site → Pipeline Q
  told at_info = after (make_event logger info at_info (codes "hello from SyLog")) ready

  abbrev warned : Site → Site → Pipeline Q
  warned at_info at_warn =
      after (make_event logger warn at_warn (codes "this warning is routed to the console"))
        (told at_info)

  basic_runs :
      (at_info at_warn : Site)
      → basic W host console at_info at_warn (new_pipeline W)
        ≡ some (
          by_lanes []
              ∷ by_lanes []
              ∷ by_lanes []
              ∷ by_caller (write console (codes "[INFO] example.basic: hello from SyLog\n") ∷ [])
              ∷ by_caller (
                  write console
                    (codes "[WARN] example.basic: this warning is routed to the console\n")
                  ∷ [])
              ∷ ((close W (warned at_info at_warn)).0 ++ []),
          (close W (warned at_info at_warn)).1,
        )
  unfolding basic add_route configure new_pipeline replace_crossbar Crossbar.request_stop
      Crossbar.configure Crossbar.new_crossbar
  basic_runs at_info at_warn = in_order-step _ _ refl (
      in_order-step _ _ refl (
        in_order-step _ _ refl (
          in_order-step _ _ (log-info at_info) (
            in_order-step _ _ (log-warn at_info at_warn)
              (in_order-step _ _ refl (in_order-end _))))))

  warned_lanes :
      (at_info at_warn : Site)
      → (warned at_info at_warn).crossbar.lanes
        ≡ start_lane (new_lane W 65536 (basic_route W host console)) ∷ []
  unfolding submit start add_route configure new_pipeline make_event cached_min_priority
      cached_route_mask refresh find_entry compute_cache_entry entry_loop add_route_to_entry emplace
      async_mode all_pass replace_crossbar has_bit Crossbar.new_crossbar Crossbar.configure
      Crossbar.start Crossbar.request_stop
  warned_lanes at_info at_warn = refl

  warned_running : (at_info at_warn : Site) → (warned at_info at_warn).running ≡ true
  unfolding submit start add_route configure new_pipeline make_event cached_min_priority
      cached_route_mask refresh find_entry compute_cache_entry entry_loop add_route_to_entry emplace
      async_mode all_pass replace_crossbar has_bit
  warned_running at_info at_warn = refl

module _ {Q : Type 0} {W : BlockingQueue Event Q} (laws : QueueLaws W) (host : Host)
    (console : ℕ) where
  warned-IsSound : (at_info at_warn : Site) → IsSound laws (warned W host console at_info at_warn)
  warned-IsSound at_info at_warn = Reach-IsSound laws host (warned W host console at_info at_warn) (
      later
        (later
          (later
            (later
              (later
                (later (later made (configured synchronous (omega arith)))
                  (route_added (basic_route W host console) tt))
                has_started)
              (asked _))
            (submitted _ false))
          (asked _))
        (submitted _ false))

  -- A lane that has got nothing has nothing to write.
  fresh-pending :
      (capacity : ℕ) (r : Route Q) → pending laws (start_lane (new_lane W capacity r)) ≡ []
  unfolding start_lane new_lane new_queue written_for
  fresh-pending capacity r = ap (written_for r) laws.fresh_empty

  warned-close :
      (at_info at_warn : Site)
      → (close W (warned W host console at_info at_warn)).0
        ≡ by_lanes ([] ∷ [])
          ∷ by_caller (flush console ∷ [])
          ∷ by_lanes ([] ∷ [])
          ∷ by_lanes []
          ∷ []
  unfolding flush_lanes start_lane new_lane
  warned-close at_info at_warn =
      let p = warned W host console at_info at_warn in
      close_drains laws p (warned-IsSound at_info at_warn)
        (warned_running W host console at_info at_warn)
      ∙ ap
          (λ ls.
            by_lanes (map (pending laws) ls)
            ∷ by_caller (flush_lanes ls)
            ∷ by_lanes (map (λ l. []) ls)
            ∷ by_lanes []
            ∷ [])
          (warned_lanes W host console at_info at_warn)
      ∙ ap
          (λ out.
            by_lanes (out ∷ [])
            ∷ by_caller (flush console ∷ [])
            ∷ by_lanes ([] ∷ [])
            ∷ by_lanes []
            ∷ [])
          (fresh-pending 65536 (basic_route W host console))

  -- From a new pipeline the program basic.cpp runs to its end, at whatever times, places and
  -- threads its calls are made, and over every lawful queue: the caller writes its two lines to
  -- the console, rendered by the pattern, in order; closing writes nothing from the lane, flushes
  -- the console, and nothing else is written.
  pub basic_lem :
      (at_info at_warn : Site)
      → (p : Pipeline Q) × (basic W host console at_info at_warn (new_pipeline W)
          ≡ some (
            by_lanes []
                ∷ by_lanes []
                ∷ by_lanes []
                ∷ by_caller (write console (codes "[INFO] example.basic: hello from SyLog\n") ∷ [])
                ∷ by_caller (
                    write console
                      (codes "[WARN] example.basic: this warning is routed to the console\n")
                    ∷ [])
                ∷ by_lanes ([] ∷ [])
                ∷ by_caller (flush console ∷ [])
                ∷ by_lanes ([] ∷ [])
                ∷ by_lanes []
                ∷ [],
            p,
          ))
  unfolding close flush_pipeline replace_crossbar
  basic_lem at_info at_warn = (
    (close W (warned W host console at_info at_warn)).1,
    rw⁻¹ (warned-close at_info at_warn) (basic_runs W host console at_info at_warn),
  )
