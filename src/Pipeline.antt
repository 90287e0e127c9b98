-- ===== src/Pipeline.antt =====
-- src/logger.cpp and include/sylog/logger.hpp: `Pipeline`, one call at a time.
pub mod Cache
pub mod Dispatch
pub mod Invariant
pub mod Overlap
pub mod Upkeep
pub mod Closing
pub mod Agreement
pub mod Equivalence
pub mod Reach
pub mod Synchronous
pub mod Delivery
use sy_log.Config.{Config, default_config}
use sy_log.Crossbar.{SinkCrossbar, Submission, finished, waiting_at, new_crossbar}
use sy_log.Crossbar
use sy_log.Event.{Event}
use sy_log.Filter.{Filter, pass, all_pass}
use sy_log.Pipeline.Cache.{CacheEntry, Cached, EndpointCache}
use sy_log.Prelude.{
  ℕ, zero, suc, ◌+◌, Bool, true, false, Option, none, some, List, [], ◌∷◌, ◌++◌, Bytes, codes, ltb,
  leb, not, ◌&&◌, ◌||◌, ◌==◌, if◌then◌else◌, has_bit,
}
use sy_log.Route.{Route, Output, write, render_event, route_passes}
use sy_log.Severity.{error, fatal}
use sy_log.Workers.{BlockingQueue}
use sy_log.Host.{Host}
use sy_log.Pipeline.Cache.{invalidate, cached_route_mask}
use sy_log.Render.Time.{format_time}

pub record Pipeline (Q : Type 0) : Type 0 where
  pub cfg : Config
  pub global_filters : List (Option Filter)
  pub routes : List (Route Q)
  pub running : Bool
  pub accepting : Bool
  pub crossbar : SinkCrossbar Q
  pub cache : Cached

-- What a call makes others see, in order: lanes that write side by side, the calling thread's own
-- calls of sinks, and the fallback line on stderr.
pub data Effect : Type 0 where
  by_lanes : List (List Output) → Effect
  by_caller : List Output → Effect
  fallback : Bytes → Effect

-- How `submit` ended: it returned, or the caller waits for space in a lane.
pub data Submitted : Type 0 where
  done : Submitted
  waits_at : ℕ → Bool → Submitted

abbrev pub submitted : Submission → Submitted
submitted (finished d) = done
submitted (waiting_at j d) = waits_at j d

unfoldable pub async_mode : Config → Event → Bool → Bool
async_mode cfg e force_sync =
    cfg.async_by_default
    && not force_sync
    && not (cfg.fatal_sync && leb fatal.priority e.severity_priority)

module _ {Q : Type 0} where
  -- `dispatch_sync_` for one route.
  unfoldable pub sync_route : Route Q → Event → List Output
  sync_route r e =
      if all_pass r.filters e
      then elim r.sink [ none ↦ [] | some s ↦ write s (render_event r e) ∷ [] ]
      else []

  unfoldable pub sync_loop : ℕ → List (Route Q) → Event → ℕ → List Output
  sync_loop i [] e mask = []
  sync_loop i (r ∷ rs) e mask =
      if ltb i 64
      then (if has_bit mask i then sync_route r e else []) ++ sync_loop (suc i) rs e mask
      else []

  unfoldable pub dispatch_sync : List (Route Q) → Event → ℕ → List Output
  dispatch_sync routes e mask = sync_loop 0 routes e mask

  unfoldable pub add_global_filter : Option Filter → Pipeline Q → Pipeline Q
  add_global_filter f p = record p { global_filters = p.global_filters ++ f ∷ [] }

  unfoldable pub clear_global_filters : Pipeline Q → Pipeline Q
  clear_global_filters p = record p { global_filters = [] }

  unfoldable pub flush_pipeline : Pipeline Q → List Effect
  flush_pipeline p = by_caller (Crossbar.flush_crossbar p.crossbar) ∷ []

  unfoldable pub cached_min_priority : Bytes → Pipeline Q → ℕ × Pipeline Q
  cached_min_priority ep p =
      let (ce, cache) = cached_route_mask p.routes p.cache ep in
      (if ce.route_mask == 0 then 65535 else ce.min_priority, record p { cache = cache })

module _ {Q : Type 0} (W : BlockingQueue Event Q) where
  -- `Pipeline::Pipeline`, with the initialisers of `Impl`.
  unfoldable pub new_pipeline : Pipeline Q
  new_pipeline = record {
    cfg = default_config;
    global_filters = [];
    routes = [];
    running = false;
    accepting = true;
    crossbar = new_crossbar W default_config.queue_capacity;
    cache = record { dirty = true; entries = []; global_min_priority = 100 };
  }

  -- A fresh crossbar for the configured routes; the old one's destructor stops it.
  unfoldable pub replace_crossbar : Pipeline Q → List Effect × Pipeline Q
  replace_crossbar p =
      let fresh = new_crossbar W p.cfg.queue_capacity in
      let (out, x) = Crossbar.configure W p.routes p.cfg.queue_capacity fresh in
      (by_lanes (Crossbar.destroy W p.crossbar) ∷ by_lanes out ∷ [], record p { crossbar = x })

  abbrev pub is_running : Pipeline Q → Bool
  is_running p = p.running

  unfoldable pub configure : Config → Pipeline Q → List Effect × Pipeline Q
  configure cfg p =
      let p' = record p { cfg = cfg } in
      let (out, replaced) = replace_crossbar p' in
      if p.running then ([], p') else (out, record replaced { accepting = true })

  abbrev reconfigure : Pipeline Q → List Effect × Pipeline Q
  reconfigure p =
      let (out, x) = Crossbar.configure W p.routes p.cfg.queue_capacity p.crossbar in
      (by_lanes out ∷ [], record p { crossbar = x })

  unfoldable pub add_route : Route Q → Pipeline Q → List Effect × Pipeline Q
  add_route r p = reconfigure (record p { routes = p.routes ++ r ∷ []; cache = invalidate p.cache })

  unfoldable pub clear_routes : Pipeline Q → List Effect × Pipeline Q
  clear_routes p = reconfigure (record p { routes = []; cache = invalidate p.cache })

  unfoldable pub start : Pipeline Q → Pipeline Q
  start p =
      let p' = record p { accepting = true } in
      if p.running then p' else record p' { running = true; crossbar = Crossbar.start W p.crossbar }

  -- `close` and `request_stop` differ in how they stop the crossbar.
  unfoldable pub shut_down :
      (SinkCrossbar Q → List (List Output) × SinkCrossbar Q) → Pipeline Q → List Effect × Pipeline Q
  shut_down stop p =
      let (out, x) = stop p.crossbar in
      let stopped = record p { accepting = false; running = false; crossbar = x } in
      let (later, replaced) = replace_crossbar stopped in
      (by_lanes out ∷ flush_pipeline stopped ++ later, replaced)

  unfoldable pub close : Pipeline Q → List Effect × Pipeline Q
  unfolding shut_down
  close p = shut_down (Crossbar.close W) p

  -- The destructor.
  abbrev pub destroy : Pipeline Q → List Effect
  destroy p = (close p).0

  unfoldable pub request_stop : Pipeline Q → List Effect × Pipeline Q
  unfolding shut_down
  request_stop p = shut_down (Crossbar.request_stop W) p

-- A line on stderr.
abbrev pub emergency_fallback_write : Bytes → Effect
emergency_fallback_write line = fallback line

module _ {Q : Type 0} (W : BlockingQueue Event Q) (host : Host) where
  fallback_line : Event → Bytes
  fallback_line e =
      codes "[sylog:fallback] "
      ++ (format_time host e.timestamp
          ++ b' ' ∷ (e.severity_name ++ b':' ∷ b' ' ∷ (e.message ++ b'\n' ∷ [])))

  -- The branch of an event that no route takes.
  unfoldable pub unrouted : Event → List Effect
  unfolding fallback_line
  unrouted e =
      if leb error.priority e.severity_priority
      then emergency_fallback_write (fallback_line e) ∷ []
      else []

  unfoldable pub submit : Event → Bool → Pipeline Q → List Effect × Submitted × Pipeline Q
  unfolding unrouted
  submit e force_sync p =
      let (ce, cache) = cached_route_mask p.routes p.cache e.endpoint in
      let p' = record p { cache = cache } in
      let sync = by_caller (dispatch_sync p.routes e ce.route_mask) ∷ [] in
      let (x, s) = Crossbar.submit W p.crossbar e ce.route_mask p.accepting in
      if ce.route_mask == 0
      then (unrouted e, done, p')
      else if not (all_pass p.global_filters e)
      then ([], done, p')
      else if not (async_mode p.cfg e force_sync) || not p.accepting
      then (sync, done, p')
      else ([], submitted s, record p' { crossbar = x })
