-- ===== src/Logger.antt =====
-- include/sylog/logger.hpp and src/logger.cpp: `Logger`, over the pipeline that `instance()` gives.
pub mod Enabled
use sy_log.Event.{
  Event, Field, SourceLocation, default_event, set_timestamp, set_severity, set_endpoint,
  set_source, set_thread_id, set_message, set_fields,
}
use sy_log.Host.{Host}
use sy_log.Pipeline.{
  Pipeline, Effect, Submitted, done, waits_at, cached_min_priority, submit, flush_pipeline,
}
use sy_log.Prelude.{ℕ, Bool, List, [], ◌++◌, Bytes, leb, not, if◌then◌else◌}
use sy_log.Severity.{Severity}
use sy_log.Workers.{BlockingQueue}

pub record Logger : Type 0 where
  pub endpoint : Bytes

-- Where and when a call is made: the source location, the clock's time and the calling thread.
pub record Site : Type 0 where
  pub loc : SourceLocation
  pub now : ℕ
  pub tid : ℕ

unfoldable pub make_event : Logger → Severity → Site → Bytes → Event
make_event logger sev site message =
    let e = set_timestamp site.now default_event in
    let e = set_severity sev.name sev.priority e in
    let e = set_endpoint logger.endpoint e in
    let e = set_source site.loc e in let e = set_thread_id site.tid e in set_message message e

module _ {Q : Type 0} where
  unfoldable pub enabled : Logger → Severity → Pipeline Q → Bool × Pipeline Q
  enabled logger sev p =
      let (least, p') = cached_min_priority logger.endpoint p in (leb least sev.priority, p')

module _ {Q : Type 0} (W : BlockingQueue Event Q) (host : Host) where
  -- `submit`, and `flush` after it for a severity that asks for it. A caller that waits for space
  -- flushes only when it has gone on.
  unfoldable pub submit_and_flush :
      Severity → Event → Pipeline Q → List Effect × Submitted × Pipeline Q
  submit_and_flush sev e p =
      let (effects, s, p') = submit W host e sev.force_sync p in
      elim s [
        | done ↦ ((if sev.flush_after then effects ++ flush_pipeline p' else effects), done, p')
        | waits_at j d ↦ (effects, waits_at j d, p')
      ]

  -- The message is what `std::format` makes of the format string and the arguments.
  unfoldable pub log_at :
      Logger → Severity → Site → Bytes → Pipeline Q → List Effect × Submitted × Pipeline Q
  log_at logger sev site message p =
      let (on, p') = enabled logger sev p in
      if not on
      then ([], done, p')
      else submit_and_flush sev (make_event logger sev site message) p'

  unfoldable pub log_fields_at :
      Logger
      → List Field
      → Severity
      → Site
      → Bytes
      → Pipeline Q
      → List Effect × Submitted × Pipeline Q
  log_fields_at logger fields sev site message p =
      let (on, p') = enabled logger sev p in
      if not on
      then ([], done, p')
      else submit_and_flush sev (set_fields fields (make_event logger sev site message)) p'
