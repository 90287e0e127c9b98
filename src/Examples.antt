-- ===== src/Examples.antt =====
-- examples/*.cpp: the example programs, each as the calls that it makes.
pub mod Order
pub mod Written
use sy_log.Config.{asynchronous, synchronous}
use sy_log.Event.{Event}
use sy_log.Filter.{Filter, severity, at_least}
use sy_log.Host.{Host, format_unsigned}
use sy_log.Logger.{Logger, Site, log_at}
use sy_log.Pipeline.{
  Pipeline, Effect, Submitted, done, waits_at, configure, add_route, start, close,
}
use sy_log.Prelude.{ℕ, zero, suc, Option, none, some, List, [], ◌∷◌, ◌++◌, Bytes, codes}
use sy_log.Render.Json.{default_renderer, render_json}
use sy_log.Render.Pattern.{render_pattern}
use sy_log.Route.{
  Route, default_route, send_to, render_with, filtered_by, deliver_with, drop_when_full,
  block_when_full,
}
use sy_log.Severity.{Severity, severity_base, trace, debug, info, warn, error}
use sy_log.Workers.{BlockingQueue}

-- `audit` of examples/custom_severity.cpp.
abbrev pub audit : Severity
audit = record severity_base { name = codes "AUDIT"; priority = 450 }

-- A program on the pipeline; `none` where a call waits for space.
abbrev pub Program : Type 0 → Type 0
Program Q = Pipeline Q → Option (List Effect × Pipeline Q)

module _ {Q : Type 0} where
  abbrev pub call : (Pipeline Q → List Effect × Pipeline Q) → Program Q
  call f p = some (f p)

  unfoldable pub and_then : Program Q → Program Q → Program Q
  and_then f g p = elim (f p) [
    | none ↦ none
    | some (out, p') ↦ elim (g p') [ none ↦ none | some (later, p'') ↦ some (out ++ later, p'') ]
  ]

  -- The calls in order.
  unfoldable pub in_order : List (Program Q) → Program Q
  unfolding and_then
  in_order [] = λ p. some ([], p)
  in_order (f ∷ fs) = and_then f (in_order fs)

module _ {Q : Type 0} (W : BlockingQueue Event Q) (host : Host) where
  unfoldable pub log : Logger → Severity → Site → Bytes → Program Q
  log logger sev site message p =
      let (out, s, p') = log_at W host logger sev site message p in
      elim s [ done ↦ some (out, p') | waits_at j d ↦ none ]

  abbrev pub basic_route : ℕ → Route Q
  basic_route console = deliver_with block_when_full (
      render_with (render_pattern host (codes "[{severity}] {endpoint}: {message}\n"))
        (send_to console default_route))

  -- `main` of examples/basic.cpp.
  unfoldable pub basic : ℕ → Site → Site → Program Q
  basic console at_info at_warn =
      let route = basic_route console in
      let logger : Logger = record { endpoint = codes "example.basic" } in
      in_order (
        call (configure W synchronous)
        ∷ call (add_route W route)
        ∷ call (λ p. ([], start W p))
        ∷ log logger info at_info (codes "hello from SyLog")
        ∷ log logger warn at_warn (codes "this warning is routed to the console")
        ∷ call (close W)
        ∷ [])

  -- `main` of examples/custom_severity.cpp; the message is what `std::format` makes of 42.
  unfoldable pub custom_severity : ℕ → Site → Program Q
  custom_severity console at_audit =
      let route = deliver_with block_when_full (
        filtered_by (some (severity (at_least info))) (
          render_with (render_pattern host (codes "[{severity}] {endpoint}: {message}\n"))
            (send_to console default_route))) in
      let logger : Logger = record { endpoint = codes "example.audit" } in
      in_order (
        call (configure W synchronous)
        ∷ call (add_route W route)
        ∷ call (λ p. ([], start W p))
        ∷ log logger audit at_audit
            (codes "user " ++ (format_unsigned 42 ++ codes " changed account settings"))
        ∷ call (close W)
        ∷ [])

  -- `main` of examples/routing.cpp, with its console and its file.
  unfoldable pub routing : ℕ → ℕ → Site → Site → Site → Program Q
  routing console file at_debug at_info at_error =
      let console_route = deliver_with drop_when_full (
        filtered_by (some (severity (at_least info))) (
          render_with (render_pattern host (codes "[{severity}] {message}\n"))
            (send_to console default_route))) in
      let file_route = deliver_with block_when_full (
        filtered_by (some (severity (at_least trace)))
          (render_with (render_json host default_renderer) (send_to file default_route))) in
      let logger : Logger = record { endpoint = codes "example.routing" } in
      in_order (
        call (configure W (asynchronous 4096))
        ∷ call (add_route W console_route)
        ∷ call (add_route W file_route)
        ∷ call (λ p. ([], start W p))
        ∷ log logger debug at_debug (codes "debug goes only to the file route")
        ∷ log logger info at_info (codes "info goes to console and file")
        ∷ log logger error at_error (codes "error goes to console and file")
        ∷ call (close W)
        ∷ [])

  -- The loop of examples/async_workers.cpp, from an index on; a call has its own site.
  unfoldable pub log_events : Logger → (ℕ → Site) → ℕ → ℕ → List (Program Q)
  log_events logger site i zero = []
  log_events logger site i (suc n) =
      log logger info (site i) (codes "workers-backed event " ++ format_unsigned i)
      ∷ log_events logger site (suc i) n

  -- `main` of examples/async_workers.cpp.
  unfoldable pub async_workers : ℕ → (ℕ → Site) → Program Q
  unfolding log_events
  async_workers console at_info =
      let route = deliver_with block_when_full (
        render_with (render_pattern host (codes "{time} [{severity}] {message}\n"))
          (send_to console default_route)) in
      let logger : Logger = record { endpoint = codes "example.async" } in
      in_order (
        call (configure W (asynchronous 1024))
        ∷ call (add_route W route)
        ∷ call (λ p. ([], start W p))
        ∷ (log_events logger at_info 0 10 ++ call (close W) ∷ []))
