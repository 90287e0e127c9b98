-- ===== src/Tests/ExampleRuns.antt =====
-- Runs of the example programs: examples/*.cpp.
use sy_log.Event.{default_event}
use sy_log.Examples.{basic}
use sy_log.Examples.Written.{basic_lem}
use sy_log.Logger.{Site}
use sy_log.Pipeline.{Pipeline, by_lanes, by_caller, new_pipeline}
use sy_log.Prelude.{◌≡◌, some, [], ◌∷◌, codes}
use sy_log.Route.{write, flush}
use sy_log.Tests.Data.{host}
use sy_log.Tests.Fifo.{Fifo, fifo, fifo_laws}

abbrev here : Site
here = record { loc = default_event.source; now = 0; tid = 0 }

basic_lem_example :
    (p : Pipeline Fifo) × (basic fifo host 1 here here (new_pipeline fifo)
      ≡ some (
        by_lanes []
            ∷ by_lanes []
            ∷ by_lanes []
            ∷ by_caller (write 1 (codes "[INFO] example.basic: hello from SyLog\n") ∷ [])
            ∷ by_caller (
                write 1 (codes "[WARN] example.basic: this warning is routed to the console\n")
                ∷ [])
            ∷ by_lanes ([] ∷ [])
            ∷ by_caller (flush 1 ∷ [])
            ∷ by_lanes ([] ∷ [])
            ∷ by_lanes []
            ∷ [],
        p,
      ))
basic_lem_example = basic_lem fifo_laws host 1 here here
