-- ===== src/Tests/Data.antt =====
-- Events, routes and pipelines on which the tests run.
use sy_log.Event.{Event, default_event, set_endpoint, set_message}
use sy_log.Filter.{severity, endpoint}
use sy_log.Host.{Host}
use sy_log.Pipeline.{Pipeline, new_pipeline, add_route, start}
use sy_log.Pipeline.Invariant.{IsSound}
use sy_log.Pipeline.Invariant.Calls.{new_pipeline-IsSound, add_route-IsSound, start-IsSound}
use sy_log.Prelude.{some, [], ◌∷◌, codes}
use sy_log.Route.{Route, default_route, send_to, filtered_by, deliver_with, block_when_full}
use sy_log.Tests.Fifo.{Fifo, fifo, fifo_laws}

abbrev pub host : Host
host = record {
  local_time = λ tp. record { year = 126; mon = 10; mday = 6; hour = 9; min = 42; sec = 7 };
  thread_hash = λ tid. tid;
  format_double = λ d. codes "0.5";
}

abbrev pub net_event : Event
net_event = set_message (codes "link \"up\"") (set_endpoint (codes "net/tcp") default_event)

abbrev pub to_file : Route Fifo
to_file =
    deliver_with block_when_full
      (filtered_by (some (severity (record { minimum_priority = 200 }))) (send_to 7 default_route))

abbrev pub to_console : Route Fifo
to_console =
    filtered_by
      (some (
        endpoint
          (record { allow_prefixes = codes "net" ∷ []; deny_prefixes = codes "net/udp" ∷ [] })))
      (send_to 9 default_route)

abbrev one_route : Pipeline Fifo
one_route = (add_route fifo to_file (new_pipeline fifo)).1

-- Two routes, not started.
abbrev pub configured : Pipeline Fifo
configured = (add_route fifo to_console one_route).1

abbrev pub started : Pipeline Fifo
started = start fifo configured

abbrev pub configured_sound : IsSound fifo_laws configured
configured_sound =
    add_route-IsSound fifo_laws to_console one_route tt
      (add_route-IsSound fifo_laws to_file (new_pipeline fifo) tt (new_pipeline-IsSound fifo_laws))

abbrev pub started_sound : IsSound fifo_laws started
started_sound = start-IsSound fifo_laws configured configured_sound

-- One route without a severity filter.
abbrev pub unfiltered : Pipeline Fifo
unfiltered = (add_route fifo to_console (new_pipeline fifo)).1

abbrev pub unfiltered_sound : IsSound fifo_laws unfiltered
unfiltered_sound =
    add_route-IsSound fifo_laws to_console (new_pipeline fifo) tt (new_pipeline-IsSound fifo_laws)
