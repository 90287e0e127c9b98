-- ===== src/Tests/OverlapRuns.antt =====
-- Calls of `add_route` that overlap, on a new pipeline: src/logger.cpp.
use sy_log.Crossbar.{new_crossbar}
use sy_log.Pipeline.{Pipeline, new_pipeline}
use sy_log.Pipeline.Overlap.{adding, holding, returned, half, changed, Overlaps, begun, moved}
use sy_log.Pipeline.Overlap.Served.{NoneReturned, served, In, Overlaps-served, Overlaps-lost_lane}
use sy_log.Prelude.{◌≡◌, refl, List, [], ◌∷◌, ◌++◌, ◌⊎◌}
use sy_log.Route.{Route}
use sy_log.Tests.Data.{to_console, to_file, configured}
use sy_log.Tests.Fifo.{Fifo, fifo}

abbrev fresh : Pipeline Fifo
fresh = new_pipeline fifo

-- The pipeline after both halves of a call.
abbrev with_console : Pipeline Fifo
with_console = (half fifo (half fifo fresh (adding to_console)).1 (holding (to_console ∷ []))).1

one_call :
    Overlaps fifo fresh
      (adding to_console ∷ [])
      with_console
      (returned ∷ [])
      ((to_console ∷ []) ∷ [])
unfolding half changed new_pipeline
one_call = moved [] [] (holding (to_console ∷ [])) (moved [] [] (adding to_console) begun)

Overlaps-served_example :
    (with_console.routes ≡ to_console ∷ [])
    × ((NoneReturned {Q = Fifo} (returned ∷ []) × (served with_console.crossbar ≡ fresh.routes))
        ⊎ In (served with_console.crossbar) ((to_console ∷ []) ∷ []))
unfolding new_pipeline new_crossbar
Overlaps-served_example =
    Overlaps-served fifo fresh (adding to_console ∷ []) with_console (returned ∷ [])
      ((to_console ∷ []) ∷ []) refl (tt, tt) one_call

Overlaps-lost_lane_example :
    (p : Pipeline Fifo) × (history : List (List (Route Fifo))) × Overlaps fifo configured
      (adding to_console ∷ adding to_file ∷ [])
      p
      (returned ∷ returned ∷ [])
      history
    × (p.routes ≡ (configured.routes ++ to_console ∷ []) ++ to_file ∷ [])
    × (served p.crossbar ≡ configured.routes ++ to_console ∷ [])
Overlaps-lost_lane_example = Overlaps-lost_lane fifo configured to_console to_file
