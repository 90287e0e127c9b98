-- ===== src/Bench/Report.antt =====
-- benchmarks/sylog_bench.cpp: what the benchmark prints of a scenario.
use sy_log.Bench.Run.{ScenarioResult}
use sy_log.Host.{format_unsigned, format_signed}
use sy_log.Prelude.{ℕ, List, [], ◌∷◌, ◌++◌, Bytes, codes}

-- What is taken from the platform: a count divided by a duration of at least a millionth of a second,
-- and the text of a double with a fixed number of decimals.
pub record Floats : Type 0 where
  pub per_second : ℕ → ℕ → ℕ
  pub fixed : ℕ → ℕ → Bytes

abbrev pub print_benchmark_notes : Bytes
print_benchmark_notes =
    codes "\nNotes:\n"
    ++ (codes
          "  produced is the number of logger calls. consumed is sink writes observed after close().\n"
        ++ (codes
              "  dropped_or_filtered is produced-consumed; in drop scenarios this approximates backpressure loss.\n"
            ++ codes
                "  enqueue p50/p95/p99 measures producer-side call latency samples, not raw worker throughput.\n"))

unfoldable pub in_a_row : List Bytes → Bytes
in_a_row [] = []
in_a_row (text ∷ texts) = text ++ in_a_row texts

-- The lines of `print_result`, one after another.
unfoldable pub print_result : Floats → ScenarioResult → Bytes
unfolding in_a_row
print_result floats r = in_a_row (
    codes "\nscenario="
    ∷ r.name
    ∷ codes "\n"
    ∷ codes "  backend=Workers\n"
    ∷ codes "  sink="
    ∷ r.sink
    ∷ codes " renderer="
    ∷ r.renderer
    ∷ codes " policy="
    ∷ r.policy
    ∷ codes "\n"
    ∷ codes "  producers="
    ∷ format_signed r.producers
    ∷ codes " queue_capacity="
    ∷ format_unsigned r.queue_capacity
    ∷ codes "\n"
    ∷ codes "  produced="
    ∷ format_unsigned r.produced
    ∷ codes " consumed="
    ∷ format_unsigned r.consumed
    ∷ codes " dropped_or_filtered="
    ∷ format_unsigned r.dropped_or_filtered
    ∷ codes " bytes="
    ∷ format_unsigned r.bytes
    ∷ codes "\n"
    ∷ codes "  enqueue_seconds="
    ∷ floats.fixed 6 r.enqueue_seconds
    ∷ codes " total_seconds="
    ∷ floats.fixed 6 r.total_seconds
    ∷ codes " drain_seconds="
    ∷ floats.fixed 6 r.drain_seconds
    ∷ codes "\n"
    ∷ codes "  producer_call_rate_per_sec="
    ∷ floats.fixed 2 (floats.per_second r.produced r.enqueue_seconds)
    ∷ codes " end_to_end_consumed_per_sec="
    ∷ floats.fixed 2 (floats.per_second r.consumed r.total_seconds)
    ∷ codes "\n"
    ∷ codes "  enqueue_latency_ns p50="
    ∷ format_unsigned r.p50_ns
    ∷ codes " p95="
    ∷ format_unsigned r.p95_ns
    ∷ codes " p99="
    ∷ format_unsigned r.p99_ns
    ∷ codes "\n"
    ∷ [])
