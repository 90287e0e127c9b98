-- ===== src/Bench/Samples.antt =====
-- benchmarks/sylog_bench.cpp: the counting sink, the latency samples and their percentiles.
pub mod Rank
pub mod Clamp
use sy_log.Prelude.{
  ℕ, Bool, ◌+◌, ◌-◌, ◌%◌, ◌^◌, ◌≤◌, Option, none, some, List, [], ◌∷◌, ◌++◌, Bytes, length,
  get_elem?, ltb, leb, if◌then◌else◌,
}

-- `CountingSink`, and the counters of the other two sinks.
pub record CountingSink : Type 0 where
  pub writes : ℕ
  pub bytes : ℕ

unfoldable pub count_write : Bytes → CountingSink → CountingSink
count_write s c = record { writes = (c.writes + 1) % 2 ^ 64; bytes = (c.bytes + length s) % 2 ^ 64 }

-- `SlowCountingSink` counts in the same way, after a delay.
unfoldable pub slow_count_write : Bytes → CountingSink → CountingSink
unfolding count_write
slow_count_write s c = count_write s c

-- `CountingFileSink` appends to its file, and counts.
pub record CountingFileSink : Type 0 where
  pub out : Bytes
  pub counts : CountingSink

unfoldable pub file_count_write : Bytes → CountingFileSink → CountingFileSink
unfolding count_write
file_count_write s f = record { out = f.out ++ s; counts = count_write s f.counts }

-- The vector of `Timings` with the capacity that `reserve` has given it.
pub record Timings : Type 0 where
  pub room : ℕ
  pub enqueue_ns : List ℕ

-- `std::vector::reserve` gives the capacity that is asked for, or more: the excess is an argument.
unfoldable pub reserve : ℕ → ℕ → Timings
reserve excess n = record { room = (if ltb 200000 n then 200000 else n) + excess; enqueue_ns = [] }

unfoldable pub record_sample : ℕ → Timings → Timings
record_sample d t =
    if ltb (length t.enqueue_ns) t.room then record t { enqueue_ns = t.enqueue_ns ++ d ∷ [] } else t

unfoldable pub record_samples : List ℕ → Timings → Timings
record_samples [] t = t
record_samples (d ∷ ds) t = record_samples ds (record_sample d t)

-- `std::sort` of numbers.
unfoldable pub insert_sorted : ℕ → List ℕ → List ℕ
insert_sorted a [] = a ∷ []
insert_sorted a (b ∷ bs) = if leb a b then a ∷ b ∷ bs else b ∷ insert_sorted a bs

unfoldable pub sort : List ℕ → List ℕ
sort [] = []
sort (a ∷ as_) = insert_sorted a (sort as_)

-- What is taken from the platform's doubles, by their 64-bit patterns: the order, and the product of a
-- double and a number, converted back to a number.
pub record Doubles : Type 0 where
  pub less : ℕ → ℕ → Bool
  pub scaled : ℕ → ℕ → ℕ

abbrev pub zero_point : ℕ
zero_point = 0

abbrev pub one_point : ℕ
one_point = 0x3ff0000000000000

-- `std::clamp(p, 0.0, 1.0)`
unfoldable pub clamp : Doubles → ℕ → ℕ
clamp doubles p =
    if doubles.less p zero_point
    then zero_point
    else if doubles.less one_point p
    then one_point
    else p

at_or_zero : Option ℕ → ℕ
at_or_zero none = 0
at_or_zero (some v) = v

-- An index beyond the end, which the source leaves undefined, is excluded by the theorems.
unfoldable pub percentile : Doubles → List ℕ → ℕ → ℕ
unfolding at_or_zero
percentile doubles [] p = 0
percentile doubles (v ∷ vs) p =
    at_or_zero (get_elem? (sort (v ∷ vs)) (doubles.scaled (clamp doubles p) (length (v ∷ vs) - 1)))
