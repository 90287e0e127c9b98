-- ===== src/Tests/BenchRuns.antt =====
-- Runs of the benchmark's command line and statistics: benchmarks/sylog_bench.cpp.
use sy_log.Bench.Options.{parse_u64, CliOption, producers, slow_us, ok, parse_args}
use sy_log.Bench.Options.Errors.{AnyRejected, parse_args_error}
use sy_log.Bench.Options.Numbers.{Denotes, parse_u64_iff}
use sy_log.Bench.Samples.{Doubles, percentile}
use sy_log.Bench.Samples.Rank.{at_most, at_least, percentile_rank}
use sy_log.Bench.Samples.{clamp, zero_point, one_point}
use sy_log.Bench.Samples.Clamp.{DoublesLaws}
use sy_log.Prelude.{
  ℕ, ◌+◌, ◌/◌, ◌<◌, ◌≤◌, ◌≡◌, ◌↔◌, refl, true, false, some, List, [], ◌∷◌, Bytes, codes, ltb,
  if◌then◌else◌, arith,
}

parse_u64_iff_example : (parse_u64 (codes "042") ≡ some 42) ↔ Denotes (codes "042") 42
parse_u64_iff_example = parse_u64_iff (codes "042") 42

-- `--producers 8 --slow-us -1`
abbrev negative : List (CliOption × Bytes)
negative = (producers, codes "8") ∷ (slow_us, codes "-1") ∷ []

parse_args_error_example :
    let r = parse_args (record { status = ok; matched = negative }) in
    ((r.should_exit ≡ true) ↔ AnyRejected negative)
    × (r.exit_code ≡ (if r.should_exit then 2 else 0))
parse_args_error_example = parse_args_error negative

abbrev half_point : ℕ
half_point = 0x3fe0000000000000

-- Doubles from 0 on, whose order is that of their patterns, with products rounded down to those by 0, a
-- half and 1.
abbrev halves : Doubles
halves = record {
  less = ltb;
  scaled = λ p n. if ltb p half_point then 0 else if ltb p one_point then n / 2 else n;
}

halves_mono : (p q n : ℕ) → ltb q p ≡ false → halves.scaled p n ≤ halves.scaled q n
halves_mono p q n h = ground (arith, h)

halves_laws : DoublesLaws halves
halves_laws = record {
  number = λ p. true;
  zero-number = refl;
  one-number = refl;
  zero-one = refl;
  irrefl = λ p. ground arith;
  asym = λ p q h. ground (arith, h);
  le_trans = λ p q r a b c h k. ground (arith, h, k);
  scaled_zero = λ n. refl;
  scaled_one = λ n h. refl;
  scaled_mono = λ p q n a b above le below small. halves_mono p q n le;
}

abbrev values : List ℕ
values = 30 ∷ 10 ∷ 20 ∷ []

percentile_rank_example :
    let v = percentile halves values half_point in
    let i = halves.scaled (clamp halves half_point) 2 in
    (i < 3)
    × (i < at_most v values)
    × (3 ≤ i + at_least v values)
    × (v ≤ percentile halves values one_point)
    × (at_least (percentile halves values zero_point) values ≡ 3)
    × (at_most (percentile halves values one_point) values ≡ 3)
unfolding halves_laws
percentile_rank_example =
    percentile_rank halves halves_laws values half_point one_point refl refl refl (omega arith)
      (omega arith)
