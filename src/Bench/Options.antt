-- ===== src/Bench/Options.antt =====
-- benchmarks/sylog_bench.cpp: the command line's options and how they are parsed. What the
-- third-party argtree makes of the arguments, a status and the options with their values in order,
-- is an argument.
pub mod Numbers
pub mod Errors
use sy_log.Event.{ℤ, pos, negsuc}
use sy_log.Host.Decimal.{value}
use sy_log.Prelude.{
  ℕ, ◌+◌, ◌-◌, ◌%◌, ◌^◌, Bool, true, false, Option, none, some, List, [], ◌∷◌, ◌++◌, Bytes, codes,
  bytes_eq, ltb, leb, ◌&&◌, not, if◌then◌else◌,
}

abbrev pub is_digit : ℕ → Bool
is_digit c = leb b'0' c && leb c b'9'

-- The digits at the front of a text, and what follows them.
unfoldable pub digit_prefix : Bytes → Bytes × Bytes
digit_prefix [] = ([], [])
digit_prefix (c ∷ s) =
    let (digits, rest) = digit_prefix s in if is_digit c then (c ∷ digits, rest) else ([], c ∷ s)

-- `std::from_chars` for an `std::uint64_t` in base ten: the value and what is left from `ptr` on, or
-- one of its two errors.
pub data FromChars : Type 0 where
  converted : ℕ → Bytes → FromChars
  invalid_argument result_out_of_range : FromChars

unfoldable pub convert : Bytes → Bytes → FromChars
convert [] rest = invalid_argument
convert (c ∷ digits) rest =
    let n = value 0 (c ∷ digits) in if ltb n (2 ^ 64) then converted n rest else result_out_of_range

unfoldable pub from_chars : Bytes → FromChars
from_chars s = convert (digit_prefix s).0 (digit_prefix s).1

whole : FromChars → Option ℕ
whole (converted n []) = some n
whole (converted n (c ∷ rest)) = none
whole invalid_argument = none
whole result_out_of_range = none

-- `parse_u64`; `none` is a false result, which leaves `out` alone.
unfoldable pub parse_u64 : Bytes → Option ℕ
unfolding whole
parse_u64 [] = none
parse_u64 (c ∷ s) = whole (from_chars (c ∷ s))

-- `static_cast<int>` of an `std::uint64_t`: the low 32 bits, as a two's complement.
unfoldable pub as_int : ℕ → ℤ
as_int n = let w = n % 2 ^ 32 in if ltb w (2 ^ 31) then pos w else negsuc (2 ^ 32 - w - 1)

-- `std::max<std::uint64_t>(1, parsed)`
abbrev pub max_one : ℕ → ℕ
max_one n = if ltb 1 n then n else 1

pub record CliState : Type 0 where
  pub scenario : Bytes
  pub events : ℕ
  pub producers : ℤ
  pub queue_capacity : ℕ
  pub slow_us : ℤ
  pub file_path : Bytes
  pub error : Bytes

abbrev pub initial_state : CliState
initial_state = record {
  scenario = codes "all";
  events = 100000;
  producers = pos 4;
  queue_capacity = 2 ^ 14;
  slow_us = pos 100;
  file_path = codes "sylog_bench.log";
  error = [];
}

unfoldable pub set_error : CliState → Bytes → CliState
set_error st message = if bytes_eq st.error [] then record st { error = message } else st

unfoldable pub set_scenario : CliState → Bytes → CliState
set_scenario st v = record st { scenario = v }

unfoldable pub set_file : CliState → Bytes → CliState
set_file st v = record st { file_path = v }

unfoldable pub set_events : CliState → Bytes → CliState
set_events st v = elim (parse_u64 v) [
  | none ↦ set_error st (codes "--events expects an unsigned integer")
  | some parsed ↦ record st { events = max_one parsed }
]

unfoldable pub set_producers : CliState → Bytes → CliState
set_producers st v = elim (parse_u64 v) [
  | none ↦ set_error st (codes "--producers expects an unsigned integer")
  | some parsed ↦ record st { producers = as_int (max_one parsed) }
]

unfoldable pub set_capacity : CliState → Bytes → CliState
set_capacity st v = elim (parse_u64 v) [
  | none ↦ set_error st (codes "--capacity expects an unsigned integer")
  | some parsed ↦ record st { queue_capacity = max_one parsed }
]

unfoldable pub set_slow_us : CliState → Bytes → CliState
set_slow_us st v = elim (parse_u64 v) [
  | none ↦ set_error st (codes "--slow-us expects an unsigned integer")
  | some parsed ↦ record st { slow_us = as_int parsed }
]

-- The options of `benchmark_cli`, each with its setter.
pub data CliOption : Type 0 where
  scenario events producers capacity slow_us file : CliOption

unfoldable pub apply_option : CliState → CliOption × Bytes → CliState
unfolding set_scenario set_events set_producers set_capacity set_slow_us set_file
apply_option st (scenario, v) = set_scenario st v
apply_option st (events, v) = set_events st v
apply_option st (producers, v) = set_producers st v
apply_option st (capacity, v) = set_capacity st v
apply_option st (slow_us, v) = set_slow_us st v
apply_option st (file, v) = set_file st v

-- The state after the options, which are applied from left to right.
unfoldable pub apply_options : CliState → List (CliOption × Bytes) → CliState
apply_options st [] = st
apply_options st (o ∷ os) = apply_options (apply_option st o) os

pub data ParseStatus : Type 0 where
  ok help_current help_subtree error : ParseStatus

-- What argtree's `parse` gives: how it ended, and the options that it matched.
pub record Matched : Type 0 where
  pub status : ParseStatus
  pub matched : List (CliOption × Bytes)

pub record Options : Type 0 where
  pub scenario : Bytes
  pub events : ℕ
  pub producers : ℤ
  pub queue_capacity : ℕ
  pub slow_us : ℤ
  pub file_path : Bytes

abbrev pub default_options : Options
default_options = record {
  scenario = codes "all";
  events = 100000;
  producers = pos 4;
  queue_capacity = 2 ^ 14;
  slow_us = pos 100;
  file_path = codes "sylog_bench.log";
}

pub record ParsedOptions : Type 0 where
  pub options : Options
  pub should_exit : Bool
  pub exit_code : ℕ

abbrev pub exit_with : ℕ → ParsedOptions
exit_with code = record { options = default_options; should_exit = true; exit_code = code }

abbrev pub accepted_options : CliState → ParsedOptions
accepted_options st = record {
  options = record {
    scenario = st.scenario;
    events = st.events;
    producers = st.producers;
    queue_capacity = st.queue_capacity;
    slow_us = st.slow_us;
    file_path = st.file_path;
  };
  should_exit = false;
  exit_code = 0;
}

-- `parse_args`, less what it prints.
unfoldable pub parse_args : Matched → ParsedOptions
unfolding apply_options
parse_args m =
    let st = apply_options initial_state m.matched in
    elim m.status [
      | ok ↦ if not (bytes_eq st.error []) then exit_with 2 else accepted_options st
      | help_current ↦ exit_with 0
      | help_subtree ↦ exit_with 0
      | error ↦ exit_with 2
    ]
