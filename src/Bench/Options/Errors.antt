-- ===== src/Bench/Options/Errors.antt =====
-- When the benchmark rejects its command line, and what it accepts.
use sy_log.Bench.Options.{
  parse_u64, CliState, CliOption, scenario, events, producers, capacity, slow_us, file,
  initial_state, set_error, apply_option, apply_options, ok, Matched, parse_args,
}
use sy_log.Bench.Options.Numbers.{Denotes, parse_u64_iff}
use sy_log.Prelude.{
  ℕ, ◌^◌, ◌<◌, ◌≤◌, ◌≡◌, ◌↔◌, refl, true, false, none, some, List, [], ◌∷◌, Bytes, bytes_eq,
  if◌then◌else◌, arith, Option-cases, ◌⊎◌, inl, inr,
}

abbrev pub IsNumeric : CliOption → Type 0
IsNumeric scenario = ⊥
IsNumeric file = ⊥
IsNumeric events = Unit
IsNumeric producers = Unit
IsNumeric capacity = Unit
IsNumeric slow_us = Unit

-- A number is wanted, and the text is none.
abbrev pub Rejected : CliOption × Bytes → Type 0
Rejected o = IsNumeric o.0 × ((n : ℕ) → ¬ Denotes o.1 n)

abbrev pub AnyRejected : List (CliOption × Bytes) → Type 0
AnyRejected [] = ⊥
AnyRejected (o ∷ os) = Rejected o ⊎ AnyRejected os

-- Without an error so far, a numeric option leaves one exactly if its text is not a number.
module _ (st : CliState) (clean : st.error ≡ []) where
  complains :
      (o : CliOption) (v : Bytes)
      → IsNumeric o
      → parse_u64 v ≡ none
      → bytes_eq (apply_option st (o, v)).error [] ≡ false
  unfolding apply_option set_error
  complains scenario v w h = elim w [ ]
  complains file v w h = elim w [ ]
  complains events v w h = ground (arith, h, clean)
  complains producers v w h = ground (arith, h, clean)
  complains capacity v w h = ground (arith, h, clean)
  complains slow_us v w h = ground (arith, h, clean)

  accepts :
      (o : CliOption) (v : Bytes) (n : ℕ)
      → parse_u64 v ≡ some n
      → (apply_option st (o, v)).error ≡ []
  unfolding apply_option
  accepts scenario v n h = clean
  accepts file v n h = clean
  accepts events v n h = ground (arith, h, clean)
  accepts producers v n h = ground (arith, h, clean)
  accepts capacity v n h = ground (arith, h, clean)
  accepts slow_us v n h = ground (arith, h, clean)

  plain_option :
      (o : CliOption) (v : Bytes) → ((IsNumeric o → ⊥)) → (apply_option st (o, v)).error ≡ []
  unfolding apply_option
  plain_option scenario v h = clean
  plain_option file v h = clean
  plain_option events v h = absurd (h tt)
  plain_option producers v h = absurd (h tt)
  plain_option capacity v h = absurd (h tt)
  plain_option slow_us v h = absurd (h tt)

apply_option-set_error : (o : CliOption) → IsNumeric o ⊎ (IsNumeric o → ⊥)
apply_option-set_error scenario = inr (λ h. h)
apply_option-set_error file = inr (λ h. h)
apply_option-set_error events = inl tt
apply_option-set_error producers = inl tt
apply_option-set_error capacity = inl tt
apply_option-set_error slow_us = inl tt

no_number : (v : Bytes) → parse_u64 v ≡ none → (n : ℕ) → ¬ Denotes v n
no_number v h n d = cc (h, (parse_u64_iff v n).1 d)

kept_one :
    (st : CliState) (o : CliOption) (v : Bytes)
    → bytes_eq st.error [] ≡ false
    → bytes_eq (apply_option st (o, v)).error [] ≡ false
unfolding apply_option set_error
kept_one st scenario v k = k
kept_one st file v k = k
kept_one st events v k = ground (arith, k, Option-cases (parse_u64 v))
kept_one st producers v k = ground (arith, k, Option-cases (parse_u64 v))
kept_one st capacity v k = ground (arith, k, Option-cases (parse_u64 v))
kept_one st slow_us v k = ground (arith, k, Option-cases (parse_u64 v))

-- The first error stays.
kept_error :
    (st : CliState) (os : List (CliOption × Bytes))
    → bytes_eq st.error [] ≡ false
    → bytes_eq (apply_options st os).error [] ≡ false
unfolding apply_options
kept_error st [] h = h
kept_error st ((o, v) ∷ os) h = kept_error (apply_option st (o, v)) os (kept_one st o v h)

-- One option: it is rejected and leaves an error, or neither.
one_option :
    (st : CliState) (o : CliOption) (v : Bytes)
    → st.error ≡ []
    → (Rejected (o, v) × (bytes_eq (apply_option st (o, v)).error [] ≡ false))
      ⊎ ((Rejected (o, v) → ⊥) × ((apply_option st (o, v)).error ≡ []))
one_option st o v clean = elim (apply_option-set_error o) [
  | inr plain ↦ inr (λ r. plain r.0, plain_option st clean o v plain)
  | inl numeric ↦ elim (Option-cases (parse_u64 v)) [
    | inl missing ↦ inl ((numeric, no_number v missing), complains st clean o v numeric missing)
    | inr (n, found) ↦ inr (λ r. r.1 n ((parse_u64_iff v n).0 found), accepts st clean o v n found)
  ]
]

all_options :
    (st : CliState) (os : List (CliOption × Bytes))
    → st.error ≡ []
    → (AnyRejected os × (bytes_eq (apply_options st os).error [] ≡ false))
      ⊎ ((AnyRejected os → ⊥) × (bytes_eq (apply_options st os).error [] ≡ true))
unfolding apply_options
all_options st [] clean = inr (λ r. r, rw clean refl)
all_options st ((o, v) ∷ os) clean = elim (one_option st o v clean) [
  | inl (bad, marked) ↦ inl (inl bad, kept_error (apply_option st (o, v)) os marked)
  | inr (fine, still) ↦ elim (all_options (apply_option st (o, v)) os still) [
    | inl (bad, marked) ↦ inl (inr bad, marked)
    | inr (none_, same) ↦ inr (λ r. elim r [ inl a ↦ fine a | inr b ↦ none_ b ], same)
  ]
]

-- Where argtree accepts the command line, the benchmark asks for an exit exactly when a numeric
-- option has a text that is no number below 2 ^ 64 in decimal digits; the exit code is then 2,
-- and otherwise 0.
pub parse_args_error :
    (os : List (CliOption × Bytes))
    → let r = parse_args (record { status = ok; matched = os }) in
      ((r.should_exit ≡ true) ↔ AnyRejected os) × (r.exit_code ≡ (if r.should_exit then 2 else 0))
unfolding parse_args
parse_args_error os = elim (all_options initial_state os refl) [
  | inl (bad, marked) ↦ rw marked ((λ _. bad, λ _. refl), refl)
  | inr (fine, same) ↦ rw same ((λ h. cc h, λ r. absurd (fine r)), refl)
]

-- Numbers as the benchmark wants them.
record IsSane (st : CliState) : Type 0 where
  some_events : 1 ≤ st.events
  some_room : 1 ≤ st.queue_capacity
  small : st.queue_capacity < 2 ^ 64

option-IsSane :
    (st : CliState) (o : CliOption) (v : Bytes) → IsSane st → IsSane (apply_option st (o, v))
unfolding apply_option set_error
option-IsSane st scenario v s = ground arith
option-IsSane st file v s = ground arith
option-IsSane st events v s = ground (arith, Option-cases (parse_u64 v))
option-IsSane st producers v s = ground (arith, Option-cases (parse_u64 v))
option-IsSane st capacity v s = elim (Option-cases (parse_u64 v)) [
  | inl missing ↦ ground (arith, missing)
  | inr (n, found) ↦ let small = ((parse_u64_iff v n).0 found).3 in ground (arith, found)
]
option-IsSane st slow_us v s = ground (arith, Option-cases (parse_u64 v))

options-IsSane :
    (st : CliState) (os : List (CliOption × Bytes)) → IsSane st → IsSane (apply_options st os)
unfolding apply_options
options-IsSane st [] s = s
options-IsSane st ((o, v) ∷ os) s =
    options-IsSane (apply_option st (o, v)) os (option-IsSane st o v s)

-- Whatever the command line, the options have at least one event and a queue capacity from 1 to
-- below 2 ^ 64.
pub parse_args_bounds :
    (m : Matched)
    → let o = (parse_args m).options in
      (1 ≤ o.events) × (1 ≤ o.queue_capacity) × (o.queue_capacity < 2 ^ 64)
unfolding parse_args
parse_args_bounds m =
    let s =
      options-IsSane initial_state m.matched
        (record { some_events = omega arith; some_room = omega arith; small = omega arith }) in
    ground (arith, s)
