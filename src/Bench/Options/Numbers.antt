-- ===== src/Bench/Options/Numbers.antt =====
-- Which texts `parse_u64` takes, and what the options make of them.
use sy_log.Bench.Options.{
  is_digit, digit_prefix, convert, from_chars, whole, parse_u64, as_int, max_one, CliState,
  set_producers,
}
use sy_log.Event.{pos, negsuc}
use sy_log.Host.{format_unsigned}
use sy_log.Host.Decimal.{value, value-format_unsigned, format_unsigned-All, format_unsigned_pos}
use sy_log.Prelude.{
  ℕ, ◌-◌, ◌^◌, ◌<◌, ◌≡◌, ◌↔◌, refl, sym, ap, subst, ◌∙◌, true, some, [], ◌∷◌, ◌++◌, Bytes, length,
  All, append-nil, ltb, if◌then◌else◌, arith, Bool-cases, inl, inr, lt→ltb, ltb→lt,
}

digit_prefix-All : (s : Bytes) → All (λ c. is_digit c ≡ true) s → digit_prefix s ≡ (s, [])
unfolding digit_prefix
digit_prefix-All [] h = refl
digit_prefix-All (c ∷ s) h = rw (h.0, digit_prefix-All s h.1) refl

digit_prefix-split :
    (s : Bytes)
    → All (λ c. is_digit c ≡ true) (digit_prefix s).0
      × (s ≡ (digit_prefix s).0 ++ (digit_prefix s).1)
unfolding digit_prefix
digit_prefix-split [] = (tt, refl)
digit_prefix-split (c ∷ s) = elim (Bool-cases (is_digit c)) [
  | inl digit ↦ rw digit ((digit, (digit_prefix-split s).0), ap (◌∷◌ c) (digit_prefix-split s).1)
  | inr other ↦ rw other (tt, refl)
]

-- The numbers that a text stands for: one at most.
abbrev pub Denotes : Bytes → ℕ → Type 0
Denotes s n = (0 < length s) × All (λ c. is_digit c ≡ true) s × (value 0 s ≡ n) × (n < 2 ^ 64)

whole-convert :
    (digits rest : Bytes) (n : ℕ)
    → whole (convert digits rest) ≡ some n
    → (rest ≡ []) × (0 < length digits) × (value 0 digits ≡ n) × (n < 2 ^ 64)
unfolding whole convert
whole-convert [] rest n h = cc
whole-convert (c ∷ digits) [] n h = ground (arith, ltb→lt (value 0 (c ∷ digits)) (2 ^ 64))
whole-convert (c ∷ digits) (d ∷ rest) n h = ground arith

parse_u64→Denotes : (s : Bytes) (n : ℕ) → parse_u64 s ≡ some n → Denotes s n
unfolding parse_u64 from_chars
parse_u64→Denotes [] n h = cc
parse_u64→Denotes (c ∷ s) n h =
    let (digits, exact) = digit_prefix-split (c ∷ s) in
    let q = whole-convert (digit_prefix (c ∷ s)).0 (digit_prefix (c ∷ s)).1 n h in
    let same =
      exact ∙ ap (◌++◌ (digit_prefix (c ∷ s)).0) q.0 ∙ append-nil (digit_prefix (c ∷ s)).0 in
    subst (λ (t : Bytes). Denotes t n) (sym same) (q.1, digits, q.2, q.3)

Denotes→parse_u64 : (s : Bytes) (n : ℕ) → Denotes s n → parse_u64 s ≡ some n
unfolding parse_u64 from_chars convert whole
Denotes→parse_u64 [] n h = absurd (omega (arith, h.0))
Denotes→parse_u64 (c ∷ s) n h = rw (digit_prefix-All (c ∷ s) h.1, h.2, lt→ltb n (2 ^ 64) h.3) refl

-- `parse_u64` succeeds with a number exactly when the text is not empty, has nothing but decimal
-- digits, and they denote that number, which is below 2 ^ 64.
pub parse_u64_iff : (s : Bytes) (n : ℕ) → (parse_u64 s ≡ some n) ↔ Denotes s n
parse_u64_iff s n = (parse_u64→Denotes s n, Denotes→parse_u64 s n)

-- The text of a number below 2 ^ 64 is read back as that number.
pub parse_u64-format_unsigned : (n : ℕ) → n < 2 ^ 64 → parse_u64 (format_unsigned n) ≡ some n
parse_u64-format_unsigned n h = Denotes→parse_u64 (format_unsigned n) n (
  format_unsigned_pos n,
  format_unsigned-All (λ c. is_digit c ≡ true) (λ d k. ground arith) n,
  value-format_unsigned n,
  h,
)

-- A producer count below 2 ^ 32 is taken as it is, 0 as 1, below 2 ^ 31, and is negative from there on.
pub set_producers_lem :
    (st : CliState) (v : Bytes) (n : ℕ)
    → parse_u64 v ≡ some n
    → n < 2 ^ 32
    → (set_producers st v).producers
      ≡ (if ltb n (2 ^ 31) then pos (max_one n) else negsuc (2 ^ 32 - n - 1))
unfolding set_producers as_int
set_producers_lem st v n h k = ground (arith, h)
