-- ===== src/Host.antt =====
-- What the program takes from the platform and the standard library: the broken-down local time, the
-- hash of a thread id and the text of a double are arguments; decimal numbers are written out.
pub mod Decimal
use sy_log.Event.{ℤ, pos, negsuc}
use sy_log.Prelude.{
  ℕ, zero, suc, ◌+◌, ◌-◌, ◌/◌, ◌%◌, List, [], ◌∷◌, ◌++◌, Bytes, length, replicate, ltb,
  if◌then◌else◌, ◌≡◌, refl,
}

-- The fields of `std::tm` that are read.
pub record BrokenDownTime : Type 0 where
  pub year : ℕ
  pub mon : ℕ
  pub mday : ℕ
  pub hour : ℕ
  pub min : ℕ
  pub sec : ℕ

pub record Host : Type 0 where
  pub local_time : ℕ → BrokenDownTime
  pub thread_hash : ℕ → ℕ
  pub format_double : ℕ → Bytes

-- The digits of a number before a text; each round divides by ten, so `n + 1` rounds are enough.
unfoldable pub digits_before : ℕ → ℕ → Bytes → Bytes
digits_before zero n out = out
digits_before (suc fuel) n out =
    let rest = digits_before fuel (n / 10) ((b'0' + n % 10) ∷ out) in
    if ltb n 10 then (b'0' + n) ∷ out else rest

-- `std::format("{}", n)` of an unsigned number.
unfoldable pub format_unsigned : ℕ → Bytes
unfolding digits_before
format_unsigned n = digits_before (suc n) n []

-- Of a signed one.
unfoldable pub format_signed : ℤ → Bytes
unfolding format_unsigned
format_signed (pos n) = format_unsigned n
format_signed (negsuc n) = b'-' ∷ format_unsigned (suc n)

-- `%0<width>d` of a number that is not negative.
unfoldable pub format_padded : ℕ → ℕ → Bytes
unfolding format_unsigned
format_padded width n =
    let digits = format_unsigned n in replicate (width - length digits) b'0' ++ digits

abbrev utc : BrokenDownTime
utc = record { year = 126; mon = 10; mday = 6; hour = 9; min = 42; sec = 7 }

format_padded_test :
    format_padded 4 (utc.year + 1900) ++ format_padded 2 utc.mday ≡ 50 ∷ 48 ∷ 50 ∷ 54 ∷ 48 ∷ 54 ∷ []
unfolding format_padded
format_padded_test = refl
