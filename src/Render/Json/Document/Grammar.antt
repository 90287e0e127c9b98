-- ===== src/Render/Json/Document/Grammar.antt =====
-- Numbers as the JSON grammar has them, and that decimal integers are such numbers.
use sy_log.Event.{ℤ, pos, negsuc}
use sy_log.Host.{digits_before, format_unsigned, format_signed}
use sy_log.Prelude.{
  ℕ, zero, suc, ◌/◌, ◌<◌, ◌≤◌, ◌≡◌, refl, Bool, true, false, ◌&&◌, ◌||◌, ◌==◌, [], ◌∷◌, Bytes, leb,
  ltb, arith, if-cases, if◌then◌else◌, All,
}

-- How far a number is read: `-`, a whole part without leading zeros, a fraction, an exponent.
pub data Part : Type 0 where
  start : Part
  minus : Part
  only_zero : Part
  whole : Part
  point : Part
  fraction : Part
  exponent : Part
  exponent_sign : Part
  exponent_digits : Part
  wrong : Part

digit : ℕ → Bool
digit c = leb b'0' c && leb c b'9'

opens_exponent : ℕ → Bool
opens_exponent c = c == b'e' || c == b'E'

unfoldable pub next_part : Part → ℕ → Part
unfolding digit opens_exponent
next_part start c =
    if c == b'-' then minus else if c == b'0' then only_zero else if digit c then whole else wrong
next_part minus c = if c == b'0' then only_zero else if digit c then whole else wrong
next_part only_zero c = if c == b'.' then point else if opens_exponent c then exponent else wrong
next_part whole c =
    if digit c
    then whole
    else if c == b'.'
    then point
    else if opens_exponent c
    then exponent
    else wrong
next_part point c = if digit c then fraction else wrong
next_part fraction c = if digit c then fraction else if opens_exponent c then exponent else wrong
next_part exponent c =
    if c == b'+' || c == b'-' then exponent_sign else if digit c then exponent_digits else wrong
next_part exponent_sign c = if digit c then exponent_digits else wrong
next_part exponent_digits c = if digit c then exponent_digits else wrong
next_part wrong c = wrong

may_end : Part → Bool
may_end start = false
may_end minus = false
may_end only_zero = true
may_end whole = true
may_end point = false
may_end fraction = true
may_end exponent = false
may_end exponent_sign = false
may_end exponent_digits = true
may_end wrong = false

unfoldable pub is_number : Part → Bytes → Bool
unfolding may_end
is_number p [] = may_end p
is_number p (c ∷ s) = is_number (next_part p c) s

abbrev pub InGrammar : Bytes → Type 0
InGrammar s = is_number start s ≡ true

abbrev Digits : Bytes → Type 0
Digits = All (λ c. (b'0' ≤ c) × (c ≤ b'9'))

in_whole : (c : ℕ) → b'0' ≤ c → c ≤ b'9' → next_part whole c ≡ whole
unfolding next_part
in_whole c h k = ground (arith, h, k)

is_number-Digits : (s : Bytes) → Digits s → is_number whole s ≡ true
unfolding is_number
is_number-Digits [] h = refl
is_number-Digits (c ∷ s) h = rw (in_whole c h.0.0 h.0.1) (is_number-Digits s h.1)

-- Digits of which the first one is not 0.
abbrev Leads : Bytes → Type 0
Leads [] = ⊥
Leads (c ∷ s) = (b'1' ≤ c) × (c ≤ b'9') × Digits s

digits_before-Leads :
    (fuel n : ℕ) (out : Bytes) → n < fuel → 0 < n → Digits out → Leads (digits_before fuel n out)
unfolding digits_before
digits_before-Leads zero n out h k d = absurd (omega arith)
digits_before-Leads (suc fuel) n out h k d =
    if-cases Leads (ltb n 10) _ _ (λ small. (omega arith, ground arith, d))
      (λ large.
        digits_before-Leads fuel (n / 10) _ (ground arith) (ground arith)
          ((omega arith, omega arith), d))

Leads-starts :
    (p : Part) (s : Bytes)
    → ((c : ℕ) → b'1' ≤ c → c ≤ b'9' → next_part p c ≡ whole)
    → Leads s
    → is_number p s ≡ true
unfolding is_number
Leads-starts p [] step h = absurd h
Leads-starts p (c ∷ s) step h = rw (step c h.0 h.1) (is_number-Digits s h.2)

from_start : (c : ℕ) → b'1' ≤ c → c ≤ b'9' → next_part start c ≡ whole
unfolding next_part
from_start c h k = ground (arith, h, k)

from_minus : (c : ℕ) → b'1' ≤ c → c ≤ b'9' → next_part minus c ≡ whole
unfolding next_part
from_minus c h k = ground (arith, h, k)

-- What `std::format` writes for an integer is a number of the JSON grammar.
pub unsigned-InGrammar : (n : ℕ) → InGrammar (format_unsigned n)
unfolding format_unsigned digits_before is_number next_part
unsigned-InGrammar zero = refl
unsigned-InGrammar (suc n) =
    Leads-starts start (digits_before (suc (suc n)) (suc n) []) from_start
      (digits_before-Leads (suc (suc n)) (suc n) [] (omega arith) (omega arith) tt)

pub signed-InGrammar : (z : ℤ) → InGrammar (format_signed z)
unfolding format_signed format_unsigned is_number next_part
signed-InGrammar (pos n) = unsigned-InGrammar n
signed-InGrammar (negsuc n) =
    Leads-starts minus (digits_before (suc (suc n)) (suc n) []) from_minus
      (digits_before-Leads (suc (suc n)) (suc n) [] (omega arith) (omega arith) tt)
