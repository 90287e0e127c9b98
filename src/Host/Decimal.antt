-- ===== src/Host/Decimal.antt =====
-- Decimal numbers: what their digits are, and that they can be read back.
use sy_log.Host.{digits_before, format_unsigned, format_padded}
use sy_log.Prelude.{
  ℕ, zero, suc, ◌+◌, ◌-◌, ◌*◌, ◌/◌, ◌<◌, ◌≤◌, ◌≡◌, sym, ap, ◌∙◌, [], ◌∷◌, Bytes, ltb, arith,
  if-cases, All, All-append, replicate, length, ◌%◌, zero, suc, ltb→lt,
}

-- The number that digits denote behind an accumulated one.
unfoldable pub value : ℕ → Bytes → ℕ
value a [] = a
value a (c ∷ s) = value (a * 10 + (c - b'0')) s

value-digits_before :
    (fuel n : ℕ) (out : Bytes) → n < fuel → value 0 (digits_before fuel n out) ≡ value n out
unfolding digits_before value
value-digits_before zero n out h = absurd (omega arith)
value-digits_before (suc fuel) n out h =
    if-cases (λ (t : Bytes). value 0 t ≡ value n out) (ltb n 10) _ _
      (λ small. ap (λ (t : ℕ). value t out) (omega arith))
      (λ large.
        value-digits_before fuel (n / 10) _ (ground arith)
        ∙ ap (λ (t : ℕ). value t out) (omega arith))

pub value-format_unsigned : (n : ℕ) → value 0 (format_unsigned n) ≡ n
unfolding format_unsigned value
value-format_unsigned n = value-digits_before (suc n) n [] (omega arith)

pub format_unsigned-injective : (m n : ℕ) → format_unsigned m ≡ format_unsigned n → m ≡ n
format_unsigned-injective m n h =
    sym (value-format_unsigned m) ∙ ap (value 0) h ∙ value-format_unsigned n

length-digits_before : (fuel n : ℕ) (out : Bytes) → length out ≤ length (digits_before fuel n out)
unfolding digits_before
length-digits_before zero n out = omega arith
length-digits_before (suc fuel) n out =
    if-cases (λ (t : Bytes). length out ≤ length t) (ltb n 10) _ _ (λ _. omega arith)
      (λ _. omega (arith, length-digits_before fuel (n / 10) ((b'0' + n % 10) ∷ out)))

pub format_unsigned_pos : (n : ℕ) → 0 < length (format_unsigned n)
unfolding format_unsigned digits_before
format_unsigned_pos n =
    if-cases (λ (t : Bytes). 0 < length t) (ltb n 10) _ _ (λ _. omega arith)
      (λ _. omega (arith, length-digits_before n (n / 10) ((b'0' + n % 10) ∷ [])))

-- What holds of each digit holds of each byte of a number that is written out.
module _ {κ} (P : ℕ → Type κ) (digit : (d : ℕ) → d < 10 → P (b'0' + d)) where
  digits_before-All : (fuel n : ℕ) (out : Bytes) → All P out → All P (digits_before fuel n out)
  unfolding digits_before
  digits_before-All zero n out h = h
  digits_before-All (suc fuel) n out h =
      if-cases (All P) (ltb n 10) _ _ (λ small. (digit n (ltb→lt n 10 small), h))
        (λ _. digits_before-All fuel (n / 10) _ (digit (n % 10) (omega arith), h))

  pub format_unsigned-All : (n : ℕ) → All P (format_unsigned n)
  unfolding format_unsigned
  format_unsigned-All n = digits_before-All (suc n) n [] tt

  All-replicate : (n d : ℕ) → d < 10 → All P (replicate n (b'0' + d))
  All-replicate zero d h = tt
  All-replicate (suc n) d h = (digit d h, All-replicate n d h)

  pub format_padded-All : (width n : ℕ) → All P (format_padded width n)
  unfolding format_padded
  format_padded-All width n =
      let digits = format_unsigned n in
      All-append P (replicate (width - length digits) b'0') digits
        (All-replicate (width - length digits) 0 (omega arith)) (format_unsigned-All n)
