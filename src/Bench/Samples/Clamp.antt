-- ===== src/Bench/Samples/Clamp.antt =====
-- What the benchmark relies on of doubles, and the argument of `percentile` between 0 and 1.
use sy_log.Bench.Samples.{Doubles, zero_point, one_point, clamp}
use sy_log.Prelude.{
  ℕ, ◌≤◌, ◌^◌, ◌≡◌, refl, arith, Bool, true, false, if-cases, Bool-cases, inl, inr,
}

-- IEEE arithmetic: numbers, which are the doubles but NaN, are ordered; a product by 0 is 0, a product
-- by 1 is exact up to 2 ^ 53, and a product by a number from 0 to 1 grows with it.
pub record DoublesLaws (d : Doubles) : Type 0 where
  pub number : ℕ → Bool
  pub zero-number : number zero_point ≡ true
  pub one-number : number one_point ≡ true
  pub zero-one : d.less zero_point one_point ≡ true
  pub irrefl : (p : ℕ) → d.less p p ≡ false
  pub asym : (p q : ℕ) → d.less p q ≡ true → d.less q p ≡ false
  pub le_trans :
      (p q r : ℕ)
      → number p ≡ true
      → number q ≡ true
      → number r ≡ true
      → d.less q p ≡ false
      → d.less r q ≡ false
      → d.less r p ≡ false
  pub scaled_zero : (n : ℕ) → d.scaled zero_point n ≡ 0
  pub scaled_one : (n : ℕ) → n ≤ 2 ^ 53 → d.scaled one_point n ≡ n
  pub scaled_mono :
      (p q n : ℕ)
      → number p ≡ true
      → number q ≡ true
      → d.less p zero_point ≡ false
      → d.less q p ≡ false
      → d.less one_point q ≡ false
      → n ≤ 2 ^ 53
      → d.scaled p n ≤ d.scaled q n

module _ (d : Doubles) (laws : DoublesLaws d) where
  -- The argument that is used.
  record IsClamped (p : ℕ) : Type 0 where
    number : laws.number p ≡ true
    above : d.less p zero_point ≡ false
    below : d.less one_point p ≡ false

  clamp-IsClamped : (p : ℕ) → laws.number p ≡ true → IsClamped (clamp d p)
  unfolding clamp
  clamp-IsClamped p n =
      if-cases IsClamped (d.less p zero_point) _ _
        (λ _. record {
          number = laws.zero-number;
          above = laws.irrefl zero_point;
          below = laws.asym zero_point one_point laws.zero-one;
        })
        (λ above.
          if-cases IsClamped (d.less one_point p) _ _
            (λ _. record {
              number = laws.one-number;
              above = laws.asym zero_point one_point laws.zero-one;
              below = laws.irrefl one_point;
            })
            (λ below. record { number = n; above = above; below = below }))

  -- An argument above 1 stays above it when it grows.
  clamp_above :
      (p q : ℕ)
      → laws.number p ≡ true
      → laws.number q ≡ true
      → d.less one_point p ≡ true
      → d.less q p ≡ false
      → clamp d q ≡ one_point
  unfolding clamp
  clamp_above p q np nq above le = elim (Bool-cases (d.less q zero_point)) [
    | inl negative ↦
        let q_zero = laws.asym q zero_point negative in
        let p_zero = laws.le_trans p q zero_point np nq laws.zero-number le q_zero in
        let one_p = laws.asym one_point p above in
        absurd (
          cc (
            laws.le_trans one_point p zero_point laws.one-number np laws.zero-number one_p p_zero,
            laws.zero-one,
          ))
    | inr positive ↦ elim (Bool-cases (d.less one_point q)) [
      | inl more ↦ rw (positive, more) refl
      | inr less ↦ absurd (cc (laws.le_trans p q one_point np nq laws.one-number le less, above))
    ]
  ]

  pub clamp_mono :
      (p q : ℕ)
      → laws.number p ≡ true
      → laws.number q ≡ true
      → d.less q p ≡ false
      → d.less (clamp d q) (clamp d p) ≡ false
  unfolding clamp
  clamp_mono p q np nq le =
      if-cases (λ c. d.less (clamp d q) c ≡ false) (d.less p zero_point) _ _
        (λ _. (clamp-IsClamped q nq).above)
        (λ _.
          if-cases (λ c. d.less (clamp d q) c ≡ false) (d.less one_point p) _ _
            (λ above. rw (clamp_above p q np nq above le) (laws.irrefl one_point))
            (λ below.
              if-cases (λ c. d.less c p ≡ false) (d.less q zero_point) _ _
                (λ negative.
                  laws.le_trans p q zero_point np nq laws.zero-number le
                    (laws.asym q zero_point negative))
                (λ _.
                  if-cases (λ c. d.less c p ≡ false) (d.less one_point q) _ _ (λ _. below)
                    (λ _. le))))

  pub clamp_zero : clamp d zero_point ≡ zero_point
  unfolding clamp
  clamp_zero = rw (laws.irrefl zero_point, laws.asym zero_point one_point laws.zero-one) refl

  pub clamp_one : clamp d one_point ≡ one_point
  unfolding clamp
  clamp_one = rw (laws.asym zero_point one_point laws.zero-one, laws.irrefl one_point) refl

  -- The index is within the samples, and grows with the argument.
  pub scaled-clamp : (p n : ℕ) → laws.number p ≡ true → n ≤ 2 ^ 53 → d.scaled (clamp d p) n ≤ n
  scaled-clamp p n np small =
      let c = clamp-IsClamped p np in
      omega (
        arith,
        laws.scaled_one n small,
        laws.scaled_mono (clamp d p) one_point n c.number laws.one-number c.above c.below
            (laws.irrefl one_point) small,
      )

  pub scaled-clamp_mono :
      (p q n : ℕ)
      → laws.number p ≡ true
      → laws.number q ≡ true
      → d.less q p ≡ false
      → n ≤ 2 ^ 53
      → d.scaled (clamp d p) n ≤ d.scaled (clamp d q) n
  scaled-clamp_mono p q n np nq le small =
      let c = clamp-IsClamped p np in
      let e = clamp-IsClamped q nq in
      laws.scaled_mono (clamp d p) (clamp d q) n c.number e.number c.above (clamp_mono p q np nq le)
        e.below small
