-- ===== src/Bench/Samples/Rank.antt =====
-- Which samples are kept, and where a percentile stands among them.
use sy_log.Bench.Samples.{
  Timings, reserve, record_sample, record_samples, insert_sorted, sort, Doubles, at_or_zero,
  percentile, clamp, zero_point, one_point,
}
use sy_log.Bench.Samples.Clamp.{DoublesLaws, clamp_zero, clamp_one, scaled-clamp, scaled-clamp_mono}
use sy_log.Prelude.{
  ℕ, zero, suc, ◌+◌, ◌-◌, ◌<◌, ◌≤◌, ◌^◌, ◌≡◌, refl, sym, ap, subst, ◌∙◌, some, List, [], ◌∷◌, ◌++◌,
  append_assoc, append-nil, length, length-append, take, get_elem?, ltb, leb, if◌then◌else◌, arith,
  Bool-cases, inl, inr, All, leb→le, true, false,
}

-- How many of the numbers are at most, or at least, a number.
unfoldable pub at_most : ℕ → List ℕ → ℕ
at_most v [] = 0
at_most v (x ∷ xs) = (if leb x v then 1 else 0) + at_most v xs

unfoldable pub at_least : ℕ → List ℕ → ℕ
at_least v [] = 0
at_least v (x ∷ xs) = (if leb v x then 1 else 0) + at_least v xs

at_most-insert_sorted :
    (v a : ℕ) (xs : List ℕ) → at_most v (insert_sorted a xs) ≡ at_most v (a ∷ xs)
unfolding at_most insert_sorted
at_most-insert_sorted v a [] = refl
at_most-insert_sorted v a (b ∷ bs) = ground (arith, at_most-insert_sorted v a bs)

at_least-insert_sorted :
    (v a : ℕ) (xs : List ℕ) → at_least v (insert_sorted a xs) ≡ at_least v (a ∷ xs)
unfolding at_least insert_sorted
at_least-insert_sorted v a [] = refl
at_least-insert_sorted v a (b ∷ bs) = ground (arith, at_least-insert_sorted v a bs)

at_most-sort : (v : ℕ) (xs : List ℕ) → at_most v (sort xs) ≡ at_most v xs
unfolding sort at_most
at_most-sort v [] = refl
at_most-sort v (x ∷ xs) = at_most-insert_sorted v x (sort xs) ∙ omega (arith, at_most-sort v xs)

at_least-sort : (v : ℕ) (xs : List ℕ) → at_least v (sort xs) ≡ at_least v xs
unfolding sort at_least
at_least-sort v [] = refl
at_least-sort v (x ∷ xs) = at_least-insert_sorted v x (sort xs) ∙ omega (arith, at_least-sort v xs)

length-insert_sorted : (a : ℕ) (xs : List ℕ) → length (insert_sorted a xs) ≡ suc (length xs)
unfolding insert_sorted
length-insert_sorted a [] = refl
length-insert_sorted a (b ∷ bs) = ground (arith, length-insert_sorted a bs)

length-sort : (xs : List ℕ) → length (sort xs) ≡ length xs
unfolding sort
length-sort [] = refl
length-sort (x ∷ xs) = length-insert_sorted x (sort xs) ∙ ap suc (length-sort xs)

-- Each number is at most all that follow it.
IsSorted : List ℕ → Type 0
IsSorted [] = Unit
IsSorted (x ∷ xs) = All (λ y. x ≤ y) xs × IsSorted xs

All-insert_sorted :
    (b a : ℕ) (xs : List ℕ) → b ≤ a → All (λ y. b ≤ y) xs → All (λ y. b ≤ y) (insert_sorted a xs)
unfolding insert_sorted
All-insert_sorted b a [] h k = (h, tt)
All-insert_sorted b a (c ∷ cs) h k = elim (Bool-cases (leb a c)) [
  | inl le ↦ rw le (h, k)
  | inr gt ↦ rw gt (k.0, All-insert_sorted b a cs h k.1)
]

All-le : (a b : ℕ) (xs : List ℕ) → a ≤ b → All (λ y. b ≤ y) xs → All (λ y. a ≤ y) xs
All-le a b [] h k = tt
All-le a b (x ∷ xs) h k = (omega (arith, k.0), All-le a b xs h k.1)

insert_sorted-IsSorted : (a : ℕ) (xs : List ℕ) → IsSorted xs → IsSorted (insert_sorted a xs)
unfolding insert_sorted IsSorted
insert_sorted-IsSorted a [] s = (tt, tt)
insert_sorted-IsSorted a (b ∷ bs) s = elim (Bool-cases (leb a b)) [
  | inl le ↦ rw le ((leb→le a b le, All-le a b bs (leb→le a b le) s.0), s)
  | inr gt ↦ rw gt (All-insert_sorted b a bs (ground arith) s.0, insert_sorted-IsSorted a bs s.1)
]

sort-IsSorted : (xs : List ℕ) → IsSorted (sort xs)
unfolding sort IsSorted
sort-IsSorted [] = tt
sort-IsSorted (x ∷ xs) = insert_sorted-IsSorted x (sort xs) (sort-IsSorted xs)

at_least-All : (v : ℕ) (xs : List ℕ) → All (λ y. v ≤ y) xs → at_least v xs ≡ length xs
unfolding at_least
at_least-All v [] h = refl
at_least-All v (x ∷ xs) h = ground (arith, at_least-All v xs h.1)

All-get_elem? {κ} :
    (P : ℕ → Type κ) (xs : List ℕ) (i v : ℕ) → All P xs → get_elem? xs i ≡ some v → P v
All-get_elem? P [] i v a h = cc
All-get_elem? P (x ∷ xs) zero v a h = subst P (cc) a.0
All-get_elem? P (x ∷ xs) (suc i) v a h = All-get_elem? P xs i v a.1 h

-- The place of a number in a sorted list.
sorted_rank :
    (xs : List ℕ) (i v : ℕ)
    → IsSorted xs
    → get_elem? xs i ≡ some v
    → (i < at_most v xs) × (length xs ≤ i + at_least v xs)
unfolding IsSorted at_most at_least
sorted_rank [] i v s h = cc
sorted_rank (x ∷ xs) zero v s h = ground (arith, h, at_least-All x xs s.0)
sorted_rank (x ∷ xs) (suc i) v s h =
    ground (arith, sorted_rank xs i v s.1 h, All-get_elem? (λ y. x ≤ y) xs i v s.0 h)

some_elem : (xs : List ℕ) (i : ℕ) → i < length xs → (v : ℕ) × (get_elem? xs i ≡ some v)
some_elem [] i h = absurd (omega arith)
some_elem (x ∷ xs) zero h = (x, refl)
some_elem (x ∷ xs) (suc i) h = some_elem xs i (omega arith)

at_most_bound : (v : ℕ) (xs : List ℕ) → at_most v xs ≤ length xs
unfolding at_most
at_most_bound v [] = omega arith
at_most_bound v (x ∷ xs) = ground (arith, at_most_bound v xs)

at_least_bound : (v : ℕ) (xs : List ℕ) → at_least v xs ≤ length xs
unfolding at_least
at_least_bound v [] = omega arith
at_least_bound v (x ∷ xs) = ground (arith, at_least_bound v xs)

-- In a sorted list a later number is no less.
sorted_mono :
    (xs : List ℕ) (i j v w : ℕ)
    → IsSorted xs
    → i ≤ j
    → get_elem? xs i ≡ some v
    → get_elem? xs j ≡ some w
    → v ≤ w
unfolding IsSorted
sorted_mono [] i j v w s le h k = cc
sorted_mono (x ∷ xs) zero zero v w s le h k = ground (arith, h, k)
sorted_mono (x ∷ xs) zero (suc j) v w s le h k =
    ground (arith, h, All-get_elem? (λ y. x ≤ y) xs j w s.0 k)
sorted_mono (x ∷ xs) (suc i) zero v w s le h k = absurd (omega arith)
sorted_mono (x ∷ xs) (suc i) (suc j) v w s le h k = sorted_mono xs i j v w s.1 (omega arith) h k

module _ (doubles : Doubles) (laws : DoublesLaws doubles) where
  -- The index of a percentile among the sorted samples.
  abbrev pub index : List ℕ → ℕ → ℕ
  index values p = doubles.scaled (clamp doubles p) (length values - 1)

  percentile-get_elem? :
      (values : List ℕ) (p : ℕ)
      → laws.number p ≡ true
      → 0 < length values
      → length values ≤ 2 ^ 53
      → get_elem? (sort values) (index values p) ≡ some (percentile doubles values p)
  unfolding percentile at_or_zero
  percentile-get_elem? [] p np h small = absurd (omega arith)
  percentile-get_elem? (w ∷ ws) p np h small =
      let (v, found) = some_elem (sort (w ∷ ws)) (index (w ∷ ws) p) (
        omega (
          arith,
          length-sort (w ∷ ws),
          scaled-clamp doubles laws p (length (w ∷ ws) - 1) np (omega arith),
        )) in
      rw found refl

  rank :
      (values : List ℕ) (p : ℕ)
      → laws.number p ≡ true
      → 0 < length values
      → length values ≤ 2 ^ 53
      → let v = percentile doubles values p in
        (index values p < at_most v values) × (length values ≤ index values p + at_least v values)
  rank values p np h small =
      let v = percentile doubles values p in
      let r =
        sorted_rank (sort values) (index values p) v (sort-IsSorted values)
          (percentile-get_elem? values p np h small) in
      (
        omega (arith, r.0, at_most-sort v values),
        omega (arith, r.1, at_least-sort v values, length-sort values),
      )

  -- Let doubles be ordered and multiplied as IEEE arithmetic does, and take from 1 to 2 ^ 53
  -- samples, and numbers p and q, which may lie outside 0 to 1, with q not less than p. The
  -- percentile of p is the sample, in the order of their size, at the index that is the product
  -- of p, clamped to 0 and 1, and the last index: the index is within the samples, more samples
  -- than the index are at most as large as the percentile, and all but as many as the index are
  -- at least as large. The percentile of q is not less than that of p, that of 0 is the least
  -- sample and that of 1 the greatest.
  pub percentile_rank :
      (values : List ℕ) (p q : ℕ)
      → laws.number p ≡ true
      → laws.number q ≡ true
      → doubles.less q p ≡ false
      → 0 < length values
      → length values ≤ 2 ^ 53
      → let v = percentile doubles values p in
        let i = doubles.scaled (clamp doubles p) (length values - 1) in
        (i < length values)
        × (i < at_most v values)
        × (length values ≤ i + at_least v values)
        × (v ≤ percentile doubles values q)
        × (at_least (percentile doubles values zero_point) values ≡ length values)
        × (at_most (percentile doubles values one_point) values ≡ length values)
  percentile_rank values p q np nq le h small =
      let n = length values - 1 in
      let few : n ≤ 2 ^ 53 = omega arith in
      let lowest = rank values zero_point laws.zero-number h small in
      let highest = rank values one_point laws.one-number h small in
      (
        omega (arith, scaled-clamp doubles laws p n np few),
        (rank values p np h small).0,
        (rank values p np h small).1,
        sorted_mono (sort values) (index values p) (index values q) _ _ (sort-IsSorted values)
            (scaled-clamp_mono doubles laws p q n np nq le few)
            (percentile-get_elem? values p np h small) (percentile-get_elem? values q nq h small),
        omega (
          arith,
          lowest.1,
          ap (λ c. doubles.scaled c n) (clamp_zero doubles laws),
          laws.scaled_zero n,
          at_least_bound (percentile doubles values zero_point) values,
        ),
        omega (
          arith,
          highest.0,
          ap (λ c. doubles.scaled c n) (clamp_one doubles laws),
          laws.scaled_one n few,
          at_most_bound (percentile doubles values one_point) values,
        ),
      )

abbrev timings : ℕ → List ℕ → Timings
timings room kept = record { room = room; enqueue_ns = kept }

record_sample_full :
    (d room : ℕ) (kept : List ℕ)
    → room ≤ length kept
    → record_sample d (timings room kept) ≡ timings room kept
unfolding record_sample
record_sample_full d room kept h = ground arith

record_sample_roomy :
    (d room : ℕ) (kept : List ℕ)
    → length kept < room
    → record_sample d (timings room kept) ≡ timings room (kept ++ d ∷ [])
unfolding record_sample
record_sample_roomy d room kept h = ground arith

record_samples-take :
    (ds : List ℕ) (room : ℕ) (kept : List ℕ) (k : ℕ)
    → room ≡ length kept + k
    → (record_samples ds (timings room kept)).enqueue_ns ≡ kept ++ take k ds
unfolding record_samples
record_samples-take [] room kept zero h = sym (append-nil kept)
record_samples-take [] room kept (suc k) h = sym (append-nil kept)
record_samples-take (d ∷ ds) room kept zero h =
    ap (λ (t : Timings). (record_samples ds t).enqueue_ns)
      (record_sample_full d room kept (omega arith))
    ∙ record_samples-take ds room kept zero h
    ∙ refl
record_samples-take (d ∷ ds) room kept (suc k) h =
    ap (λ (t : Timings). (record_samples ds t).enqueue_ns)
      (record_sample_roomy d room kept (omega arith))
    ∙ record_samples-take ds room (kept ++ d ∷ []) k (omega (arith, length-append kept (d ∷ [])))
    ∙ append_assoc kept (d ∷ []) (take k ds)

-- After a reservation for `n` samples the first 200000 durations are kept, or the first `n` if
-- `n` is less, with as many more as the vector got beyond that, and no others.
pub record_samples-reserve :
    (excess n : ℕ) (ds : List ℕ)
    → (record_samples ds (reserve excess n)).enqueue_ns
      ≡ take ((if ltb 200000 n then 200000 else n) + excess) ds
unfolding reserve
record_samples-reserve excess n ds = record_samples-take ds _ [] _ (omega arith)
