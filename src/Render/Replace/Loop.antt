-- ===== src/Render/Replace/Loop.antt =====
-- What the replacing loop comes to.
use sy_log.Prelude.{
  ℕ, zero, suc, ◌+◌, ◌-◌, ◌<◌, ◌≡◌, refl, sym, ap, ◌∙◌, subst, ap₂, true, false, none, some, [],
  ◌∷◌, ◌++◌, append_assoc, Bytes, length, drop, length-append, drop-length-append,
  take-length-append, le→leb, if◌then◌else◌, arith, Bool-cases, ◌⊎◌, inl, inr,
}
use sy_log.Render.Replace.{starts_with, find_from, find, replace, replace_loop, replace_all}

-- The text with the value in place of each occurrence of the key, in one pass from the left: the
-- number says how many bytes of an occurrence are still to be passed over.
unfoldable pub substitute : Bytes → Bytes → ℕ → Bytes → Bytes
substitute key value skip [] = []
substitute key value (suc k) (c ∷ s) = substitute key value k s
substitute key value zero (c ∷ s) =
    if starts_with key (c ∷ s)
    then value ++ substitute key value (length key - 1) s
    else c ∷ substitute key value 0 s

starts_with-split : (key s : Bytes) → starts_with key s ≡ true → (rest : Bytes) × (s ≡ key ++ rest)
unfolding starts_with
starts_with-split [] s h = (s, refl)
starts_with-split (k ∷ key) [] h = cc
starts_with-split (k ∷ key) (c ∷ s) h =
    let (rest, split) = starts_with-split key s (ground arith) in (rest, ground arith)

pub starts_with-append : (key rest : Bytes) → starts_with key (key ++ rest) ≡ true
unfolding starts_with
starts_with-append [] rest = refl
starts_with-append (k ∷ key) rest = ground (arith, starts_with-append key rest)

pub substitute-skip :
    (key value p rest : Bytes)
    → substitute key value (length p) (p ++ rest) ≡ substitute key value 0 rest
unfolding substitute
substitute-skip key value [] rest = refl
substitute-skip key value (c ∷ p) rest = substitute-skip key value p rest

starts_with-nil : (k : ℕ) (key : Bytes) → starts_with (k ∷ key) [] ≡ false
unfolding starts_with
starts_with-nil k key = refl

pub replace-middle :
    (front key value after : Bytes)
    → replace (length front) (length key) value (front ++ (key ++ after))
      ≡ front ++ (value ++ after)
unfolding replace
replace-middle front key value after =
    let ends : drop (length front + length key) (front ++ (key ++ after)) ≡ after =
      ap (λ (n : ℕ). drop n (front ++ (key ++ after))) (sym (length-append front key))
      ∙ ap (drop (length (front ++ key))) (sym (append_assoc front key after))
      ∙ drop-length-append (front ++ key) after in
    rw (take-length-append front (key ++ after), ends) refl

find-rest :
    (key front rest : Bytes)
    → find key (length front) (front ++ rest) ≡ find_from key (length front) rest
unfolding find
find-rest key front rest =
    rw
      (
        le→leb (length front) (length (front ++ rest)) (omega (arith, length-append front rest)),
        drop-length-append front rest,
      )
      refl

replace_loop-end :
    (fuel : ℕ) (key value : Bytes) (pos : ℕ) (out : Bytes)
    → find key pos out ≡ none
    → replace_loop (suc fuel) key value pos out ≡ (pos, out)
unfolding replace_loop
replace_loop-end fuel key value pos out h = rw (h, replace_loop)

replace_loop-step :
    (fuel : ℕ) (key value : Bytes) (pos : ℕ) (out : Bytes) (p : ℕ)
    → find key pos out ≡ some p
    → replace_loop (suc fuel) key value pos out
      ≡ replace_loop fuel key value (p + length value) (replace p (length key) value out)
unfolding replace_loop
replace_loop-step fuel key value pos out p h = rw (h, replace_loop)

-- The key is `k ∷ key`, which is not empty.
module _ (k : ℕ) (key value : Bytes) where
  abbrev pub whole : Bytes
  whole = k ∷ key

  pub substitute-hit :
      (rest : Bytes)
      → substitute whole value 0 (whole ++ rest) ≡ value ++ substitute whole value 0 rest
  unfolding substitute
  substitute-hit rest =
      let n : suc (length key) - 1 ≡ length key = omega arith in
      rw (starts_with-append whole rest, n) (ap (◌++◌ value) (substitute-skip whole value key rest))

  -- Either the key is nowhere in the text, or the text splits at its first occurrence.
  abbrev pub Split : ℕ → Bytes → Type 0
  Split i s =
      ((find_from whole i s ≡ none) × (substitute whole value 0 s ≡ s))
      ⊎ ((before : Bytes) × (after : Bytes) × (find_from whole i s ≡ some (i + length before))
          × (s ≡ before ++ (whole ++ after))
          × (substitute whole value 0 s ≡ before ++ (value ++ substitute whole value 0 after)))

  pub split : (i : ℕ) (s : Bytes) → Split i s
  unfolding find_from substitute
  split i [] = inl (rw (starts_with-nil k key), refl)
  split i (c ∷ s) = elim (Bool-cases (starts_with whole (c ∷ s))) [
    | inl hit ↦
        let (rest, e) = starts_with-split whole (c ∷ s) hit in
        inr (
          [],
          rest,
          rw hit (ap some (omega arith)),
          e,
          ap (substitute whole value 0) e ∙ substitute-hit rest,
        )
    | inr miss ↦ elim (split (suc i) s) [
      | inl (nowhere, same) ↦ inl (rw miss nowhere, rw miss (ap (◌∷◌ c) same))
      | inr (before, after, found, e, swapped) ↦ inr (
        c ∷ before,
        after,
        rw miss (found ∙ ap some (omega arith)),
        ap (◌∷◌ c) e,
        rw miss (ap (◌∷◌ c) swapped),
      )
    ]
  ]

  -- The loop ended since the key is not found any more, with each occurrence replaced.
  abbrev Replaced : Bytes → Bytes → ℕ × Bytes → Type 0
  Replaced front rest r =
      (r.1 ≡ front ++ substitute whole value 0 rest) × (find whole r.0 r.1 ≡ none)

  replace_loop-Replaced :
      (fuel : ℕ) (front rest : Bytes)
      → length rest < fuel
      → Replaced front rest (replace_loop fuel whole value (length front) (front ++ rest))
  unfolding replace_loop
  replace_loop-Replaced zero front rest h = absurd (omega arith)
  replace_loop-Replaced (suc fuel) front rest h = elim (split (length front) rest) [
    | inl (nowhere, same) ↦
        let ends = find-rest whole front rest ∙ nowhere in
        subst (Replaced front rest)
          (sym (replace_loop-end fuel whole value (length front) (front ++ rest) ends))
          (ap (◌++◌ front) (sym same), ends)
    | inr (before, after, found, e, swapped) ↦
        let found' = find-rest whole front rest ∙ found in
        let front' = (front ++ before) ++ value in
        let at : length front + length before ≡ length (front ++ before) =
          omega (arith, length-append front before) in
        let next : replace (length front + length before) (length whole) value (front ++ rest)
            ≡ front' ++ after =
          ap (λ (n : ℕ). replace n (length whole) value (front ++ rest)) at
          ∙ ap (replace (length (front ++ before)) (length whole) value)
              (ap (◌++◌ front) e ∙ sym (append_assoc front before (whole ++ after)))
          ∙ replace-middle (front ++ before) whole value after
          ∙ sym (append_assoc (front ++ before) value after) in
        let pos : length front + length before + length value ≡ length front' =
          omega (arith, length-append (front ++ before) value, length-append front before) in
        let steps =
          replace_loop-step fuel whole value (length front) (front ++ rest)
            (length front + length before) found'
          ∙ ap₂ (replace_loop fuel whole value) pos next in
        let shorter : length after < fuel =
          omega (
            arith,
            ap length e,
            length-append before (whole ++ after),
            length-append whole after,
          ) in
        let ih = replace_loop-Replaced fuel front' after shorter in
        let whole_text : front' ++ substitute whole value 0 after
            ≡ front ++ substitute whole value 0 rest =
          append_assoc (front ++ before) value (substitute whole value 0 after)
          ∙ append_assoc front before (value ++ substitute whole value 0 after)
          ∙ ap (◌++◌ front) (sym swapped) in
        subst (Replaced front rest) (sym steps) (ih.0 ∙ whole_text, ih.1)
  ]

  -- For a key that is not empty, one round more than the text is long is enough for the loop of
  -- `replace_all`: it ends with the key nowhere from the last position on, also where the value
  -- has the key in it; and the result is the text with each occurrence replaced, from the left
  -- and without overlaps.
  pub replace_all-substitute :
      (out : Bytes)
      → (replace_all whole value out ≡ substitute whole value 0 out)
        × (let r = replace_loop (suc (length out)) whole value 0 out in find whole r.0 r.1 ≡ none)
  unfolding replace_all
  replace_all-substitute out = replace_loop-Replaced (suc (length out)) [] out (omega arith)
