-- ===== src/Bench/Run/Producers.antt =====
-- benchmarks/sylog_bench.cpp: the producers of a scenario, which draw their events from one counter.
use sy_log.Prelude.{
  ℕ, zero, suc, ◌+◌, ◌%◌, ◌^◌, ◌<◌, ◌≤◌, ◌≡◌, refl, sym, ap, ◌∙◌, Bool, true, false, List, [], ◌∷◌,
  ◌++◌, append-nil, length, length-append, replicate, ltb, if◌then◌else◌, arith, ltb→lt, Bool-cases,
  inl, inr,
}

-- `produced.fetch_add(1)` and the test of what it gave: the counter, and whether there is an event.
unfoldable pub draw : ℕ → ℕ → ℕ × Bool
draw events produced = ((produced + 1) % 2 ^ 64, ltb produced events)

-- Producers that are in their loop or have left it, in any order, and the events that were drawn.
pub data Runs (events producers : ℕ) : ℕ → List Bool → List ℕ → Type 0 where
  begun : Runs events producers 0 (replicate producers true) []
  drawn :
      {produced : ℕ} {indices : List ℕ} (xs ys : List Bool)
      → Runs events producers produced (xs ++ true ∷ ys) indices
      → Runs events producers
          (draw events produced).0
          (xs ++ (draw events produced).1 ∷ ys)
          (indices ++ (if (draw events produced).1 then produced ∷ [] else []))

unfoldable pub upto : ℕ → List ℕ
upto zero = []
upto (suc n) = upto n ++ n ∷ []

-- How many producers have left their loop.
unfoldable pub ended : List Bool → ℕ
ended [] = 0
ended (runs ∷ ts) = (if runs then 0 else 1) + ended ts

ended-middle :
    (xs ys : List Bool) (t : Bool) → ended (xs ++ t ∷ ys) ≡ (if t then 0 else 1) + ended (xs ++ ys)
unfolding ended
ended-middle [] ys t = refl
ended-middle (x ∷ xs) ys t = omega (arith, ended-middle xs ys t)

ended-length : (ts : List Bool) → ended ts ≤ length ts
unfolding ended
ended-length [] = omega arith
ended-length (true ∷ ts) = omega (arith, ended-length ts)
ended-length (false ∷ ts) = omega (arith, ended-length ts)

ended-replicate : (n : ℕ) → (ended (replicate n true) ≡ 0) × (length (replicate n true) ≡ n)
unfolding ended
ended-replicate zero = (refl, refl)
ended-replicate (suc n) = let ih = ended-replicate n in (omega (arith, ih.0), omega (arith, ih.1))

-- What holds along the way.
record IsDrawn (events producers produced : ℕ) (ts : List Bool) (indices : List ℕ) : Type 0 where
  all_drawn : indices ≡ upto (length indices)
  within : length indices ≤ events
  counted : produced ≡ length indices + ended ts
  over : 1 ≤ ended ts → length indices ≡ events
  same_threads : length ts ≡ producers

draw-IsDrawn :
    (events producers produced : ℕ) (xs ys : List Bool) (indices : List ℕ)
    → events + producers < 2 ^ 64
    → IsDrawn events producers produced (xs ++ true ∷ ys) indices
    → IsDrawn events producers
        (draw events produced).0
        (xs ++ (draw events produced).1 ∷ ys)
        (indices ++ (if (draw events produced).1 then produced ∷ [] else []))
unfolding draw upto
draw-IsDrawn events producers produced xs ys indices small h =
    let before = ended-middle xs ys true in
    let few = ended-length (xs ++ true ∷ ys) in
    let size = length-append xs (true ∷ ys) in
    elim (Bool-cases (ltb produced events)) [
      | inl more ↦
          let none_over : ended (xs ++ true ∷ ys) ≡ 0 = ground (arith, h.over, h.counted, more) in
          let next : produced ≡ length indices = omega (arith, h.counted, none_over) in
          let one_more : length (indices ++ produced ∷ []) ≡ suc (length indices) =
            omega (arith, length-append indices (produced ∷ [])) in
          rw more (record {
            all_drawn =
                ap (λ is. is ++ produced ∷ []) h.all_drawn
                ∙ ap (λ k. upto (length indices) ++ k ∷ []) next
                ∙ ap upto (sym one_more);
            within = omega (arith, one_more, next, ltb→lt produced events more);
            counted =
                omega (arith, one_more, next, none_over, small, few, h.same_threads, h.within);
            over = λ some_over. absurd (omega (arith, some_over, none_over));
            same_threads = h.same_threads;
          })
      | inr over ↦
          let le : events ≤ produced = ground (arith, over) in
          let all_of_them : length indices ≡ events =
            ground (arith, h.over, h.counted, le, h.within) in
          let same : indices ++ [] ≡ indices = append-nil indices in
          rw over (
            rw same (record {
              all_drawn = h.all_drawn;
              within = h.within;
              counted = omega (
                arith,
                h.counted,
                before,
                ended-middle xs ys false,
                small,
                h.same_threads,
                h.within,
                ended-length (xs ++ false ∷ ys),
                size,
                length-append xs (false ∷ ys),
              );
              over = λ _. all_of_them;
              same_threads = omega (arith, h.same_threads, size, length-append xs (false ∷ ys));
            }))
    ]

Runs-IsDrawn :
    (events producers produced : ℕ) (ts : List Bool) (indices : List ℕ)
    → events + producers < 2 ^ 64
    → Runs events producers produced ts indices
    → IsDrawn events producers produced ts indices
unfolding upto
Runs-IsDrawn events producers _ _ _ small begun =
    let idle = ended-replicate producers in
    record {
      all_drawn = refl;
      within = omega arith;
      counted = omega (arith, idle.0);
      over = λ some_over. absurd (omega (arith, some_over, idle.0));
      same_threads = idle.1;
    }
Runs-IsDrawn events producers _ _ _ small
      (drawn {produced = produced} {indices = indices} xs ys r) =
    draw-IsDrawn events producers produced xs ys indices small
      (Runs-IsDrawn events producers produced (xs ++ true ∷ ys) indices small r)

-- If the number of events and of producers together is below 2 ^ 64, then the events that
-- producers draw, in any interleaving, are in order the numbers from 0 up, each once and none
-- from the number of events on; and once a producer has left its loop, all of them were drawn.
pub Runs-draw_all :
    (events producers produced : ℕ) (ts : List Bool) (indices : List ℕ)
    → events + producers < 2 ^ 64
    → Runs events producers produced ts indices
    → (indices ≡ upto (length indices))
      × (length indices ≤ events)
      × (1 ≤ ended ts → indices ≡ upto events)
Runs-draw_all events producers produced ts indices small r =
    let h = Runs-IsDrawn events producers produced ts indices small r in
    (h.all_drawn, h.within, λ over. h.all_drawn ∙ ap upto (h.over over))
