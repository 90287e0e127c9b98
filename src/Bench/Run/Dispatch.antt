-- ===== src/Bench/Run/Dispatch.antt =====
-- Which scenarios the benchmark runs, and how it exits.
use sy_log.Bench.Options.{Matched, parse_args}
use sy_log.Bench.Run.{Scenario, scenario_for, expand_scenarios, main_loop, main}
use sy_log.Prelude.{
  ℕ, ◌≡◌, refl, sym, ap, subst, false, none, some, List, [], ◌∷◌, Bytes, codes, bytes_eq, length,
  arith, Bool-cases, Option-cases, ◌⊎◌, inl, inr, bytes_eq→≡,
}

-- The names of single scenarios.
abbrev pub IsSingle : Bytes → Type 0
IsSingle s =
    (s ≡ codes "null")
    ⊎ ((s ≡ codes "null-format")
        ⊎ ((s ≡ codes "file") ⊎ ((s ≡ codes "slow") ⊎ (s ≡ codes "burst"))))

single : (s : Bytes) (x : Scenario) → scenario_for s ≡ some x → IsSingle s
unfolding scenario_for
single s x h = elim (Bool-cases (bytes_eq s (codes "null"))) [
  | inl a ↦ inl (bytes_eq→≡ s (codes "null") a)
  | inr a ↦ elim (Bool-cases (bytes_eq s (codes "null-format"))) [
    | inl b ↦ inr (inl (bytes_eq→≡ s (codes "null-format") b))
    | inr b ↦ elim (Bool-cases (bytes_eq s (codes "file"))) [
      | inl c ↦ inr (inr (inl (bytes_eq→≡ s (codes "file") c)))
      | inr c ↦ elim (Bool-cases (bytes_eq s (codes "slow"))) [
        | inl d ↦ inr (inr (inr (inl (bytes_eq→≡ s (codes "slow") d))))
        | inr d ↦ elim (Bool-cases (bytes_eq s (codes "burst"))) [
          | inl f ↦ inr (inr (inr (inr (bytes_eq→≡ s (codes "burst") f))))
          | inr f ↦ absurd (ground (arith, h, a, b, c, d, f))
        ]
      ]
    ]
  ]
]

known : (s : Bytes) → IsSingle s → (x : Scenario) × (scenario_for s ≡ some x)
unfolding scenario_for
known s (inl a) = (_, ap scenario_for a)
known s (inr (inl a)) = (_, ap scenario_for a)
known s (inr (inr (inl a))) = (_, ap scenario_for a)
known s (inr (inr (inr (inl a)))) = (_, ap scenario_for a)
known s (inr (inr (inr (inr a)))) = (_, ap scenario_for a)

one_scenario :
    (s : Bytes) (x : Scenario) → scenario_for s ≡ some x → main_loop (s ∷ []) ≡ (0, x ∷ [])
unfolding main_loop
one_scenario s x h = rw (h, main_loop) refl

no_scenario : (s : Bytes) → scenario_for s ≡ none → main_loop (s ∷ []) ≡ (2, [])
unfolding main_loop
no_scenario s h = rw (h, main_loop) refl

-- How `main` ends for a request, and which scenarios it has run.
abbrev pub Exits : Bytes → ℕ × List Scenario → Type 0
Exits s r =
    ((s ≡ codes "all") × (r.0 ≡ 0) × (length r.1 ≡ 5))
    ⊎ ((IsSingle s × ((x : Scenario) × (scenario_for s ≡ some x) × (r ≡ (0, x ∷ []))))
        ⊎ ((¬ ((s ≡ codes "all") ⊎ IsSingle s)) × (r ≡ (2, []))))

expand-all : (s : Bytes) → bytes_eq s (codes "all") ≡ false → expand_scenarios s ≡ s ∷ []
unfolding expand_scenarios
expand-all s h = rw h refl

expand_scenarios-Exits : (s : Bytes) → Exits s (main_loop (expand_scenarios s))
unfolding main_loop expand_scenarios scenario_for
expand_scenarios-Exits s = elim (Bool-cases (bytes_eq s (codes "all"))) [
  | inl all_ ↦
      let same = bytes_eq→≡ s (codes "all") all_ in
      subst (λ (t : Bytes). Exits t (main_loop (expand_scenarios t))) (sym same)
        (inl (refl, refl, refl))
  | inr not_all ↦
      subst (λ ss. Exits s (main_loop ss)) (sym (expand-all s not_all))
        (elim (Option-cases (scenario_for s)) [
          | inl unknown ↦ inr (
              inr (
                λ k. elim k [
                  | inl all_ ↦ absurd (cc (ap (λ t. bytes_eq t (codes "all")) all_, not_all))
                  | inr one ↦ absurd (cc ((known s one).1, unknown))
                ],
                no_scenario s unknown,
              ))
          | inr (x, found) ↦ inr (inl (single s x found, (x, found, one_scenario s x found)))
        ])
]

-- Where the command line asks for no exit: for the scenario `all` the benchmark exits with 0
-- after five scenarios; for one of the names null, null-format, file, slow and burst it exits
-- with 0 after the scenario of that name; and for any other it exits with 2 and has run none.
pub main_lem :
    (m : Matched)
    → (parse_args m).should_exit ≡ false
    → Exits (parse_args m).options.scenario (main m)
unfolding main
main_lem m goes_on = rw goes_on (expand_scenarios-Exits (parse_args m).options.scenario)
