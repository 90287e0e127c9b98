-- ===== src/Pipeline/Cache/Threads/Locking.antt =====
-- One step of a look-up among others while the routes stay: src/logger.cpp, `cached_route_mask_`.
use sy_log.Pipeline.Cache.{CacheEntry, find_entry, emplace, compute_cache_entry}
use sy_log.Pipeline.Cache.Fresh.{AllCurrent, find_entry-current, emplace-current}
use sy_log.Pipeline.Cache.Threads.{
  Store, Lookup, idle, loading, locking, exchanging, clearing, minimising, finding, computing,
  emplacing, returned, proceed,
}
use sy_log.Prelude.{
  ℕ, ◌+◌, ◌≤◌, ◌≡◌, refl, sym, ap, subst, Bool, true, false, List, [], ◌∷◌, ◌++◌, map, Bytes, ◌⊎◌,
  inl, inr, arith, Bool-cases, Option-cases, if-cases,
}
use sy_log.Route.{Route}

-- The thread holds `cache_m`, and has yet to clear the cache.
unfoldable pub holds_lock : Lookup → ℕ
holds_lock idle = 0
holds_lock (loading ep) = 0
holds_lock (locking ep) = 0
holds_lock (exchanging ep) = 1
holds_lock (clearing ep) = 1
holds_lock (minimising ep) = 1
holds_lock (finding ep) = 0
holds_lock (computing ep) = 0
holds_lock (emplacing ep v) = 0
holds_lock (returned ep v) = 0

unfoldable pub will_clear : Lookup → ℕ
will_clear idle = 0
will_clear (loading ep) = 0
will_clear (locking ep) = 0
will_clear (exchanging ep) = 0
will_clear (clearing ep) = 1
will_clear (minimising ep) = 0
will_clear (finding ep) = 0
will_clear (computing ep) = 0
will_clear (emplacing ep v) = 0
will_clear (returned ep v) = 0

unfoldable pub total : (Lookup → ℕ) → List Lookup → ℕ
total f [] = 0
total f (t ∷ ts) = f t + total f ts

pub total-middle :
    (f : Lookup → ℕ) (xs ys : List Lookup) (t : Lookup)
    → total f (xs ++ t ∷ ys) ≡ f t + total f (xs ++ ys)
unfolding total
total-middle f [] ys t = refl
total-middle f (x ∷ xs) ys t = omega (arith, total-middle f xs ys t)

pub total-loading :
    (f : Lookup → ℕ) (eps : List Bytes)
    → ((ep : Bytes) → f (loading ep) ≡ 0)
    → total f (map loading eps) ≡ 0
unfolding total
total-loading f [] h = refl
total-loading f (ep ∷ eps) h = omega (arith, h ep, total-loading f eps h)

clears_with_lock : (t : Lookup) → will_clear t ≤ holds_lock t
unfolding will_clear holds_lock
clears_with_lock t = ground arith

pub all_clear_with_lock : (ts : List Lookup) → total will_clear ts ≤ total holds_lock ts
unfolding total
all_clear_with_lock [] = omega arith
all_clear_with_lock (t ∷ ts) = omega (arith, clears_with_lock t, all_clear_with_lock ts)

unfoldable pub one_if : Bool → ℕ
one_if false = 0
one_if true = 1

module _ {Q : Type 0} (routes : List (Route Q)) where
  -- An entry that a look-up returns or is about to put in is the one of its endpoint.
  abbrev pub HasResult : Lookup → Type 0
  HasResult idle = Unit
  HasResult (loading ep) = Unit
  HasResult (locking ep) = Unit
  HasResult (exchanging ep) = Unit
  HasResult (clearing ep) = Unit
  HasResult (minimising ep) = Unit
  HasResult (finding ep) = Unit
  HasResult (computing ep) = Unit
  HasResult (emplacing ep v) = v ≡ compute_cache_entry routes ep
  HasResult (returned ep v) = v ≡ compute_cache_entry routes ep

  -- Past the clearing, the cache is not marked.
  abbrev pub Fine : Bool → Lookup → Type 0
  Fine dirty idle = Unit
  Fine dirty (loading ep) = Unit
  Fine dirty (locking ep) = Unit
  Fine dirty (exchanging ep) = Unit
  Fine dirty (clearing ep) = dirty ≡ false
  Fine dirty (minimising ep) = dirty ≡ false
  Fine dirty (finding ep) = dirty ≡ false
  Fine dirty (computing ep) = dirty ≡ false
  Fine dirty (emplacing ep v) = (dirty ≡ false) × (v ≡ compute_cache_entry routes ep)
  Fine dirty (returned ep v) = v ≡ compute_cache_entry routes ep

  -- The store with the number of threads that hold the lock and that will clear the cache.
  pub record Holds (m : Store Q) (lockers clearers : ℕ) : Type 0 where
    pub same : m.routes ≡ routes
    pub counted : lockers ≡ one_if m.locked
    pub fresh : (m.cached.dirty ≡ true) ⊎ (AllCurrent routes m.cached.entries ⊎ (1 ≤ clearers))

  -- A step of a thread among others that hold and will clear.
  abbrev pub Steps : Store Q → ℕ → ℕ → Store Q × Lookup → Type 0
  Steps m k j r =
      Holds r.0 (holds_lock r.1 + k) (will_clear r.1 + j)
      × Fine r.0.cached.dirty r.1
      × ((r.0.cached.dirty ≡ m.cached.dirty) ⊎ (r.0.cached.dirty ≡ false))

  unlocked-current :
      (m : Store Q) (k j : ℕ)
      → j ≤ k
      → m.cached.dirty ≡ false
      → m.locked ≡ false
      → Holds m (0 + k) (0 + j)
      → AllCurrent routes m.cached.entries
  unfolding one_if
  unlocked-current m k j le clean free h = elim h.fresh [
    | inl dirty ↦ absurd (cc (clean, dirty))
    | inr (inl current) ↦ current
    | inr (inr some_clearer) ↦ absurd (omega (arith, le, some_clearer, h.counted, ap one_if free))
  ]

  locking-Steps :
      (m : Store Q) (ep : Bytes) (k j : ℕ)
      → Holds m (0 + k) (0 + j)
      → Steps m k j (proceed m (locking ep))
  unfolding proceed holds_lock will_clear one_if
  locking-Steps m ep k j h =
      if-cases (Steps m k j) m.locked _ _ (λ _. (h, tt, inl refl))
        (λ free. (
          record {
            same = h.same;
            counted = omega (arith, h.counted, ap one_if free);
            fresh = h.fresh;
          },
          tt,
          inl refl,
        ))

  exchanging-Steps :
      (m : Store Q) (ep : Bytes) (k j : ℕ)
      → Holds m (1 + k) (0 + j)
      → Steps m k j (proceed m (exchanging ep))
  unfolding proceed holds_lock will_clear one_if
  exchanging-Steps m ep k j h =
      if-cases (Steps m k j) m.cached.dirty _ _
        (λ _. (
          record { same = h.same; counted = h.counted; fresh = inr (inr (omega arith)) },
          refl,
          inr refl,
        ))
        (λ clean. (
          record {
            same = h.same;
            counted = elim (Bool-cases m.locked) [
              | inl on ↦ omega (arith, h.counted, ap one_if on)
              | inr off ↦ absurd (omega (arith, h.counted, ap one_if off))
            ];
            fresh = h.fresh;
          },
          clean,
          inl refl,
        ))

  finding-Steps :
      (m : Store Q) (ep : Bytes) (k j : ℕ)
      → j ≤ k
      → m.cached.dirty ≡ false
      → Holds m (0 + k) (0 + j)
      → Steps m k j (proceed m (finding ep))
  unfolding proceed holds_lock will_clear
  finding-Steps m ep k j le clean h =
      if-cases (Steps m k j) m.locked _ _ (λ _. (h, clean, inl refl))
        (λ free. elim (Option-cases (find_entry ep m.cached.entries)) [
          | inl missing ↦ rw missing (h, clean, inl refl)
          | inr (v, found) ↦ rw found (
            h,
            find_entry-current routes ep v m.cached.entries (unlocked-current m k j le clean free h)
                found,
            inl refl,
          )
        ])

  emplacing-Steps :
      (m : Store Q) (ep : Bytes) (v : CacheEntry) (k j : ℕ)
      → j ≤ k
      → m.cached.dirty ≡ false
      → v ≡ compute_cache_entry routes ep
      → Holds m (0 + k) (0 + j)
      → Steps m k j (proceed m (emplacing ep v))
  unfolding proceed holds_lock will_clear
  emplacing-Steps m ep v k j le clean right h =
      if-cases (Steps m k j) m.locked _ _ (λ _. (h, (clean, right), inl refl))
        (λ free. (
          record {
            same = h.same;
            counted = h.counted;
            fresh = inr (
                inl (
                  subst (λ v. AllCurrent routes (emplace ep v m.cached.entries)) (sym right)
                    (emplace-current routes ep m.cached.entries
                      (unlocked-current m k j le clean free h))));
          },
          right,
          inl refl,
        ))

  pub proceed-Steps :
      (m : Store Q) (t : Lookup) (k j : ℕ)
      → j ≤ k
      → Fine m.cached.dirty t
      → Holds m (holds_lock t + k) (will_clear t + j)
      → Steps m k j (proceed m t)
  unfolding proceed holds_lock will_clear one_if
  proceed-Steps m idle k j le f h = (h, tt, inl refl)
  proceed-Steps m (loading ep) k j le f h =
      if-cases (λ t. Steps m k j (m, t)) m.cached.dirty (locking ep) (finding ep)
        (λ _. (h, tt, inl refl)) (λ clean. (h, clean, inl refl))
  proceed-Steps m (locking ep) k j le f h = locking-Steps m ep k j h
  proceed-Steps m (exchanging ep) k j le f h = exchanging-Steps m ep k j h
  proceed-Steps m (clearing ep) k j le f h =
      (record { same = h.same; counted = h.counted; fresh = inr (inl tt) }, f, inl refl)
  proceed-Steps m (minimising ep) k j le f h = (
    record {
      same = h.same;
      counted = elim (Bool-cases m.locked) [
        | inl on ↦ omega (arith, h.counted, ap one_if on)
        | inr off ↦ absurd (omega (arith, h.counted, ap one_if off))
      ];
      fresh = h.fresh;
    },
    f,
    inl refl,
  )
  proceed-Steps m (finding ep) k j le f h = finding-Steps m ep k j le f h
  proceed-Steps m (computing ep) k j le f h =
      (h, (f, ap (λ r. compute_cache_entry r ep) h.same), inl refl)
  proceed-Steps m (emplacing ep v) k j le f h = emplacing-Steps m ep v k j le f.0 f.1 h
  proceed-Steps m (returned ep v) k j le f h = (h, tt, inl refl)
