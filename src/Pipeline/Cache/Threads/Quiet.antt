-- ===== src/Pipeline/Cache/Threads/Quiet.antt =====
-- A change of the routes that no look-up overlaps: src/logger.cpp, `add_route`, `clear_routes` and
-- `cached_route_mask_`.
use sy_log.Pipeline.Cache.{find_entry}
use sy_log.Pipeline.Cache.Fresh.{IsCurrent}
use sy_log.Pipeline.Cache.Threads.{
  Store, Lookup, idle, loading, locking, exchanging, clearing, minimising, finding, computing,
  emplacing, returned, Change, change, latest, proceed, reroute, Reach, begun, called, moved,
  rerouted,
}
use sy_log.Pipeline.Cache.Threads.Locking.{
  holds_lock, total, total-middle, total-loading, one_if, HasResult,
}
use sy_log.Pipeline.Cache.Threads.Steady.{Reach-IsCurrent}
use sy_log.Prelude.{
  ℕ, ◌+◌, ◌≡◌, refl, sym, ap, subst, ◌∙◌, Bool, true, false, List, [], ◌∷◌, ◌++◌, All, Bytes, ◌⊎◌,
  inl, inr, arith, Option-cases, if-cases,
}

-- A thread that holds the lock gives it back.
unlocks : (b : Bool) (k : ℕ) → 1 + k ≡ one_if b → 0 + k ≡ 0
unfolding one_if
unlocks true k h = omega (arith, h)
unlocks false k h = absurd (omega (arith, h))

idle_sum : (ts : List Lookup) → All (λ t. t ≡ idle) ts → total holds_lock ts ≡ 0
unfolding total holds_lock
idle_sum [] h = refl
idle_sum (t ∷ ts) h = omega (arith, ap holds_lock h.0, idle_sum ts h.1)

is_free : (b : Bool) → one_if b ≡ 0 → b ≡ false
unfolding one_if
is_free false h = refl
is_free true h = absurd (omega (arith, h))

module _ {Q : Type 0} where
  -- A step keeps the routes and accounts for the lock.
  abbrev Locks : Store Q → ℕ → Store Q × Lookup → Type 0
  Locks m k r = (r.0.routes ≡ m.routes) × (holds_lock r.1 + k ≡ one_if r.0.locked)

  proceed-Locks :
      (m : Store Q) (t : Lookup) (k : ℕ)
      → holds_lock t + k ≡ one_if m.locked
      → Locks m k (proceed m t)
  unfolding proceed holds_lock one_if
  proceed-Locks m idle k h = (refl, h)
  proceed-Locks m (loading ep) k h =
      if-cases (λ t. Locks m k (m, t)) m.cached.dirty (locking ep) (finding ep) (λ _. (refl, h))
        (λ _. (refl, h))
  proceed-Locks m (locking ep) k h =
      if-cases (Locks m k) m.locked _ _ (λ _. (refl, h))
        (λ free. (refl, omega (arith, h, ap one_if free)))
  proceed-Locks m (exchanging ep) k h =
      if-cases (Locks m k) m.cached.dirty _ _ (λ _. (refl, h)) (λ _. (refl, unlocks m.locked k h))
  proceed-Locks m (clearing ep) k h = (refl, h)
  proceed-Locks m (minimising ep) k h = (refl, unlocks m.locked k h)
  proceed-Locks m (finding ep) k h =
      if-cases (Locks m k) m.locked _ _ (λ _. (refl, h))
        (λ _. elim (Option-cases (find_entry ep m.cached.entries)) [
          | inl missing ↦ rw missing (refl, h)
          | inr (v, found) ↦ rw found (refl, h)
        ])
  proceed-Locks m (computing ep) k h = (refl, h)
  proceed-Locks m (emplacing ep v) k h =
      if-cases (Locks m k) m.locked _ _ (λ _. (refl, h)) (λ _. (refl, h))
  proceed-Locks m (returned ep v) k h = (refl, h)

  Reach-Locks :
      (start : Store Q) (eps : List Bytes) (m : Store Q) (ts : List Lookup) (cs : List (Change Q))
      → start.locked ≡ false
      → Reach start eps m ts cs
      → (m.routes ≡ latest start.routes cs) × (total holds_lock ts ≡ one_if m.locked)
  unfolding latest holds_lock one_if
  Reach-Locks start eps _ _ _ free begun =
      (refl, omega (arith, total-loading holds_lock eps (λ ep. refl), ap one_if free))
  Reach-Locks start eps m _ cs free (called xs ys ep r) =
      let (same, lock) = Reach-Locks start eps m (xs ++ idle ∷ ys) cs free r in
      (
        same,
        omega (
          arith,
          lock,
          total-middle holds_lock xs ys idle,
          total-middle holds_lock xs ys (loading ep),
        ),
      )
  Reach-Locks start eps _ _ cs free (moved {m = m} xs ys t r) =
      let (same, lock) = Reach-Locks start eps m (xs ++ t ∷ ys) cs free r in
      let (still, lock') =
        proceed-Locks m t (total holds_lock (xs ++ ys))
          (sym (total-middle holds_lock xs ys t) ∙ lock) in
      (still ∙ same, total-middle holds_lock xs ys (proceed m t).1 ∙ lock')
  Reach-Locks start eps _ ts _ free (rerouted {m = m} {cs = cs} c r) =
      let (same, lock) = Reach-Locks start eps m ts cs free r in (ap (change c) same, lock)

  -- Threads look up endpoints and routes are added and cleared in any interleaving, from a cache
  -- whose lock is free and whatever its entries, to a point at which no look-up is under way.
  -- Then the routes change once more, and look-ups interleave in any way while they stay. At each
  -- point after that the routes are those that all the changes make; each entry that a look-up
  -- returns or is about to put in is the one computed for its endpoint from them; and the cache
  -- is current or marked for clearing, unless a thread holds the lock.
  pub Reach-rerouted :
      (start : Store Q) (eps : List Bytes) (m : Store Q) (ts : List Lookup) (cs : List (Change Q))
      (c : Change Q) (eps' : List Bytes) (m' : Store Q) (ts' : List Lookup)
      → start.locked ≡ false
      → Reach start eps m ts cs
      → All (λ t. t ≡ idle) ts
      → Reach (reroute c m) eps' m' ts' []
      → let routes = change c (latest start.routes cs) in
        (m'.routes ≡ routes)
        × All (HasResult routes) ts'
        × ((m'.locked ≡ true) ⊎ IsCurrent routes m'.cached)
  Reach-rerouted start eps m ts cs c eps' m' ts' free before quiet after =
      let (same, lock) = Reach-Locks start eps m ts cs free before in
      subst
        (λ routes.
          (m'.routes ≡ change c routes)
          × All (HasResult (change c routes)) ts'
          × ((m'.locked ≡ true) ⊎ IsCurrent (change c routes) m'.cached))
        same
        (Reach-IsCurrent (reroute c m) eps' m' ts' (inl refl)
          (is_free m.locked (sym lock ∙ idle_sum ts quiet)) after)
