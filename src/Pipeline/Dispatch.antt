-- ===== src/Pipeline/Dispatch.antt =====
-- `dispatch_sync_`: what a synchronous submission writes.
use sy_log.Event.{Event}
use sy_log.Pipeline.{sync_route, sync_loop, dispatch_sync}
use sy_log.Pipeline.Cache.{compute_cache_entry}
use sy_log.Pipeline.Cache.Covers.{compute_cache_entry-Covers}
use sy_log.Prelude.{
  ℕ, zero, suc, ◌+◌, ◌<◌, ◌≡◌, refl, sym, subst, ap₂, Bool, true, false, some, List, [], ◌∷◌, ◌++◌,
  if◌then◌else◌, has_bit, get_elem?, arith, Bool-cases, inl, inr, lt→ltb, le→ltb_false,
}
use sy_log.Route.{Route, Output, process, route_passes}

pub first_index : (i : ℕ) → i + 0 ≡ i
first_index i = omega arith

pub zero_index : (k : ℕ) → k ≡ 0 + k
zero_index k = omega arith

pub next_index : (i k : ℕ) → i + suc k ≡ suc i + k
next_index i k = omega arith

module _ {Q : Type 0} where
  -- What the first `n` routes write for an event, each asked on its own.
  unfoldable pub everywhere : ℕ → List (Route Q) → Event → List Output
  everywhere zero rs e = []
  everywhere (suc n) [] e = []
  everywhere (suc n) (r ∷ rs) e = process r e ++ everywhere n rs e

  -- The caller's thread and a lane's worker write the same.
  pub sync_route-process : (r : Route Q) (e : Event) → sync_route r e ≡ process r e
  unfolding sync_route process route_passes
  sync_route-process r e = ground arith

  pub process_rejected : (r : Route Q) (e : Event) → route_passes r e ≡ false → process r e ≡ []
  unfolding process
  process_rejected r e h = ground arith

  one_route :
      (r : Route Q) (e : Event) (b : Bool)
      → (route_passes r e ≡ true → b ≡ true)
      → (if b then sync_route r e else []) ≡ process r e
  one_route r e true h = sync_route-process r e
  one_route r e false h = elim (Bool-cases (route_passes r e)) [
    | inl yes_ ↦ cc (h yes_)
    | inr no_ ↦ sym (process_rejected r e no_)
  ]

  sync_loop-everywhere :
      (n i : ℕ) (rs : List (Route Q)) (e : Event) (mask : ℕ)
      → i + n ≡ 64
      → ((k : ℕ) (r : Route Q)
          → k < n
          → get_elem? rs k ≡ some r
          → route_passes r e ≡ true
          → has_bit mask (i + k) ≡ true)
      → sync_loop i rs e mask ≡ everywhere n rs e
  unfolding sync_loop everywhere
  sync_loop-everywhere zero i [] e mask same covers = refl
  sync_loop-everywhere (suc n) i [] e mask same covers = refl
  sync_loop-everywhere zero i (r ∷ rs) e mask same covers = rw (le→ltb_false i 64 (omega arith))
  sync_loop-everywhere (suc n) i (r ∷ rs) e mask same covers = rw (lt→ltb i 64 (omega arith)) (
      ap₂ ◌++◌
        (one_route r e (has_bit mask i) (λ p.
          subst (λ t. has_bit mask t ≡ true) (first_index i) (covers 0 r (omega arith) refl p)))
        (sync_loop-everywhere n (suc i) rs e mask (omega arith) (λ k r' h at p.
          subst (λ t. has_bit mask t ≡ true) (next_index i k)
            (covers (suc k) r' (omega arith) at p))))

  -- Synchronous dispatch under the mask that the cache computes writes what the first 64 routes
  -- write when each is asked on its own: the mask hides no route, whatever the filters.
  pub dispatch_sync-everywhere :
      (routes : List (Route Q)) (e : Event)
      → dispatch_sync routes e (compute_cache_entry routes e.endpoint).route_mask
        ≡ everywhere 64 routes e
  unfolding dispatch_sync
  dispatch_sync-everywhere routes e =
      let mask = (compute_cache_entry routes e.endpoint).route_mask in
      sync_loop-everywhere 64 0 routes e mask refl (λ k r h at p.
        subst (λ t. has_bit mask t ≡ true) (zero_index k)
          (compute_cache_entry-Covers e k routes r h at p).0)
