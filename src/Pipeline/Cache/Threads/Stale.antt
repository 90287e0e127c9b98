-- ===== src/Pipeline/Cache/Threads/Stale.antt =====
-- An entry that was computed before a change of the routes can come into the cache after it was cleared
-- for the change: src/logger.cpp, `cached_route_mask_` computes an entry without `cache_m`.
use sy_log.Pipeline.Cache.{
  CacheEntry, EndpointCache, find_entry, emplace, compute_cache_entry, global_minimum, refresh,
  cached_route_mask,
}
use sy_log.Pipeline.Cache.Threads.{
  Store, Lookup, loading, locking, exchanging, clearing, minimising, finding, computing, emplacing,
  returned, Change, added, change, proceed, Reach, begun, moved, rerouted,
}
use sy_log.Prelude.{
  ℕ, ◌≡◌, refl, ap, subst, ◌∙◌, some, if◌then◌else◌, Bool, true, false, none, List, [], ◌∷◌, ◌++◌,
  Bytes, bytes_eq, bytes_eq_refl,
}
use sy_log.Route.{Route}

module _ {Q : Type 0} (routes : List (Route Q)) (entries : EndpointCache) (minimum : ℕ)
    (r : Route Q) (ep other : Bytes) where
  -- The cache is current, and the lock is free.
  abbrev pub before : Store Q
  before = record {
    routes = routes;
    cached = record { dirty = false; entries = entries; global_min_priority = minimum };
    locked = false;
  }

  abbrev pub entry : CacheEntry
  entry = compute_cache_entry routes ep

  abbrev pub other_entry : CacheEntry
  other_entry = compute_cache_entry (routes ++ r ∷ []) other

  abbrev pub after : Store Q
  after = record {
    routes = routes ++ r ∷ [];
    cached = record {
      dirty = false;
      entries = (other, other_entry) ∷ (ep, entry) ∷ [];
      global_min_priority = global_minimum (routes ++ r ∷ []) 65535;
    };
    locked = false;
  }

  abbrev between : Bool → Bool → EndpointCache → ℕ → Store Q
  between dirty locked es n = record {
    routes = routes ++ r ∷ [];
    cached = record { dirty = dirty; entries = es; global_min_priority = n };
    locked = locked;
  }

  abbrev Run : Store Q → Lookup → Lookup → List (Change Q) → Type 0
  Run m a b cs = Reach before (ep ∷ other ∷ []) m (a ∷ b ∷ []) cs

  first :
      (m m' : Store Q) (a a' b : Lookup) (cs : List (Change Q))
      → proceed m a ≡ (m', a')
      → Run m a b cs
      → Run m' a' b cs
  first m m' a a' b cs h run =
      subst (λ (s : Store Q × Lookup). Run s.0 s.1 b cs) h (moved [] (b ∷ []) a run)

  second :
      (m m' : Store Q) (a b b' : Lookup) (cs : List (Change Q))
      → proceed m b ≡ (m', b')
      → Run m a b cs
      → Run m' a b' cs
  second m m' a b b' cs h run =
      subst (λ (s : Store Q × Lookup). Run s.0 a s.1 cs) h (moved (a ∷ []) [] b run)

  misses : find_entry ep entries ≡ none → proceed before (finding ep) ≡ (before, computing ep)
  unfolding proceed
  misses h = rw h refl

  -- The first thread has computed its entry, and then the route is added.
  overtaken :
      find_entry ep entries ≡ none
      → Run (between true false entries minimum) (emplacing ep entry) (loading other) (added r ∷ [])
  unfolding proceed change
  overtaken h = rerouted (added r) (
      first before before (computing ep) _ (loading other) [] refl (
        first before before (finding ep) _ (loading other) [] (misses h)
          (first before before (loading ep) _ (loading other) [] refl begun)))

  -- The second thread clears the cache and looks up its endpoint.
  refilled :
      find_entry ep entries ≡ none
      → Run
          (between false false
            ((other, other_entry) ∷ [])
            (global_minimum (routes ++ r ∷ []) 65535))
          (emplacing ep entry)
          (returned other other_entry)
          (added r ∷ [])
  unfolding proceed find_entry emplace
  refilled h =
      let a = emplacing ep entry in
      let cs = added r ∷ [] in
      let n = global_minimum (routes ++ r ∷ []) 65535 in
      second (between false false [] n) _ a (emplacing other other_entry) _ cs refl (
        second (between false false [] n) _ a (computing other) _ cs refl (
          second (between false false [] n) _ a (finding other) _ cs refl (
            second (between false true [] minimum) _ a (minimising other) _ cs refl (
              second (between false true entries minimum) _ a (clearing other) _ cs refl (
                second (between true true entries minimum) _ a (exchanging other) _ cs refl (
                  second (between true false entries minimum) _ a (locking other) _ cs refl (
                    second (between true false entries minimum) _ a (loading other) _ cs refl
                      (overtaken h))))))))

  found_behind :
      (v w : CacheEntry)
      → bytes_eq other ep ≡ false
      → find_entry ep ((other, w) ∷ (ep, v) ∷ []) ≡ some v
  unfolding find_entry
  found_behind v w differs =
      ap (λ b. if b then some w else find_entry ep ((ep, v) ∷ [])) differs
      ∙ ap (λ b. if b then some v else none) (bytes_eq_refl ep)

  emplaced_behind :
      (v w : CacheEntry)
      → bytes_eq other ep ≡ false
      → emplace ep v ((other, w) ∷ []) ≡ (other, w) ∷ (ep, v) ∷ []
  unfolding emplace
  emplaced_behind v w differs =
      ap (λ b. if b then (other, w) ∷ [] else (other, w) ∷ (ep, v) ∷ []) differs

  -- From a current cache without an entry of an endpoint, two look-ups, of that endpoint and of
  -- another, and one addition of a route can interleave so that both look-ups have returned, the
  -- cache is not marked for clearing, and a look-up of the endpoint gives from then on the entry
  -- computed without the new route, and leaves the cache as it is.
  pub Reach_stale :
      find_entry ep entries ≡ none
      → bytes_eq other ep ≡ false
      → Reach before
          (ep ∷ other ∷ [])
          after
          (returned ep entry ∷ returned other other_entry ∷ [])
          (added r ∷ [])
        × (cached_route_mask after.routes after.cached ep ≡ (entry, after.cached))
  unfolding proceed cached_route_mask refresh
  Reach_stale missing differs = (
    first _ after (emplacing ep entry) (returned ep entry) _ (added r ∷ [])
        (ap
          (λ es.
            (between false false es (global_minimum (routes ++ r ∷ []) 65535), returned ep entry))
          (emplaced_behind entry other_entry differs))
        (refilled missing),
    rw (found_behind entry other_entry differs, cached_route_mask) refl,
  )
