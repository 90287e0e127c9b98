-- ===== src/Pipeline/Cache.antt =====
-- src/logger.cpp: the endpoint cache of the pipeline.
pub mod Covers
pub mod Fresh
pub mod Threads
pub mod Unordered
use sy_log.Event.{default_event, set_endpoint}
use sy_log.Filter.{
  Filter, SeverityFilter, EndpointFilter, severity, endpoint, custom, endpoint_pass,
}
use sy_log.Prelude.{
  ℕ, zero, suc, Bool, true, false, Option, none, some, List, [], ◌∷◌, Bytes, bytes_eq, ltb, ◌==◌,
  if◌then◌else◌, shift_one,
}
use Prim.Native.Nat.{bit_or}
use sy_log.Route.{Route}
use sy_log.Severity.{trace}

pub record CacheEntry : Type 0 where
  pub min_priority : ℕ
  pub route_mask : ℕ

abbrev pub EndpointCache : Type 0
EndpointCache = List (Bytes × CacheEntry)

-- `endpoint_cache.find`
unfoldable pub find_entry : Bytes → EndpointCache → Option CacheEntry
find_entry ep [] = none
find_entry ep ((k, v) ∷ cache) = if bytes_eq k ep then some v else find_entry ep cache

-- `endpoint_cache.emplace` leaves an entry that is there.
unfoldable pub emplace : Bytes → CacheEntry → EndpointCache → EndpointCache
emplace ep v [] = (ep, v) ∷ []
emplace ep v ((k, w) ∷ cache) =
    if bytes_eq k ep then (k, w) ∷ cache else (k, w) ∷ emplace ep v cache

-- What the loop over a route's filters keeps.
pub record Summary : Type 0 where
  pub endpoint_ok : Bool
  pub min_priority : ℕ

-- One round of the loop: the last severity filter and the last endpoint filter count, a filter of
-- another class is passed over.
unfoldable pub summarise_filter : Bytes → Filter → Summary → Summary
summarise_filter ep (severity sf) s = record s { min_priority = sf.minimum_priority }
summarise_filter ep (endpoint ef) s = record s {
  endpoint_ok = endpoint_pass ef (set_endpoint ep default_event);
}
summarise_filter ep (custom p) s = s

unfoldable pub summarise_filters : Bytes → List (Option Filter) → Summary → Summary
unfolding summarise_filter
summarise_filters ep [] s = s
summarise_filters ep (none ∷ fs) s = summarise_filters ep fs s
summarise_filters ep (some f ∷ fs) s = summarise_filters ep fs (summarise_filter ep f s)

abbrev pub initial_summary : Summary
initial_summary = record { endpoint_ok = true; min_priority = trace.priority }

module _ {Q : Type 0} where
  unfoldable pub add_route_to_entry : Bytes → ℕ → Route Q → CacheEntry → CacheEntry
  unfolding summarise_filters
  add_route_to_entry ep i r out =
      let s = summarise_filters ep r.filters initial_summary in
      if s.endpoint_ok
      then record {
        min_priority =
            if ltb s.min_priority out.min_priority then s.min_priority else out.min_priority;
        route_mask = bit_or out.route_mask (shift_one i);
      }
      else out

  unfoldable pub entry_loop : Bytes → ℕ → List (Route Q) → CacheEntry → CacheEntry
  entry_loop ep i [] out = out
  entry_loop ep i (r ∷ rs) out =
      if ltb i 64 then entry_loop ep (suc i) rs (add_route_to_entry ep i r out) else out

  unfoldable pub compute_cache_entry : List (Route Q) → Bytes → CacheEntry
  compute_cache_entry routes ep =
      entry_loop ep 0 routes (record { min_priority = 65535; route_mask = 0 })

-- The first severity filter of a route.
unfoldable pub first_minimum : List (Option Filter) → ℕ
first_minimum [] = trace.priority
first_minimum (none ∷ fs) = first_minimum fs
first_minimum (some (severity sf) ∷ fs) = sf.minimum_priority
first_minimum (some (endpoint ef) ∷ fs) = first_minimum fs
first_minimum (some (custom p) ∷ fs) = first_minimum fs

module _ {Q : Type 0} where
  unfoldable pub global_minimum : List (Route Q) → ℕ → ℕ
  unfolding first_minimum
  global_minimum [] m = m
  global_minimum (r ∷ rs) m =
      let route_min = first_minimum r.filters in
      global_minimum rs (if ltb route_min m then route_min else m)

-- The part of the pipeline's state that the cache is about.
pub record Cached : Type 0 where
  pub dirty : Bool
  pub entries : EndpointCache
  pub global_min_priority : ℕ

abbrev pub invalidate : Cached → Cached
invalidate c = record c { dirty = true }

module _ {Q : Type 0} where
  -- The first block of `cached_route_mask_`; with no routes the minimum is 65535.
  unfoldable pub refresh : List (Route Q) → Cached → Cached
  refresh routes c =
      if c.dirty
      then record { dirty = false; entries = []; global_min_priority = global_minimum routes 65535 }
      else c

  unfoldable pub cached_route_mask : List (Route Q) → Cached → Bytes → CacheEntry × Cached
  cached_route_mask routes c ep =
      let c' = refresh routes c in
      let computed = compute_cache_entry routes ep in
      elim (find_entry ep c'.entries) [
        | some v ↦ (v, c')
        | none ↦ (computed, record c' { entries = emplace ep computed c'.entries })
      ]
