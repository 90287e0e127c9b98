-- ===== src/Pipeline/Cache/Threads.antt =====
-- src/logger.cpp: `cached_route_mask_` with threads in it, while routes are added and cleared. Each
-- atomic operation and each locked section is a step of its own, but for the section that clears the
-- cache, which has several.
pub mod Locking
pub mod Steady
pub mod Quiet
pub mod Stale
use sy_log.Pipeline.Cache.{
  CacheEntry, EndpointCache, Cached, find_entry, emplace, compute_cache_entry, global_minimum,
  invalidate,
}
use sy_log.Prelude.{
  ◌≡◌, Bool, true, false, Option, none, some, List, [], ◌∷◌, ◌++◌, map, Bytes, if◌then◌else◌,
}
use sy_log.Route.{Route}

-- The routes, the cache, and whether a thread holds `cache_m` for longer than a step.
pub record Store (Q : Type 0) : Type 0 where
  pub routes : List (Route Q)
  pub cached : Cached
  pub locked : Bool

-- Where a thread is that looks up an endpoint. From `exchanging` to `minimising` it holds `cache_m`.
pub data Lookup : Type 0 where
  idle : Lookup
  loading : Bytes → Lookup
  locking : Bytes → Lookup
  exchanging : Bytes → Lookup
  clearing : Bytes → Lookup
  minimising : Bytes → Lookup
  finding : Bytes → Lookup
  computing : Bytes → Lookup
  emplacing : Bytes → CacheEntry → Lookup
  returned : Bytes → CacheEntry → Lookup

-- A change of the routes.
pub data Change (Q : Type 0) : Type 0 where
  added : Route Q → Change Q
  cleared : Change Q

module _ {Q : Type 0} where
  unfoldable pub change : Change Q → List (Route Q) → List (Route Q)
  change (added r) routes = routes ++ r ∷ []
  change cleared routes = []

  -- The routes after changes, of which the first is the last one made.
  unfoldable pub latest : List (Route Q) → List (Change Q) → List (Route Q)
  latest routes [] = routes
  latest routes (c ∷ cs) = change c (latest routes cs)

  abbrev pub with_cached : Store Q → Cached → Store Q
  with_cached m c = record m { cached = c }

  abbrev pub with_lock : Store Q → Bool → Store Q
  with_lock m b = record m { locked = b }

  -- One step of a look-up.
  unfoldable pub proceed : Store Q → Lookup → Store Q × Lookup
  proceed m idle = (m, idle)
  proceed m (loading ep) = (m, if m.cached.dirty then locking ep else finding ep)
  proceed m (locking ep) = if m.locked then (m, locking ep) else (with_lock m true, exchanging ep)
  proceed m (exchanging ep) =
      if m.cached.dirty
      then (with_cached m (record m.cached { dirty = false }), clearing ep)
      else (with_lock m false, finding ep)
  proceed m (clearing ep) = (with_cached m (record m.cached { entries = [] }), minimising ep)
  proceed m (minimising ep) = (
    record m {
      cached = record m.cached { global_min_priority = global_minimum m.routes 65535 };
      locked = false;
    },
    finding ep,
  )
  proceed m (finding ep) = if m.locked then (m, finding ep) else (
    m,
    elim (find_entry ep m.cached.entries) [ some v ↦ returned ep v | none ↦ computing ep ],
  )
  proceed m (computing ep) = (m, emplacing ep (compute_cache_entry m.routes ep))
  proceed m (emplacing ep v) = if m.locked then (m, emplacing ep v) else (
    with_cached m (record m.cached { entries = emplace ep v m.cached.entries }),
    returned ep v,
  )
  proceed m (returned ep v) = (m, idle)

  -- `add_route` and `clear_routes` change the routes and mark the cache under `state_m`.
  abbrev pub reroute : Change Q → Store Q → Store Q
  reroute c m = record m { routes = change c m.routes; cached = invalidate m.cached }

  -- Threads that look up endpoints while the routes change: the stores that they bring about in any
  -- order, with the changes made.
  pub data Reach (start : Store Q) (eps : List Bytes)
      : Store Q → List Lookup → List (Change Q) → Type 0 where
    begun : Reach start eps start (map loading eps) []
    called :
        {m : Store Q} {cs : List (Change Q)} (xs ys : List Lookup) (ep : Bytes)
        → Reach start eps m (xs ++ idle ∷ ys) cs
        → Reach start eps m (xs ++ loading ep ∷ ys) cs
    moved :
        {m : Store Q} {cs : List (Change Q)} (xs ys : List Lookup) (t : Lookup)
        → Reach start eps m (xs ++ t ∷ ys) cs
        → Reach start eps (proceed m t).0 (xs ++ (proceed m t).1 ∷ ys) cs
    rerouted :
        {m : Store Q} {ts : List Lookup} {cs : List (Change Q)} (c : Change Q)
        → Reach start eps m ts cs
        → Reach start eps (reroute c m) ts (c ∷ cs)
