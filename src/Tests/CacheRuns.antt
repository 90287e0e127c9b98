-- ===== src/Tests/CacheRuns.antt =====
-- Runs of look-ups that interleave: src/logger.cpp, `cached_route_mask_`.
use sy_log.Pipeline.Cache.{
  compute_cache_entry, find_entry, emplace, global_minimum, cached_route_mask,
}
use sy_log.Pipeline.Cache.Fresh.{IsCurrent}
use sy_log.Pipeline.Cache.Threads.{
  Store, idle, loading, locking, exchanging, clearing, minimising, finding, computing, emplacing,
  returned, added, change, latest, reroute, proceed, Reach, begun, moved,
}
use sy_log.Pipeline.Cache.Threads.Locking.{HasResult}
use sy_log.Pipeline.Cache.Threads.Quiet.{Reach-rerouted}
use sy_log.Pipeline.Cache.Threads.Steady.{Reach-IsCurrent}
use sy_log.Pipeline.Cache.Threads.Stale.{before, after, entry, other_entry, Reach_stale}
use sy_log.Pipeline.Cache.Unordered.LookUps.{map_of, value, cached_route_mask-find}
use sy_log.Pipeline.Cache.Unordered.{find}
use sy_log.Prelude.{
  ◌≡◌, refl, bytes_eq, some, if◌then◌else◌, true, false, List, [], ◌∷◌, All, Bytes, codes, ◌⊎◌, inl,
}
use sy_log.Route.{Route}
use sy_log.Tests.Data.{to_console, to_file}
use sy_log.Tests.Fifo.{Fifo}

abbrev one_route : List (Route Fifo)
one_route = to_console ∷ []

abbrev net : Bytes
net = codes "net/tcp"

abbrev db : Bytes
db = codes "db"

-- A route to a file is added while one thread looks up an endpoint.
Reach_stale_example :
    Reach
      (before one_route [] 100 to_file net db)
      (net ∷ db ∷ [])
      (after one_route [] 100 to_file net db)
      (returned net (entry one_route [] 100 to_file net db)
        ∷ returned db (other_entry one_route [] 100 to_file net db)
        ∷ [])
      (added to_file ∷ [])
    × (cached_route_mask
          (to_console ∷ to_file ∷ [])
          (after one_route [] 100 to_file net db).cached
          net
        ≡ (compute_cache_entry one_route net, (after one_route [] 100 to_file net db).cached))
unfolding find_entry
Reach_stale_example = Reach_stale one_route [] 100 to_file net db refl refl

-- A marked cache, which one thread clears and fills.
abbrev marked : Store Fifo
marked = record {
  routes = one_route;
  cached = record { dirty = true; entries = []; global_min_priority = 100 };
  locked = false;
}

abbrev filled : Store Fifo
filled = record {
  routes = one_route;
  cached = record {
    dirty = false;
    entries = (net, compute_cache_entry one_route net) ∷ [];
    global_min_priority = global_minimum one_route 65535;
  };
  locked = false;
}

filled-Reach :
    Reach marked (net ∷ []) filled (returned net (compute_cache_entry one_route net) ∷ []) []
unfolding proceed find_entry emplace
filled-Reach = moved [] [] (emplacing net (compute_cache_entry one_route net)) (
    moved [] [] (computing net) (
      moved [] [] (finding net) (
        moved [] [] (minimising net) (
          moved [] [] (clearing net) (
            moved [] [] (exchanging net)
              (moved [] [] (locking net) (moved [] [] (loading net) begun)))))))

Reach-IsCurrent_example :
    (filled.routes ≡ one_route)
    × All (HasResult one_route) (returned net (compute_cache_entry one_route net) ∷ [])
    × ((filled.locked ≡ true) ⊎ IsCurrent one_route filled.cached)
Reach-IsCurrent_example =
    Reach-IsCurrent marked (net ∷ []) filled (returned net (compute_cache_entry one_route net) ∷ [])
      (inl refl) refl filled-Reach

-- A route to a file is added when the thread is idle again, and then another look-up is made.
idle-Reach : Reach marked (net ∷ []) filled (idle ∷ []) []
unfolding proceed
idle-Reach = moved [] [] (returned net (compute_cache_entry one_route net)) filled-Reach

abbrev more_routes : List (Route Fifo)
more_routes = change (added to_file) one_route

abbrev refilled : Store Fifo
refilled = record {
  routes = more_routes;
  cached = record {
    dirty = false;
    entries = (net, compute_cache_entry more_routes net) ∷ [];
    global_min_priority = global_minimum more_routes 65535;
  };
  locked = false;
}

refilled-Reach :
    Reach
      (reroute (added to_file) filled)
      (net ∷ [])
      refilled
      (returned net (compute_cache_entry more_routes net) ∷ [])
      []
unfolding proceed find_entry emplace
refilled-Reach = moved [] [] (emplacing net (compute_cache_entry more_routes net)) (
    moved [] [] (computing net) (
      moved [] [] (finding net) (
        moved [] [] (minimising net) (
          moved [] [] (clearing net) (
            moved [] [] (exchanging net)
              (moved [] [] (locking net) (moved [] [] (loading net) begun)))))))

Reach-rerouted_example :
    (refilled.routes ≡ more_routes)
    × All (HasResult more_routes) (returned net (compute_cache_entry more_routes net) ∷ [])
    × ((refilled.locked ≡ true) ⊎ IsCurrent more_routes refilled.cached)
unfolding latest
Reach-rerouted_example =
    Reach-rerouted marked (net ∷ []) filled (idle ∷ []) [] (added to_file) (net ∷ []) refilled
      (returned net (compute_cache_entry more_routes net) ∷ []) refl idle-Reach (refl, tt)
      refilled-Reach

cached_route_mask-find_example :
    let (v, after_net) = cached_route_mask one_route marked.cached net in
    (v ≡ value (compute_cache_entry one_route net) (find net (map_of marked.cached)))
    × (find net (map_of after_net)
        ≡ (if bytes_eq net net then some v else find net (map_of marked.cached)))
cached_route_mask-find_example = cached_route_mask-find one_route marked.cached net net
