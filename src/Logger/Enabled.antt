-- ===== src/Logger/Enabled.antt =====
-- When a logger drops a call before an event is made.
use sy_log.Event.{Event}
use sy_log.Filter.{Filter, severity, endpoint, custom}
use sy_log.Logger.{Logger, enabled}
use sy_log.Pipeline.{Pipeline, cached_min_priority}
use sy_log.Pipeline.Cache.{
  CacheEntry, Summary, compute_cache_entry, entry_loop, add_route_to_entry, summarise_filter,
  summarise_filters, initial_summary,
}
use sy_log.Pipeline.Cache.Covers.{Covers, compute_cache_entry-Covers}
use sy_log.Pipeline.Cache.Fresh.{IsCurrent, cached_route_mask_lem}
use sy_log.Prelude.{
  ℕ, zero, suc, ◌≤◌, ◌<◌, ◌≡◌, refl, true, false, Option, none, some, List, [], ◌∷◌, Bytes, All,
  arith, has_bit, has_bit-zero_mask, get_elem?, ◌==◌, if◌then◌else◌,
}
use sy_log.Route.{Route, route_passes}
use sy_log.Severity.{Severity}
use Prim.Native.Nat.{max}
use sy_log.Prelude.{le→leb}

-- A mask with a bit set is not 0.
mask-ne-zero : (mask n : ℕ) → has_bit mask n ≡ true → (mask == 0) ≡ false
mask-ne-zero zero n h = cc (has_bit-zero_mask n)
mask-ne-zero (suc mask) n h = ground arith

-- No severity filter among a route's filters.
abbrev pub NoSeverity : List (Option Filter) → Type 0
NoSeverity [] = Unit
NoSeverity (none ∷ fs) = NoSeverity fs
NoSeverity (some (severity sf) ∷ fs) = ⊥
NoSeverity (some (endpoint ef) ∷ fs) = NoSeverity fs
NoSeverity (some (custom p) ∷ fs) = NoSeverity fs

summarise-NoSeverity :
    (ep : Bytes) (fs : List (Option Filter)) (s : Summary)
    → NoSeverity fs
    → (summarise_filters ep fs s).min_priority ≡ s.min_priority
unfolding summarise_filters summarise_filter
summarise-NoSeverity ep [] s h = refl
summarise-NoSeverity ep (none ∷ fs) s h = summarise-NoSeverity ep fs s h
summarise-NoSeverity ep (some (severity sf) ∷ fs) s h = elim h [ ]
summarise-NoSeverity ep (some (endpoint ef) ∷ fs) s h = summarise-NoSeverity ep fs _ h
summarise-NoSeverity ep (some (custom p) ∷ fs) s h = summarise-NoSeverity ep fs s h

minimum-Covers :
    (e : Event) (n : ℕ) (v : CacheEntry)
    → Covers e n v
    → (if v.route_mask == 0 then 65535 else v.min_priority) ≤ max e.severity_priority 100
minimum-Covers e n v c = rw (mask-ne-zero v.route_mask n c.0) c.1

module _ {Q : Type 0} where
  entry_loop-least :
      (ep : Bytes) (i : ℕ) (rs : List (Route Q)) (out : CacheEntry)
      → All (λ r. NoSeverity r.filters) rs
      → 100 ≤ out.min_priority
      → 100 ≤ (entry_loop ep i rs out).min_priority
  unfolding entry_loop add_route_to_entry
  entry_loop-least ep i [] out h least = least
  entry_loop-least ep i (r ∷ rs) out h least = ground (
    arith,
    summarise-NoSeverity ep r.filters initial_summary h.0,
    entry_loop-least ep (suc i) rs (add_route_to_entry ep i r out) h.1,
  )

  -- If the cache is current or marked for clearing and a route at an index below 64 passes an
  -- event, then a logger for the event's endpoint is enabled for each severity whose priority is
  -- at least the event's and that of TRACE.
  pub enabled_complete :
      (logger : Logger) (sev : Severity) (p : Pipeline Q) (e : Event) (n : ℕ) (r : Route Q)
      → IsCurrent p.routes p.cache
      → e.endpoint ≡ logger.endpoint
      → e.severity_priority ≤ sev.priority
      → 100 ≤ sev.priority
      → n < 64
      → get_elem? p.routes n ≡ some r
      → route_passes r e ≡ true
      → (enabled logger sev p).0 ≡ true
  unfolding enabled cached_min_priority
  enabled_complete logger sev p e n r current same below low h at passes =
      let v = compute_cache_entry p.routes e.endpoint in
      let look = (cached_route_mask_lem p.routes p.cache logger.endpoint current).0 in
      let least = minimum-Covers e n v (compute_cache_entry-Covers e n p.routes r h at passes) in
      rw (look, ← same)
        (le→leb (if v.route_mask == 0 then 65535 else v.min_priority) sev.priority (omega arith))

  -- Where the cache is current or marked for clearing and no route has a severity filter, a
  -- logger is disabled for each severity below TRACE's 100, at every endpoint.
  pub enabled_low :
      (logger : Logger) (sev : Severity) (p : Pipeline Q)
      → IsCurrent p.routes p.cache
      → All (λ r. NoSeverity r.filters) p.routes
      → sev.priority < 100
      → (enabled logger sev p).0 ≡ false
  unfolding enabled cached_min_priority compute_cache_entry
  enabled_low logger sev p current h low =
      let look = (cached_route_mask_lem p.routes p.cache logger.endpoint current).0 in
      let least =
        entry_loop-least logger.endpoint 0 p.routes
          (record { min_priority = 65535; route_mask = 0 }) h (omega arith) in
      ground (arith, look)
