-- ===== src/Pipeline/Cache/Covers.antt =====
-- The endpoint cache never hides an event from a route that would take it.
use sy_log.Event.{Event}
use sy_log.Filter.{Filter, severity, endpoint, custom, pass, all_pass, endpoint_pass}
use sy_log.Pipeline.Cache.{
  CacheEntry, Summary, summarise_filter, summarise_filters, initial_summary, add_route_to_entry,
  entry_loop, compute_cache_entry,
}
use sy_log.Prelude.{
  ℕ, zero, suc, ◌+◌, ◌≤◌, ◌<◌, ◌≡◌, refl, ap, true, Option, none, some, List, [], ◌∷◌, Bytes, ltb,
  shift_one-eq, has_bit, has_bit-or, get_elem?, arith, Bool-cases, inl, inr,
}
use Prim.Native.Nat.{bit_or, max}
use sy_log.Severity.{trace}
use sy_log.Prelude.{ltb→lt, lt→ltb}
use sy_log.Route.{Route, route_passes}

-- What the summary of a route's filters says of an event that passes them.
abbrev IsBelow : Event → Summary → Type 0
IsBelow e s = (s.endpoint_ok ≡ true) × (s.min_priority ≤ max e.severity_priority trace.priority)

summarise_filter-IsBelow :
    (e : Event) (f : Filter) (s : Summary)
    → pass f e ≡ true
    → IsBelow e s
    → IsBelow e (summarise_filter e.endpoint f s)
unfolding pass summarise_filter endpoint_pass
summarise_filter-IsBelow e (severity sf) s h b = ground arith
summarise_filter-IsBelow e (endpoint ef) s h b = (h, b.1)
summarise_filter-IsBelow e (custom p) s h b = b

summarise_filters-IsBelow :
    (e : Event) (fs : List (Option Filter)) (s : Summary)
    → all_pass fs e ≡ true
    → IsBelow e s
    → IsBelow e (summarise_filters e.endpoint fs s)
unfolding all_pass summarise_filters
summarise_filters-IsBelow e [] s h b = b
summarise_filters-IsBelow e (none ∷ fs) s h b = summarise_filters-IsBelow e fs s h b
summarise_filters-IsBelow e (some f ∷ fs) s h b =
    summarise_filters-IsBelow e fs (summarise_filter e.endpoint f s) (ground arith)
      (summarise_filter-IsBelow e f s (ground arith) b)

-- An entry that lets the event reach the route at index `n`.
abbrev pub Covers : Event → ℕ → CacheEntry → Type 0
Covers e n v =
    (has_bit v.route_mask n ≡ true) × (v.min_priority ≤ max e.severity_priority trace.priority)

module _ {Q : Type 0} where
  -- A round for a route at index `i` keeps what an earlier round has set.
  add_route-keeps :
      (e : Event) (ep : Bytes) (n i : ℕ) (r : Route Q) (out : CacheEntry)
      → i < 64
      → Covers e n out
      → Covers e n (add_route_to_entry ep i r out)
  unfolding add_route_to_entry
  add_route-keeps e ep n i r out h c = ground (
    arith,
    has_bit-or i out.route_mask n,
    ap (λ (t : ℕ). has_bit (bit_or out.route_mask t) n) (shift_one-eq i h),
  )

  add_route-Covers :
      (e : Event) (i : ℕ) (r : Route Q) (out : CacheEntry)
      → i < 64
      → route_passes r e ≡ true
      → Covers e i (add_route_to_entry e.endpoint i r out)
  unfolding add_route_to_entry route_passes
  add_route-Covers e i r out h p =
      let s = summarise_filters-IsBelow e r.filters initial_summary p (refl, omega arith) in
      ground (
        arith,
        has_bit-or i out.route_mask i,
        ap (λ (t : ℕ). has_bit (bit_or out.route_mask t) i) (shift_one-eq i h),
      )

  entry_loop-keeps :
      (e : Event) (ep : Bytes) (n i : ℕ) (rs : List (Route Q)) (out : CacheEntry)
      → Covers e n out
      → Covers e n (entry_loop ep i rs out)
  unfolding entry_loop
  entry_loop-keeps e ep n i [] out c = c
  entry_loop-keeps e ep n i (r ∷ rs) out c = elim (Bool-cases (ltb i 64)) [
    | inl more ↦ rw more (
        entry_loop-keeps e ep n (suc i) rs (add_route_to_entry ep i r out)
          (add_route-keeps e ep n i r out (ltb→lt i 64 more) c))
    | inr end ↦ rw end c
  ]

  entry_loop-Covers :
      (e : Event) (n i k : ℕ) (rs : List (Route Q)) (r : Route Q) (out : CacheEntry)
      → n ≡ i + k
      → n < 64
      → get_elem? rs k ≡ some r
      → route_passes r e ≡ true
      → Covers e n (entry_loop e.endpoint i rs out)
  unfolding entry_loop
  entry_loop-Covers e n i k [] r out same h at p = cc
  entry_loop-Covers e n i zero (r' ∷ rs) r out same h at p =
      let here : n ≡ i = omega arith in
      let it : r' ≡ r = cc in
      rw (lt→ltb i 64 (omega arith)) (
        entry_loop-keeps e e.endpoint n (suc i) rs (add_route_to_entry e.endpoint i r' out)
          (rw (here, it) (add_route-Covers e i r out (omega arith) p)))
  entry_loop-Covers e n i (suc k) (r' ∷ rs) r out same h at p = rw (lt→ltb i 64 (omega arith)) (
      entry_loop-Covers e n (suc i) k rs r (add_route_to_entry e.endpoint i r' out) (omega arith) h
        at p)

  -- If the route at an index below 64 passes an event, then the entry computed for the event's
  -- endpoint has the route's bit, and its minimum priority is at most the event's or that of
  -- TRACE, whichever is greater.
  pub compute_cache_entry-Covers :
      (e : Event) (n : ℕ) (routes : List (Route Q)) (r : Route Q)
      → n < 64
      → get_elem? routes n ≡ some r
      → route_passes r e ≡ true
      → Covers e n (compute_cache_entry routes e.endpoint)
  unfolding compute_cache_entry
  compute_cache_entry-Covers e n routes r h at p =
      entry_loop-Covers e n 0 n routes r _ (omega arith) h at p
