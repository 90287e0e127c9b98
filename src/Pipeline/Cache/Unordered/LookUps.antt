-- ===== src/Pipeline/Cache/Unordered/LookUps.antt =====
-- Look-ups as the unordered map sees them: src/logger.cpp, `cached_route_mask_`.
use mathlib.Core.Quot.{Quot}
use sy_log.Pipeline.Cache.{
  CacheEntry, EndpointCache, Cached, find_entry, emplace, compute_cache_entry, refresh,
  cached_route_mask,
}
use sy_log.Prelude.{
  ℕ, ◌≡◌, refl, sym, ap, ◌∙◌, Bool, true, false, Option, none, some, List, [], Bytes, bytes_eq,
  bytes_eq→≡, if◌then◌else◌, inl, inr, Bool-cases, Option-cases,
}
use sy_log.Route.{Route}
use sy_log.Pipeline.Cache.Unordered.{
  UnorderedMap, or_else, or_else-none, only_for, find, insert, find-insert,
}

-- The map of a cache: one that is marked for clearing stands for the empty map.
abbrev pub map_of : Cached → UnorderedMap
map_of c = if c.dirty then Quot.mk [] else Quot.mk c.entries

-- The entry that was found, or another.
unfoldable pub value : CacheEntry → Option CacheEntry → CacheEntry
value v none = v
value v (some w) = w

module _ {Q : Type 0} (routes : List (Route Q)) where
  -- A look-up as the map sees it.
  unfoldable pub look_up : Bytes → UnorderedMap → CacheEntry × UnorderedMap
  look_up ep m =
      let computed = compute_cache_entry routes ep in
      elim (find ep m) [ some v ↦ (v, m) | none ↦ (computed, insert ep computed m) ]

  -- The cache and the map agree on a look-up.
  abbrev Agrees : Cached → Bytes → Type 0
  Agrees c ep =
      let (v, c') = cached_route_mask routes c ep in look_up ep (map_of c) ≡ (v, map_of c')

  marked-Agrees :
      (entries : EndpointCache) (minimum : ℕ) (ep : Bytes)
      → Agrees (record { dirty = true; entries = entries; global_min_priority = minimum }) ep
  unfolding cached_route_mask look_up refresh find insert find_entry emplace
  marked-Agrees entries minimum ep = refl

  clean-Agrees :
      (entries : EndpointCache) (minimum : ℕ) (ep : Bytes)
      → Agrees (record { dirty = false; entries = entries; global_min_priority = minimum }) ep
  unfolding cached_route_mask look_up refresh find insert
  clean-Agrees entries minimum ep = elim (Option-cases (find_entry ep entries)) [
    | inl missing ↦ rw (missing, cached_route_mask, look_up) refl
    | inr (v, found) ↦ rw (found, cached_route_mask, look_up) refl
  ]

  -- The look-up of the map is that of the cache.
  cached_route_mask-look_up :
      (c : Cached) (ep : Bytes)
      → let (v, c') = cached_route_mask routes c ep in look_up ep (map_of c) ≡ (v, map_of c')
  cached_route_mask-look_up c ep = agrees c.dirty
    where
      agrees : (dirty : Bool) → Agrees (record c { dirty = dirty }) ep
      agrees true = marked-Agrees c.entries c.global_min_priority ep
      agrees false = clean-Agrees c.entries c.global_min_priority ep

  look_up-value :
      (ep : Bytes) (m : UnorderedMap)
      → (look_up ep m).0 ≡ value (compute_cache_entry routes ep) (find ep m)
  unfolding look_up value
  look_up-value ep m = elim (Option-cases (find ep m)) [
    | inl missing ↦ rw (missing, look_up, value) refl
    | inr (v, found) ↦ rw (found, look_up, value) refl
  ]

  abbrev computed : Bytes → CacheEntry
  computed ep = compute_cache_entry routes ep

  -- An entry that is there stays.
  kept :
      (ep k : Bytes) (f : Option CacheEntry) (v w : CacheEntry)
      → (ep ≡ k → f ≡ some v)
      → f ≡ or_else f (only_for ep w k)
  unfolding or_else
  kept ep k f v w h = elim (Bool-cases (bytes_eq ep k)) [
    | inl same ↦
        h (bytes_eq→≡ ep k same)
        ∙ ap (λ g. or_else g (only_for ep w k)) (sym (h (bytes_eq→≡ ep k same)))
    | inr differs ↦
        sym (or_else-none f) ∙ ap (or_else f) (sym (ap (λ b. if b then some w else none) differs))
  ]

  -- The map after a look-up, by what is found in it.
  find-look_up :
      (k ep : Bytes) (m : UnorderedMap)
      → find k (look_up ep m).1 ≡ or_else (find k m) (only_for ep (computed ep) k)
  unfolding look_up
  find-look_up k ep m = elim (Option-cases (find ep m)) [
    | inl missing ↦ rw (missing, look_up) (find-insert k ep (computed ep) m)
    | inr (v, found) ↦
        rw (found, look_up)
          (kept ep k (find k m) v (computed ep) (λ same. ap (λ e. find e m) (sym same) ∙ found))
  ]

  -- What is found afterwards: the entry that the look-up gave, and for other endpoints what was.
  found_afterwards :
      (k ep : Bytes) (m : UnorderedMap)
      → or_else (find k m) (only_for ep (computed ep) k)
        ≡ (if bytes_eq ep k then some (value (computed ep) (find ep m)) else find k m)
  unfolding or_else value
  found_afterwards k ep m = elim (Bool-cases (bytes_eq ep k)) [
    | inl same ↦
        ap (or_else (find k m)) (ap (λ b. if b then some (computed ep) else none) same)
        ∙ there (find k m)
        ∙ ap (λ e. some (value (computed ep) (find e m))) (sym (bytes_eq→≡ ep k same))
        ∙ sym (ap (λ b. if b then some (value (computed ep) (find ep m)) else find k m) same)
    | inr differs ↦
        ap (or_else (find k m)) (ap (λ b. if b then some (computed ep) else none) differs)
        ∙ or_else-none (find k m)
        ∙ sym (ap (λ b. if b then some (value (computed ep) (find ep m)) else find k m) differs)
  ]
    where
      there :
          (f : Option CacheEntry) → or_else f (some (computed ep)) ≡ some (value (computed ep) f)
      there none = refl
      there (some v) = refl

  -- Of a cache, whether current or not, see only the unordered map of its entries: the quotient
  -- of the lists of entries by what look-ups find in them, and the empty map where the cache is
  -- marked for clearing. A look-up by `cached_route_mask_` of an endpoint returns the entry that
  -- the map has for it, or else the one computed from the routes; and the map afterwards has that
  -- entry for the endpoint, and for every other endpoint what it had.
  pub cached_route_mask-find :
      (c : Cached) (ep k : Bytes)
      → let (v, c') = cached_route_mask routes c ep in
        (v ≡ value (compute_cache_entry routes ep) (find ep (map_of c)))
        × (find k (map_of c') ≡ (if bytes_eq ep k then some v else find k (map_of c)))
  cached_route_mask-find c ep k =
      let agrees = cached_route_mask-look_up c ep in
      let m = map_of c in
      let given = sym (ap (λ (r : CacheEntry × UnorderedMap). r.0) agrees) ∙ look_up-value ep m in
      (
        given,
        sym (ap (λ (r : CacheEntry × UnorderedMap). find k r.1) agrees)
            ∙ find-look_up k ep m
            ∙ found_afterwards k ep m
            ∙ ap (λ v. if bytes_eq ep k then some v else find k m) (sym given),
      )
