-- ===== src/Pipeline/Cache/Fresh.antt =====
-- What the endpoint cache holds is what would be computed anew.
use sy_log.Pipeline.Cache.{
  CacheEntry, EndpointCache, Cached, find_entry, emplace, compute_cache_entry, refresh,
  cached_route_mask,
}
use sy_log.Prelude.{
  ◌≡◌, refl, sym, ap, ◌∙◌, true, some, List, [], ◌∷◌, Bytes, bytes_eq, bytes_eq→≡, ◌⊎◌, inl, inr,
  arith, Bool-cases, Option-cases,
}
use sy_log.Route.{Route}

module _ {Q : Type 0} (routes : List (Route Q)) where
  -- Each entry is the one that its endpoint has under the present routes.
  abbrev pub AllCurrent : EndpointCache → Type 0
  AllCurrent [] = Unit
  AllCurrent ((ep, v) ∷ cache) = (v ≡ compute_cache_entry routes ep) × AllCurrent cache

  -- The cache is marked for clearing, or current.
  abbrev pub IsCurrent : Cached → Type 0
  IsCurrent c = (c.dirty ≡ true) ⊎ AllCurrent c.entries

  pub find_entry-current :
      (ep : Bytes) (v : CacheEntry) (cache : EndpointCache)
      → AllCurrent cache
      → find_entry ep cache ≡ some v
      → v ≡ compute_cache_entry routes ep
  unfolding find_entry
  find_entry-current ep v [] a h = cc
  find_entry-current ep v ((k, w) ∷ cache) a h = elim (Bool-cases (bytes_eq k ep)) [
    | inl hit ↦
        let same = bytes_eq→≡ k ep hit in
        let found : w ≡ v = ground arith in sym found ∙ a.0 ∙ ap (compute_cache_entry routes) same
    | inr miss ↦ find_entry-current ep v cache a.1 (ground arith)
  ]

  pub emplace-current :
      (ep : Bytes) (cache : EndpointCache)
      → AllCurrent cache
      → AllCurrent (emplace ep (compute_cache_entry routes ep) cache)
  unfolding emplace
  emplace-current ep [] a = (refl, tt)
  emplace-current ep ((k, w) ∷ cache) a = elim (Bool-cases (bytes_eq k ep)) [
    | inl hit ↦ rw hit a
    | inr miss ↦ rw miss (a.0, emplace-current ep cache a.1)
  ]

  refresh-current : (c : Cached) → IsCurrent c → AllCurrent (refresh routes c).entries
  unfolding refresh
  refresh-current c h = elim (Bool-cases c.dirty) [
    | inl on ↦ rw on tt
    | inr off ↦ elim h [ inl on ↦ cc | inr a ↦ rw off a ]
  ]

  -- A look-up in a cache that is current or marked for clearing gives the entry that is computed
  -- from the present routes, and leaves a current cache.
  pub cached_route_mask_lem :
      (c : Cached) (ep : Bytes)
      → IsCurrent c
      → ((cached_route_mask routes c ep).0 ≡ compute_cache_entry routes ep)
        × AllCurrent (cached_route_mask routes c ep).1.entries
  unfolding cached_route_mask
  cached_route_mask_lem c ep h =
      let a = refresh-current c h in
      elim (Option-cases (find_entry ep (refresh routes c).entries)) [
        | inl missing ↦
            rw (missing, cached_route_mask) (refl, emplace-current ep (refresh routes c).entries a)
        | inr (v, found) ↦
            rw (found, cached_route_mask)
              (find_entry-current ep v (refresh routes c).entries a found, a)
      ]
