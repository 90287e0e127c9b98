-- ===== src/Pipeline/Cache/Unordered.antt =====
-- The endpoint cache as the unordered map that it is in src/logger.cpp: a list of entries up to what
-- look-ups find in it.
pub mod LookUps
use mathlib.Core.Quot
use mathlib.Core.Quot.{Quot, Quot-set}
use sy_log.Pipeline.Cache.{
  CacheEntry, EndpointCache, Cached, find_entry, emplace, compute_cache_entry, refresh,
  cached_route_mask,
}
use sy_log.Prelude.{
  ℕ, ◌≡◌, refl, sym, ap, ap₂, ◌∙◌, Bool, true, false, Option, none, some, List, [], ◌∷◌, Bytes,
  bytes_eq, bytes_eq→≡, bytes_eq_refl, if◌then◌else◌, ◌⊎◌, inl, inr, arith, Bool-cases,
  Option-cases, if-cases,
}
use sy_log.Route.{Route}

-- What `emplace` leaves to find.
unfoldable pub or_else : Option CacheEntry → Option CacheEntry → Option CacheEntry
or_else none other = other
or_else (some v) other = some v

abbrev pub only_for : Bytes → CacheEntry → Bytes → Option CacheEntry
only_for ep v k = if bytes_eq ep k then some v else none

pub or_else-none : (f : Option CacheEntry) → or_else f none ≡ f
unfolding or_else
or_else-none none = refl
or_else-none (some v) = refl

pub find_entry-emplace :
    (k ep : Bytes) (v : CacheEntry) (cache : EndpointCache)
    → find_entry k (emplace ep v cache) ≡ or_else (find_entry k cache) (only_for ep v k)
unfolding find_entry emplace or_else
find_entry-emplace k ep v [] = refl
find_entry-emplace k ep v ((l, w) ∷ cache) =
    if-cases (λ c. find_entry k c ≡ or_else (find_entry k ((l, w) ∷ cache)) (only_for ep v k))
      (bytes_eq l ep) _ _
      (λ hit.
        there (bytes_eq l k) (find_entry k cache)
          (λ other. only_for_none (ap (λ e. bytes_eq e k) (sym (bytes_eq→≡ l ep hit)) ∙ other)))
      (λ miss.
        behind (find_entry k (emplace ep v cache)) (find_entry k cache) (bytes_eq l k)
          (find_entry-emplace k ep v cache))
  where
    only_for_none : bytes_eq ep k ≡ false → only_for ep v k ≡ none
    only_for_none h = ap (λ b. if b then some v else none) h

    there :
        (b : Bool) (f : Option CacheEntry)
        → (b ≡ false → only_for ep v k ≡ none)
        → (if b then some w else f) ≡ or_else (if b then some w else f) (only_for ep v k)
    there true f h = refl
    there false f h = sym (ap (or_else f) (h refl) ∙ or_else-none f)

    behind :
        (g f : Option CacheEntry) (b : Bool)
        → g ≡ or_else f (only_for ep v k)
        → (if b then some w else g) ≡ or_else (if b then some w else f) (only_for ep v k)
    behind g f true h = refl
    behind g f false h = h

-- Two caches in which each look-up finds the same.
abbrev pub SameFinds : EndpointCache → EndpointCache → Type 0
SameFinds c d = (ep : Bytes) → find_entry ep c ≡ find_entry ep d

abbrev pub UnorderedMap : Type 0
UnorderedMap = Quot SameFinds

pub found-IsSet : IsSet (Option CacheEntry)
found-IsSet = hlevel

unfoldable pub find : Bytes → UnorderedMap → Option CacheEntry
find ep = Quot.lift found-IsSet (find_entry ep) (λ c d h. h ep)

pub emplace-SameFinds :
    (ep : Bytes) (v : CacheEntry) (c d : EndpointCache)
    → SameFinds c d
    → SameFinds (emplace ep v c) (emplace ep v d)
emplace-SameFinds ep v c d h k =
    find_entry-emplace k ep v c
    ∙ ap (λ f. or_else f (only_for ep v k)) (h k)
    ∙ sym (find_entry-emplace k ep v d)

unfoldable pub insert : Bytes → CacheEntry → UnorderedMap → UnorderedMap
insert ep v =
    Quot.lift Quot-set (λ c. Quot.mk (emplace ep v c))
      (λ c d h. Quot.sound (emplace-SameFinds ep v c d h))

pub find-insert :
    (k ep : Bytes) (v : CacheEntry) (m : UnorderedMap)
    → find k (insert ep v m) ≡ or_else (find k m) (only_for ep v k)
unfolding find insert
find-insert k ep v = Quot.ind (λ m. found-IsSet _ _) (find_entry-emplace k ep v)
