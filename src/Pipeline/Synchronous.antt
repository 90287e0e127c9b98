-- ===== src/Pipeline/Synchronous.antt =====
-- `Pipeline::submit` where the event is written on the calling thread.
use sy_log.Event.{Event}
use sy_log.Filter.{all_pass}
use sy_log.Host.{Host}
use sy_log.Pipeline.{Pipeline, by_caller, done, submit, unrouted, async_mode}
use sy_log.Pipeline.Cache.{compute_cache_entry}
use sy_log.Pipeline.Cache.Fresh.{cached_route_mask_lem}
use sy_log.Pipeline.Dispatch.{everywhere, dispatch_sync-everywhere, process_rejected}
use sy_log.Pipeline.Invariant.{IsSound}
use sy_log.Prelude.{
  ℕ, zero, suc, ◌≡◌, ◌∙◌, refl, Bool, true, false, not, ◌||◌, ◌==◌, List, [], ◌∷◌, if◌then◌else◌,
  Bool-cases, inl, inr, All,
}
use sy_log.Route.{Route, route_passes}
use sy_log.Workers.{BlockingQueue, QueueLaws}

module _ {Q : Type 0} {W : BlockingQueue Event Q} (laws : QueueLaws W) (host : Host) where
  -- Take a sound pipeline and an event that is to be written at once, since it or the
  -- configuration asks for that or the pipeline accepts nothing. Then `submit` returns and leaves
  -- the crossbar as it was, and its effects are: with no route in the event's mask, those of an
  -- unrouted event; otherwise none if a global filter rejects the event, and if none does what
  -- the first 64 routes write, each asked on its own. So with a route in the mask an event that
  -- every route rejects is written nowhere, and the fallback does not get it.
  pub submit_sync :
      (e : Event) (force_sync : Bool) (p : Pipeline Q)
      → IsSound laws p
      → (not (async_mode p.cfg e force_sync) || not p.accepting) ≡ true
      → let r = submit W host e force_sync p in
        (r.0 ≡ (
          if (compute_cache_entry p.routes e.endpoint).route_mask == 0
          then unrouted W host e
          else if all_pass p.global_filters e
          then by_caller (everywhere 64 p.routes e) ∷ []
          else []))
        × (r.1 ≡ done)
        × (r.2.crossbar ≡ p.crossbar)
  unfolding submit
  submit_sync e force_sync p s sync =
      let look = (cached_route_mask_lem p.routes p.cache e.endpoint s.current).0 in
      let same = dispatch_sync-everywhere p.routes e in
      elim (Bool-cases ((compute_cache_entry p.routes e.endpoint).route_mask == 0)) [
        | inl none_ ↦ rw (look, none_) (refl, refl, refl)
        | inr some_ ↦ elim (Bool-cases (all_pass p.global_filters e)) [
          | inl passes ↦ rw (look, some_, passes, sync, same) (refl, refl, refl)
          | inr fails ↦ rw (look, some_, fails) (refl, refl, refl)
        ]
      ]

  everywhere_rejected :
      (n : ℕ) (rs : List (Route Q)) (e : Event)
      → All (λ r. route_passes r e ≡ false) rs
      → everywhere n rs e ≡ []
  unfolding everywhere
  everywhere_rejected zero rs e h = refl
  everywhere_rejected (suc n) [] e h = refl
  everywhere_rejected (suc n) (r ∷ rs) e h =
      rw (process_rejected r e h.0) (everywhere_rejected n rs e h.1)

  -- Take a sound pipeline and an event, of whatever severity, that is to be written at once. If
  -- its mask has a route, but the filters of every route reject the event, then `submit` returns,
  -- leaves the crossbar as it was and writes nothing: neither to a sink nor, as it does with an
  -- empty mask, to the emergency fallback.
  pub submit_sync_silent :
      (e : Event) (force_sync : Bool) (p : Pipeline Q)
      → IsSound laws p
      → (not (async_mode p.cfg e force_sync) || not p.accepting) ≡ true
      → ((compute_cache_entry p.routes e.endpoint).route_mask == 0) ≡ false
      → All (λ r. route_passes r e ≡ false) p.routes
      → let r = submit W host e force_sync p in
        (r.0 ≡ (if all_pass p.global_filters e then by_caller [] ∷ [] else []))
        × (r.1 ≡ done)
        × (r.2.crossbar ≡ p.crossbar)
  submit_sync_silent e force_sync p s sync some_ rejected =
      let whole = submit_sync e force_sync p s sync in
      (whole.0 ∙ rw (some_, everywhere_rejected 64 p.routes e rejected) refl, whole.1, whole.2)
