-- ===== src/Pipeline/Equivalence.antt =====
-- Asynchronous delivery followed by `close` against synchronous dispatch.
use sy_log.Crossbar.{Lane, SinkCrossbar, Submission, finished}
use sy_log.Crossbar
use sy_log.Crossbar.Submit.{selected}
use sy_log.Crossbar.Worker.{written_for}
use sy_log.Event.{Event}
use sy_log.Filter.{all_pass}
use sy_log.Host.{Host}
use sy_log.Pipeline.{
  Pipeline, Effect, submitted, done, by_lanes, close, submit, async_mode, dispatch_sync,
}
use sy_log.Pipeline.Agreement.{IsBuiltIn, HasRoom, pending_with, submit_loop-Submits}
use sy_log.Pipeline.Cache.{compute_cache_entry}
use sy_log.Pipeline.Cache.Covers.{compute_cache_entry-Covers}
use sy_log.Pipeline.Cache.Fresh.{cached_route_mask_lem}
use sy_log.Pipeline.Closing.{pending, close_drains}
use sy_log.Pipeline.Dispatch.{
  everywhere, dispatch_sync-everywhere, first_index, next_index, zero_index,
}
use sy_log.Pipeline.Invariant.{Serves, IsSound}
use sy_log.Pipeline.Upkeep.{submit-IsSound}
use mathlib.Core.List.{flatten}
use sy_log.Prelude.{
  ℕ, zero, suc, ◌+◌, ◌≤◌, ◌<◌, ◌≡◌, refl, sym, ap, ap₂, subst, ◌∙◌, Bool, true, false, some, List,
  [], ◌∷◌, ◌++◌, map, ◌==◌, All, if◌then◌else◌, has_bit, ltb, ltb→lt, lt→ltb, le→ltb_false, arith,
  inl, inr, ◌⊎◌, Bool-cases, get_elem?,
}
use sy_log.Queue.Laws.{events}
use sy_log.Route.{Route, Output, process, route_passes}
use sy_log.Workers.{BlockingQueue, QueueLaws}

module _ {Q : Type 0} {W : BlockingQueue Event Q} (laws : QueueLaws W) (e : Event) where
  -- What each lane has pending if every route below index 64 is asked about the event.
  unfoldable pub pending_everywhere : ℕ → List (Lane Q) → List (List Output)
  pending_everywhere i [] = []
  pending_everywhere i (l ∷ ls) =
      (pending laws l ++ (if ltb i 64 then process l.route e else []))
      ∷ pending_everywhere (suc i) ls

  -- The mask has the bit of every route below 64 that passes the event.
  abbrev CoversFrom : ℕ → ℕ → List (Route Q) → Type 0
  CoversFrom mask i rs =
      (k : ℕ) (r : Route Q)
      → i + k < 64
      → get_elem? rs k ≡ some r
      → route_passes r e ≡ true
      → has_bit mask (i + k) ≡ true

  rejected : (r : Route Q) → route_passes r e ≡ false → process r e ≡ []
  unfolding process
  rejected r h = ground arith

  chosen :
      (r : Route Q) (mask i : ℕ)
      → (i < 64 → route_passes r e ≡ true → has_bit mask i ≡ true)
      → (if selected 0 mask i then process r e else []) ≡ (if ltb i 64 then process r e else [])
  chosen r mask i h = elim (Bool-cases (ltb i 64)) [
    | inr end ↦ rw end
    | inl more ↦ elim (Bool-cases (route_passes r e)) [
      | inl passes ↦ rw (more, h (ltb→lt i 64 more) passes) (ground arith)
      | inr fails ↦ rw (rejected r fails) (ground arith)
    ]
  ]

  pending_with-everywhere :
      (running : Bool) (mask i : ℕ) (rs : List (Route Q)) (ls : List (Lane Q))
      → Serves laws running rs ls
      → CoversFrom mask i rs
      → pending_with laws e mask i ls ≡ pending_everywhere i ls
  unfolding pending_with pending_everywhere
  pending_with-everywhere running mask i [] [] s c = refl
  pending_with-everywhere running mask i [] (l ∷ ls) s c = elim s [ ]
  pending_with-everywhere running mask i (r ∷ rs) [] s c = elim s [ ]
  pending_with-everywhere running mask i (r ∷ rs) (l ∷ ls) s c =
      ap₂ ◌∷◌
        (ap (λ t. pending laws l ++ t)
          (chosen l.route mask i (λ h passes.
            subst (λ t. has_bit mask t ≡ true) (first_index i)
              (c 0 r (omega arith) refl
                (subst (λ (t : Route Q). route_passes t e ≡ true) s.0 passes)))))
        (pending_with-everywhere running mask (suc i) rs ls s.2 (λ k r' h at passes.
          subst (λ t. has_bit mask t ≡ true) (next_index i k)
            (c (suc k) r' (omega arith) at passes)))

  -- Take a sound pipeline that accepts events, and an event that is to be queued, that the global
  -- filters pass and whose mask is not zero, where every route has a delivery strategy of the
  -- library's and every lane has room. Then `submit` returns with no effect of its own, runs on
  -- or not as before, and every lane below 64 has what its route writes for the event pending
  -- behind what it had.
  pub submit-pending_everywhere :
      (host : Host) (force_sync : Bool) (p : Pipeline Q)
      → IsSound laws p
      → p.accepting ≡ true
      → async_mode p.cfg e force_sync ≡ true
      → all_pass p.global_filters e ≡ true
      → ((compute_cache_entry p.routes e.endpoint).route_mask == 0) ≡ false
      → All IsBuiltIn p.routes
      → All HasRoom p.crossbar.lanes
      → let r = submit W host e force_sync p in
        (r.0 ≡ [])
        × (r.1 ≡ done)
        × (map (pending laws) r.2.crossbar.lanes ≡ pending_everywhere 0 p.crossbar.lanes)
        × (r.2.running ≡ p.running)
  unfolding submit Crossbar.submit
  submit-pending_everywhere host force_sync p s accepting async global routed own room =
      let look = (cached_route_mask_lem p.routes p.cache e.endpoint s.current).0 in
      let mask = (compute_cache_entry p.routes e.endpoint).route_mask in
      let subs =
        submit_loop-Submits laws e p.running mask 0 p.routes p.crossbar.lanes false s.serves own
          room in
      let covers =
        λ (k : ℕ) (r : Route Q) (h : 0 + k < 64) (at : get_elem? p.routes k ≡ some r)
            (passes : route_passes r e ≡ true).
          subst (λ t. has_bit mask t ≡ true) (zero_index k)
            (compute_cache_entry-Covers e k p.routes r (omega arith) at passes).0 in
      let all =
        pending_with-everywhere p.running mask 0 p.routes p.crossbar.lanes s.serves covers in
      rw (look, routed, global, async, accepting) (refl, ap submitted subs.1.1, subs.0 ∙ all, refl)

  abbrev IsIdle : Lane Q → Type 0
  IsIdle l = events laws l.queue ≡ []

  idle_head : (l : Lane Q) (out : List Output) → IsIdle l → pending laws l ++ out ≡ out
  unfolding written_for
  idle_head l out h = ap (λ t. written_for l.route t ++ out) h

  flatten-everywhere :
      (running : Bool) (n i : ℕ) (rs : List (Route Q)) (ls : List (Lane Q))
      → i + n ≡ 64 ⊎ ((n ≡ 0) × (64 ≤ i))
      → Serves laws running rs ls
      → All IsIdle ls
      → flatten (pending_everywhere i ls) ≡ everywhere n rs e
  unfolding pending_everywhere everywhere flatten
  flatten-everywhere running zero i [] [] h s idle = refl
  flatten-everywhere running (suc n) i [] [] h s idle = refl
  flatten-everywhere running n i [] (l ∷ ls) h s idle = elim s [ ]
  flatten-everywhere running n i (r ∷ rs) [] h s idle = elim s [ ]
  flatten-everywhere running zero i (r ∷ rs) (l ∷ ls) h s idle =
      rw (le→ltb_false i 64 (omega arith)) (
        ap₂ ◌++◌ (idle_head l [] idle.0)
          (flatten-everywhere running zero (suc i) rs ls (inr (refl, omega arith)) s.2 idle.1))
  flatten-everywhere running (suc n) i (r ∷ rs) (l ∷ ls) h s idle = rw (lt→ltb i 64 (omega arith)) (
      ap₂ ◌++◌ (idle_head l (process l.route e) idle.0 ∙ ap (λ (t : Route Q). process t e) s.0)
        (flatten-everywhere running n (suc i) rs ls (inl (omega arith)) s.2 idle.1))

  -- Take a sound pipeline that runs, accepts events and has nothing queued, and an event that is
  -- to be queued, that the global filters pass and whose mask is not zero, where every route has
  -- a delivery strategy of the library's and every lane has room. Then the first effect of
  -- `close` after the submission is what the lanes write, and that is, lane after lane, what the
  -- synchronous dispatch under the computed mask writes.
  pub close-submit-dispatch_sync :
      (host : Host) (force_sync : Bool) (p : Pipeline Q)
      → IsSound laws p
      → p.running ≡ true
      → p.accepting ≡ true
      → async_mode p.cfg e force_sync ≡ true
      → all_pass p.global_filters e ≡ true
      → ((compute_cache_entry p.routes e.endpoint).route_mask == 0) ≡ false
      → All IsBuiltIn p.routes
      → All HasRoom p.crossbar.lanes
      → All IsIdle p.crossbar.lanes
      → (out : List (List Output)) × (later : List Effect) × ((close W
            (submit W host e force_sync p).2).0
          ≡ by_lanes out ∷ later)
        × (flatten out
            ≡ dispatch_sync p.routes e (compute_cache_entry p.routes e.endpoint).route_mask)
  close-submit-dispatch_sync host force_sync p s running accepting async global routed own room
        idle =
      let sub =
        submit-pending_everywhere host force_sync p s accepting async global routed own room in
      let sound = submit-IsSound laws host e force_sync p s in
      (
        _,
        _,
        close_drains laws (submit W host e force_sync p).2 sound (sub.3 ∙ running),
        ap flatten sub.2
            ∙ flatten-everywhere p.running 64 0 p.routes p.crossbar.lanes (inl refl) s.serves idle
            ∙ sym (dispatch_sync-everywhere p.routes e),
      )
