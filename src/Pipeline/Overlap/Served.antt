-- ===== src/Pipeline/Overlap/Served.antt =====
-- Which routes the crossbar serves after calls of `add_route` and `clear_routes` that overlap.
use sy_log.Crossbar
use sy_log.Crossbar.{SinkCrossbar, Lane, new_lane, start_lane}
use sy_log.Event.{Event}
use sy_log.Pipeline.{Pipeline, add_route}
use sy_log.Pipeline.Overlap.{
  Rerouting, adding, clearing, holding, returned, half, changed, Overlaps, begun, moved,
}
use sy_log.Prelude.{
  ℕ, ◌≡◌, refl, sym, ap, subst, ◌∙◌, List, [], ◌∷◌, ◌++◌, map, All, All-at, All-replaced, ◌⊎◌, inl,
  inr, if-cases,
}
use sy_log.Queue.{at_least_one}
use sy_log.Route.{Route}
use sy_log.Workers.{BlockingQueue}

module _ {Q : Type 0} where
  abbrev pub served : SinkCrossbar Q → List (Route Q)
  served x = map (λ (l : Lane Q). l.route) x.lanes

  abbrev pub In : List (Route Q) → List (List (Route Q)) → Type 0
  In routes [] = ⊥
  In routes (h ∷ history) = (routes ≡ h) ⊎ In routes history

  -- The call has not begun.
  abbrev pub IsFresh : Rerouting Q → Type 0
  IsFresh (adding r) = Unit
  IsFresh clearing = Unit
  IsFresh (holding routes) = ⊥
  IsFresh returned = ⊥

  abbrev pub HasReturned : Rerouting Q → Type 0
  HasReturned (adding r) = ⊥
  HasReturned clearing = ⊥
  HasReturned (holding routes) = ⊥
  HasReturned returned = Unit

  -- The routes after changes, of which the first is the last one made.
  abbrev pub newest : List (Route Q) → List (List (Route Q)) → List (Route Q)
  newest routes [] = routes
  newest routes (h ∷ history) = h

  -- A call that has its copy took it after one of the changes.
  abbrev pub HasCopy : List (List (Route Q)) → Rerouting Q → Type 0
  HasCopy history (adding r) = Unit
  HasCopy history clearing = Unit
  HasCopy history (holding routes) = In routes history
  HasCopy history returned = Unit

module _ {Q : Type 0} (W : BlockingQueue Event Q) where
  map-new_lane :
      (capacity : ℕ) (routes : List (Route Q))
      → map (λ (l : Lane Q). l.route) (map (new_lane W capacity) routes) ≡ routes
  unfolding new_lane
  map-new_lane capacity [] = refl
  map-new_lane capacity (r ∷ routes) = ap (◌∷◌ r) (map-new_lane capacity routes)

  map-start_lane :
      (lanes : List (Lane Q))
      → map (λ (l : Lane Q). l.route) (map start_lane lanes) ≡ map (λ (l : Lane Q). l.route) lanes
  unfolding start_lane
  map-start_lane [] = refl
  map-start_lane (l ∷ lanes) = ap (◌∷◌ l.route) (map-start_lane lanes)

  pub served-configure :
      (routes : List (Route Q)) (capacity : ℕ) (x : SinkCrossbar Q)
      → served (Crossbar.configure W routes capacity x).1 ≡ routes
  unfolding Crossbar.configure
  served-configure routes capacity x =
      if-cases (λ (x : SinkCrossbar Q). served x ≡ routes) x.running _ _
        (λ _.
          map-start_lane (map (new_lane W (at_least_one capacity)) routes)
          ∙ map-new_lane (at_least_one capacity) routes)
        (λ _. map-new_lane (at_least_one capacity) routes)

module _ {Q : Type 0} where
  In-append :
      (routes : List (Route Q)) (later history : List (List (Route Q)))
      → In routes history
      → In routes (later ++ history)
  In-append routes [] history h = h
  In-append routes (x ∷ later) history h = inr (In-append routes later history h)

  HasCopy-append :
      (later history : List (List (Route Q))) (t : Rerouting Q)
      → HasCopy history t
      → HasCopy (later ++ history) t
  HasCopy-append later history (adding r) h = tt
  HasCopy-append later history clearing h = tt
  HasCopy-append later history (holding routes) h = In-append routes later history h
  HasCopy-append later history returned h = tt

  All-HasCopy-append :
      (later history : List (List (Route Q))) (ts : List (Rerouting Q))
      → All (HasCopy history) ts
      → All (HasCopy (later ++ history)) ts
  All-HasCopy-append later history [] h = tt
  All-HasCopy-append later history (t ∷ ts) h =
      (HasCopy-append later history t h.0, All-HasCopy-append later history ts h.1)

  fresh-HasCopy : (ts : List (Rerouting Q)) → All IsFresh ts → All (HasCopy []) ts
  fresh-HasCopy [] h = tt
  fresh-HasCopy (adding r ∷ ts) h = (tt, fresh-HasCopy ts h.1)
  fresh-HasCopy (clearing ∷ ts) h = (tt, fresh-HasCopy ts h.1)
  fresh-HasCopy (holding routes ∷ ts) h = elim h.0 [ ]
  fresh-HasCopy (returned ∷ ts) h = elim h.0 [ ]

  abbrev pub NoneReturned : List (Rerouting Q) → Type 0
  NoneReturned = All (λ t. ¬ HasReturned t)

  fresh-NoneReturned : (ts : List (Rerouting Q)) → All IsFresh ts → NoneReturned ts
  fresh-NoneReturned [] h = tt
  fresh-NoneReturned (adding r ∷ ts) h = (λ x. x, fresh-NoneReturned ts h.1)
  fresh-NoneReturned (clearing ∷ ts) h = (λ x. x, fresh-NoneReturned ts h.1)
  fresh-NoneReturned (holding routes ∷ ts) h = elim h.0 [ ]
  fresh-NoneReturned (returned ∷ ts) h = elim h.0 [ ]

  -- What the lanes serve: the routes of the start as long as no call has returned, and otherwise
  -- those after one of the changes.
  abbrev pub Serving :
      List (Route Q) → List (Route Q) → List (Rerouting Q) → List (List (Route Q)) → Type 0
  Serving start lanes ts history = (NoneReturned ts × (lanes ≡ start)) ⊎ In lanes history

module _ {Q : Type 0} (W : BlockingQueue Event Q) where
  half-Serving :
      (start : List (Route Q)) (p : Pipeline Q) (xs ys : List (Rerouting Q)) (t : Rerouting Q)
      (history : List (List (Route Q)))
      → Serving start (served p.crossbar) (xs ++ t ∷ ys) history
      → HasCopy history t
      → Serving start
          (served (half W p t).1.crossbar)
          (xs ++ (half W p t).2 ∷ ys)
          (changed W p t ++ history)
        × HasCopy (changed W p t ++ history) (half W p t).2
  unfolding half changed
  half-Serving start p xs ys (adding r) history s h = (
    elim s [
      | inl (none_, same) ↦
          inl (All-replaced (λ t. ¬ HasReturned t) xs ys (adding r) _ (λ x. x) none_, same)
      | inr i ↦ inr (inr i)
    ],
    inl refl,
  )
  half-Serving start p xs ys clearing history s h = (
    elim s [
      | inl (none_, same) ↦
          inl (All-replaced (λ t. ¬ HasReturned t) xs ys clearing _ (λ x. x) none_, same)
      | inr i ↦ inr (inr i)
    ],
    inl refl,
  )
  half-Serving start p xs ys (holding routes) history s h = (
    inr (
        subst (λ rs. In rs history)
          (sym (served-configure W routes p.cfg.queue_capacity p.crossbar)) h),
    tt,
  )
  half-Serving start p xs ys returned history s h = (s, tt)

  half-newest :
      (start : List (Route Q)) (p : Pipeline Q) (t : Rerouting Q) (history : List (List (Route Q)))
      → p.routes ≡ newest start history
      → (half W p t).1.routes ≡ newest start (changed W p t ++ history)
  unfolding half changed
  half-newest start p (adding r) history h = refl
  half-newest start p clearing history h = refl
  half-newest start p (holding routes) history h = h
  half-newest start p returned history h = h

  Overlaps-HasCopy :
      (start : Pipeline Q) (calls : List (Rerouting Q)) (p : Pipeline Q) (ts : List (Rerouting Q))
      (history : List (List (Route Q)))
      → served start.crossbar ≡ start.routes
      → All IsFresh calls
      → Overlaps W start calls p ts history
      → (p.routes ≡ newest start.routes history)
        × Serving start.routes (served p.crossbar) ts history
        × All (HasCopy history) ts
  Overlaps-HasCopy start calls _ _ _ same fresh begun =
      (refl, inl (fresh-NoneReturned calls fresh, same), fresh-HasCopy calls fresh)
  Overlaps-HasCopy start calls _ _ _ same fresh (moved {p = p} {history = history} xs ys t r) =
      let (now, serving, copies) =
        Overlaps-HasCopy start calls p (xs ++ t ∷ ys) history same fresh r in
      let later = changed W p t in
      let (serving', copy) =
        half-Serving start.routes p xs ys t history serving
          (All-at (HasCopy history) xs ys t copies) in
      (
        half-newest start.routes p t history now,
        serving',
        All-replaced (HasCopy (later ++ history)) xs ys t (half W p t).2 copy
            (All-HasCopy-append later history (xs ++ t ∷ ys) copies),
      )

  -- Calls of `add_route` and `clear_routes` that have not begun overlap, each with its two locked
  -- sections in any interleaving, on a pipeline whose lanes serve its routes. At each point the
  -- pipeline's routes are those after the latest change, or those of the start if there was none;
  -- and either no call has returned and the lanes serve, in order, the routes of the start, or
  -- the lanes serve, in order, the routes as they were after one of the changes.
  pub Overlaps-served :
      (start : Pipeline Q) (calls : List (Rerouting Q)) (p : Pipeline Q) (ts : List (Rerouting Q))
      (history : List (List (Route Q)))
      → served start.crossbar ≡ start.routes
      → All IsFresh calls
      → Overlaps W start calls p ts history
      → (p.routes ≡ newest start.routes history)
        × ((NoneReturned ts × (served p.crossbar ≡ start.routes)) ⊎ In (served p.crossbar) history)
  Overlaps-served start calls p ts history same fresh r =
      let h = Overlaps-HasCopy start calls p ts history same fresh r in (h.0, h.1)

  -- The two halves of a call, one after the other, are the call.
  pub half-add_route :
      (p : Pipeline Q) (r : Route Q)
      → let (first, p', t) = half W p (adding r) in
        let (second, p'', t') = half W p' t in
        ((first ++ second, p'') ≡ add_route W r p) × (t' ≡ returned)
  unfolding half add_route
  half-add_route p r = (refl, refl)

  -- On any pipeline, two calls of `add_route` can overlap so that both have returned and the
  -- pipeline has both routes, but the crossbar has no lane for the second one.
  pub Overlaps-lost_lane :
      (start : Pipeline Q) (r s : Route Q)
      → (p : Pipeline Q) × (history : List (List (Route Q))) × Overlaps W start
          (adding r ∷ adding s ∷ [])
          p
          (returned ∷ returned ∷ [])
          history
        × (p.routes ≡ (start.routes ++ r ∷ []) ++ s ∷ [])
        × (served p.crossbar ≡ start.routes ++ r ∷ [])
  unfolding half changed
  Overlaps-lost_lane start r s =
      let first = start.routes ++ r ∷ [] in
      let both = first ++ s ∷ [] in
      let run = moved [] (returned ∷ []) (holding first) (
        moved (holding first ∷ []) [] (holding both)
          (moved (holding first ∷ []) [] (adding s) (moved [] (adding s ∷ []) (adding r) begun))) in
      (_, _, run, refl, served-configure W first _ _)
