-- ===== src/Pipeline/Agreement.antt =====
-- An asynchronous submission comes, in the end, to what a synchronous one writes at once.
use sy_log.Crossbar.{Lane, Submission, finished, push_lane, with_queue}
use sy_log.Crossbar.Submit.{selected, loop, round, loop-nil}
use sy_log.Crossbar.Worker.{written_for, written_for-append}
use sy_log.Event.{Event}
use sy_log.Pipeline.Closing.{pending}
use sy_log.Pipeline.Invariant.{Serves}
use sy_log.Prelude.{
  ℕ, suc, ◌≤◌, ◌<◌, ◌≡◌, refl, sym, ap, ap₂, subst, ◌∙◌, Bool, true, false, Option, none, some,
  List, [], ◌∷◌, ◌++◌, append-nil, map, ◌||◌, All, if◌then◌else◌, le→ltb_false, arith, inl, inr,
}
use sy_log.Queue.{WorkersEventQueue, Push, returned, waiting, try_push}
use sy_log.Queue.Laws.{IsCounted, events, try_push-Pushed, try_push_roomy, push_blocking_lem}
use sy_log.Route.{
  Route, Strategy, Output, drop_when_full, block_when_full, custom, submit_with, process,
}
use sy_log.Workers.{BlockingQueue, QueueLaws}

module _ {Q : Type 0} where
  -- A route with one of the library's own strategies, or none.
  abbrev pub BuiltIn : Option (Strategy Q) → Type 0
  BuiltIn none = Unit
  BuiltIn (some drop_when_full) = Unit
  BuiltIn (some block_when_full) = Unit
  BuiltIn (some (custom name f)) = ⊥

  abbrev pub IsBuiltIn : Route Q → Type 0
  IsBuiltIn r = BuiltIn r.delivery_strategy

  abbrev pub HasRoom : Lane Q → Type 0
  HasRoom l = l.queue.size < l.queue.capacity

  queue_of : WorkersEventQueue Q → Push Q → WorkersEventQueue Q
  queue_of default (returned b q) = q
  queue_of default waiting = default

  returned-second :
      {b c : Bool} {q r : WorkersEventQueue Q}
      → ◌≡◌ {A = Push Q} (returned b q) (returned c r)
      → q ≡ r
  unfolding queue_of
  returned-second {q = q} h = ap (queue_of q) h

module _ {Q : Type 0} {W : BlockingQueue Event Q} (laws : QueueLaws W) (e : Event) where
  open laws use {closed}

  -- A queue with room takes the event, at its end.
  abbrev Takes : WorkersEventQueue Q → Bool → WorkersEventQueue Q → Type 0
  Takes q b q' = (b ≡ true) × (events laws q' ≡ events laws q ++ e ∷ [])

  take-roomy :
      (q : WorkersEventQueue Q)
      → IsCounted laws q
      → closed q.queue ≡ false
      → q.size < q.capacity
      → Takes q (try_push W q e).0 (try_push W q e).1
  take-roomy q c o room =
      let t = try_push-Pushed laws q e c in
      let ok_ = try_push_roomy laws q e room o in (ok_, (t.accepted ok_).0)

  push-roomy :
      (o : Option (Strategy Q)) (lane : Lane Q)
      → lane.route.delivery_strategy ≡ o
      → BuiltIn o
      → IsCounted laws lane.queue
      → closed lane.queue.queue ≡ false
      → HasRoom lane
      → push_lane W lane e true ≡ returned (try_push W lane.queue e).0 (try_push W lane.queue e).1
  unfolding push_lane submit_with
  push-roomy none lane same k c o room = ground arith
  push-roomy (some drop_when_full) lane same k c o room = ground arith
  push-roomy (some block_when_full) lane same k c o room =
      ground (arith, push_blocking_lem laws lane.queue e)
  push-roomy (some (custom name f)) lane same k c o room = elim k [ ]

  -- What each lane has pending once the event is submitted, from index `i` on.
  unfoldable pub pending_with : ℕ → ℕ → List (Lane Q) → List (List Output)
  pending_with mask i [] = []
  pending_with mask i (l ∷ ls) =
      (pending laws l ++ (if selected 0 mask i then process l.route e else []))
      ∷ pending_with mask (suc i) ls

  pending_with-beyond :
      (mask i : ℕ) (ls : List (Lane Q)) → 64 ≤ i → map (pending laws) ls ≡ pending_with mask i ls
  unfolding pending_with
  pending_with-beyond mask i [] h = refl
  pending_with-beyond mask i (l ∷ ls) h =
      ap₂ ◌∷◌ (rw (le→ltb_false i 64 h) (sym (append-nil (pending laws l))))
        (pending_with-beyond mask (suc i) ls (omega arith))

  -- The lane of a selected route has the event's output pending behind what it had.
  pending-served :
      (l : Lane Q) (q : WorkersEventQueue Q)
      → events laws q ≡ events laws l.queue ++ e ∷ []
      → pending laws (with_queue l q) ≡ pending laws l ++ process l.route e
  unfolding written_for
  pending-served l q h =
      ap (written_for l.route) h
      ∙ written_for-append l.route (events laws l.queue) (e ∷ [])
      ∙ ap (λ t. pending laws l ++ t) (append-nil (process l.route e))

  abbrev pub Submits : ℕ → ℕ → List (Lane Q) → List (Lane Q) × Submission → Type 0
  Submits mask i ls r =
      (map (pending laws) r.0 ≡ pending_with mask i ls) × ((d : Bool) × (r.1 ≡ finished d))

  module _ (running : Bool) (mask : ℕ) where
    pub submit_loop-Submits :
        (i : ℕ) (rs : List (Route Q)) (ls : List (Lane Q)) (d : Bool)
        → Serves laws running rs ls
        → All IsBuiltIn rs
        → All HasRoom ls
        → Submits mask i ls (loop W e true 0 mask i ls d)
    unfolding pending_with
    submit_loop-Submits i [] [] d s k room =
        subst (Submits mask i []) (sym (loop-nil W e true 0 mask i d)) (refl, (d, refl))
    submit_loop-Submits i [] (l ∷ ls) d s k room = elim s [ ]
    submit_loop-Submits i (r ∷ rs) [] d s k room = elim s [ ]
    submit_loop-Submits i (r ∷ rs) (l ∷ ls) d s k room =
        let goal = Submits mask i (l ∷ ls) in
        let push =
          push-roomy r.delivery_strategy l (ap (λ (t : Route Q). t.delivery_strategy) s.0) k.0
            s.1.counted s.1.open_ room.0 in
        let takes = take-roomy l.queue s.1.counted s.1.open_ room.0 in
        elim (round W e true 0 mask i l ls d) [
          | inl (end, h) ↦ subst goal (sym h) (pending_with-beyond mask i (l ∷ ls) end, (d, refl))
          | inr (inl (off, _, h)) ↦
              let rest = submit_loop-Submits (suc i) rs ls d s.2 k.1 room.1 in
              subst goal (sym h)
                (ap₂ ◌∷◌ (rw off (sym (append-nil (pending laws l)))) rest.0, rest.1)
          | inr (inr (inl (b, q, on, p, h))) ↦
              let rest = submit_loop-Submits (suc i) rs ls (d || b) s.2 k.1 room.1 in
              let same : (try_push W l.queue e).1 ≡ q = returned-second (sym push ∙ p) in
              subst goal (sym h)
                (ap₂ ◌∷◌ (rw on (pending-served l q (rw same at takes.1))) rest.0, rest.1)
          | inr (inr (inr (_, p, h))) ↦ cc (push, p)
        ]
