-- ===== src/Crossbar/Submit.antt =====
-- `SinkCrossbar::submit`: which lanes an event reaches.
use sy_log.Crossbar.{
  Lane, SinkCrossbar, Submission, finished, waiting_at, push_lane, with_queue, submit_loop, submit,
}
use sy_log.Event.{Event}
use sy_log.Prelude.{
  ℕ, zero, suc, ◌+◌, ◌≤◌, ◌<◌, ◌≡◌, refl, ap, Bool, true, false, Option, none, some, List, [], ◌∷◌,
  ltb, not, ◌&&◌, ◌||◌, if◌then◌else◌, has_bit, get_elem?, arith, Bool-cases, ◌⊎◌, inl, inr,
}
use mathlib.Core.Option
use sy_log.Prelude.{sym, lt→ltb}
use sy_log.Queue.{WorkersEventQueue, Push, returned, waiting}
use sy_log.Workers.{BlockingQueue}

-- Where the loop stopped: before the lane that it waits for, or at the end of the mask.
abbrev pub reach : Submission → ℕ
reach (finished d) = 64
reach (waiting_at j d) = j

-- The lanes that the call is to serve.
abbrev pub selected : ℕ → ℕ → ℕ → Bool
selected from mask i = ltb i 64 && not (ltb i from) && has_bit mask i

module _ {Q : Type 0} (W : BlockingQueue Event Q) (e : Event) (accepting : Bool) where
  -- A lane after its own delivery strategy has had the event: nothing of any other lane matters.
  abbrev pub served : Lane Q → Lane Q
  served lane = elim (push_lane W lane e accepting) [
    | returned pushed q ↦ with_queue lane q
    | waiting ↦ lane
  ]

  Push-cases :
      (p : Push Q) → ((b : Bool) × (q : WorkersEventQueue Q) × (p ≡ returned b q)) ⊎ (p ≡ waiting)
  Push-cases (returned b q) = inl (b, q, refl)
  Push-cases waiting = inr refl

  module _ (from mask : ℕ) where
    abbrev pub loop : ℕ → List (Lane Q) → Bool → List (Lane Q) × Submission
    loop i lanes d = submit_loop W from i lanes e mask accepting d

    -- The four ways in which the loop's body goes on.
    abbrev pub Round : ℕ → Lane Q → List (Lane Q) → Bool → List (Lane Q) × Submission → Type 0
    Round i lane lanes d r =
        ((64 ≤ i) × (r ≡ (lane ∷ lanes, finished d)))
        ⊎ (((selected from mask i ≡ false)
              × (i < 64)
              × (r ≡ (lane ∷ (loop (suc i) lanes d).0, (loop (suc i) lanes d).1)))
            ⊎ (((b : Bool) × (q : WorkersEventQueue Q) × (selected from mask i ≡ true)
                  × (push_lane W lane e accepting ≡ returned b q)
                  × (r ≡ (
                    with_queue lane q ∷ (loop (suc i) lanes (d || b)).0,
                    (loop (suc i) lanes (d || b)).1,
                  )))
                ⊎ ((selected from mask i ≡ true)
                    × (push_lane W lane e accepting ≡ waiting)
                    × (r ≡ (lane ∷ lanes, waiting_at i d)))))

    pub round :
        (i : ℕ) (lane : Lane Q) (lanes : List (Lane Q)) (d : Bool)
        → Round i lane lanes d (loop i (lane ∷ lanes) d)
    unfolding submit_loop
    round i lane lanes d = elim (Bool-cases (ltb i 64)) [
      | inr end ↦ inl (ground arith, rw end)
      | inl more ↦ elim (Bool-cases (ltb i from || not (has_bit mask i))) [
        | inl skip ↦ inr (inl (ground arith, ground arith, rw (more, skip)))
        | inr serve ↦ elim (Push-cases (push_lane W lane e accepting)) [
          | inl (b, q, p) ↦ inr (inr (inl (b, q, ground arith, p, rw (more, serve, p))))
          | inr p ↦ inr (inr (inr (ground arith, p, rw (more, serve, p))))
        ]
      ]
    ]

    pub loop-nil : (i : ℕ) (d : Bool) → loop i [] d ≡ ([], finished d)
    unfolding submit_loop
    loop-nil i d = refl

    le-reach : (i : ℕ) (lanes : List (Lane Q)) (d : Bool) → i ≤ 64 → i ≤ reach (loop i lanes d).1
    le-reach i [] d h = rw (loop-nil i d) h
    le-reach i (lane ∷ lanes) d h = elim (round i lane lanes d) [
      | inl (end, r) ↦ rw r h
      | inr (inl (_, lt, r)) ↦ rw r (omega (arith, le-reach (suc i) lanes d lt))
      | inr (inr (inl (b, q, on, p, r))) ↦
          rw r (omega (arith, le-reach (suc i) lanes (d || b) (ground arith)))
      | inr (inr (inr (_, _, r))) ↦ rw r (omega arith)
    ]

    -- A lane after the loop: served if it is selected and the loop came to it.
    abbrev pub lane_after : ℕ → Submission → Lane Q → Lane Q
    lane_after n s lane = if selected from mask n && ltb n (reach s) then served lane else lane

    lane_after_unselected :
        (n : ℕ) (s : Submission) (lane : Lane Q)
        → selected from mask n ≡ false
        → lane_after n s lane ≡ lane
    lane_after_unselected n s lane h = rw h

    lane_after_beyond :
        (n : ℕ) (s : Submission) (lane : Lane Q) → reach s ≤ n → lane_after n s lane ≡ lane
    lane_after_beyond n s lane h = ground arith

    lane_after_served :
        (n : ℕ) (s : Submission) (lane : Lane Q) {b : Bool} {q : WorkersEventQueue Q}
        → selected from mask n ≡ true
        → n < reach s
        → push_lane W lane e accepting ≡ returned b q
        → lane_after n s lane ≡ with_queue lane q
    lane_after_served n s lane on h p = rw (on, lt→ltb n (reach s) h) (ground arith)

    map_beyond :
        (n : ℕ) (s : Submission) (o : Option (Lane Q))
        → reach s ≤ n
        → o ≡ Option.map (lane_after n s) o
    map_beyond n s none h = refl
    map_beyond n s (some lane) h = ap some (sym (lane_after_beyond n s lane h))

    -- What became of the lane at place `k`, where the loop began at index `i`.
    pub submit_loop-at :
        (i : ℕ) (lanes : List (Lane Q)) (d : Bool) (n k : ℕ)
        → n ≡ i + k
        → get_elem? (loop i lanes d).0 k
          ≡ Option.map (lane_after n (loop i lanes d).1) (get_elem? lanes k)
    submit_loop-at i [] d n k h = rw (loop-nil i d)
    submit_loop-at i (lane ∷ lanes) d n zero h =
        let same : n ≡ i = omega arith in
        elim (round i lane lanes d) [
          | inl (end, r) ↦
              rw r (ap some (sym (lane_after_beyond n (finished d) lane (omega arith))))
          | inr (inl (off, lt, r)) ↦
              rw r (
                ap some (sym (lane_after_unselected n (loop (suc i) lanes d).1 lane (rw same off))))
          | inr (inr (inl (b, q, on, p, r))) ↦ rw r (
              ap some (
                sym (
                  lane_after_served n (loop (suc i) lanes (d || b)).1 lane (rw same on)
                    (omega (arith, le-reach (suc i) lanes (d || b) (ground arith))) p)))
          | inr (inr (inr (on, p, r))) ↦
              rw r (ap some (sym (lane_after_beyond n (waiting_at i d) lane (omega arith))))
        ]
    submit_loop-at i (lane ∷ lanes) d n (suc k) h = elim (round i lane lanes d) [
      | inl (end, r) ↦ rw r (map_beyond n (finished d) (get_elem? lanes k) (omega arith))
      | inr (inl (off, lt, r)) ↦ rw r (submit_loop-at (suc i) lanes d n k (omega arith))
      | inr (inr (inl (b, q, on, p, r))) ↦
          rw r (submit_loop-at (suc i) lanes (d || b) n k (omega arith))
      | inr (inr (inr (on, p, r))) ↦
          rw r (map_beyond n (waiting_at i d) (get_elem? lanes k) (omega arith))
    ]

  -- After a submission every lane that is in the mask, lies below 64 and comes before the lane
  -- that the call waits for, if it waits, holds what its own strategy made of its own queue;
  -- every other lane is as it was.
  pub submit-at :
      (x : SinkCrossbar Q) (mask k : ℕ)
      → let r = submit W x e mask accepting in
        get_elem? r.0.lanes k ≡ Option.map (lane_after 0 mask k r.1) (get_elem? x.lanes k)
  unfolding submit
  submit-at x mask k = submit_loop-at 0 mask 0 x.lanes false k k (omega arith)
