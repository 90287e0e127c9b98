-- ===== src/Crossbar/Threads/Leaves.antt =====
-- How far the worker of a closed queue is from its end: src/async/sink_crossbar.cpp, `lane_loop_`.
use sy_log.Crossbar.Threads.{
  Worker, calling, dozing, popped, notifying_one, processing, checking, left, work,
}
use sy_log.Crossbar.Threads.Work.{shut, has_left}
use sy_log.Event.{Event}
use sy_log.Prelude.{
  ℕ, ◌+◌, ◌*◌, ◌<◌, ◌≤◌, ◌≡◌, ap, Bool, true, false, List, length, if◌then◌else◌, arith, List-cases,
  inl, inr,
}
use sy_log.Queue.Threads.{Shared}
use sy_log.Queue.Threads.Slots.{inside}
use sy_log.Route.{Route, Output}
use sy_log.Workers.{PopResult-cases, BlockingQueue, QueueLaws}

-- The worker's own part of a notification.
unfoldable pub go_on : Worker → Worker
go_on (calling draining) = calling draining
go_on dozing = dozing
go_on (popped draining e) = popped draining e
go_on (notifying_one draining e) = processing draining e
go_on (processing draining e) = processing draining e
go_on checking = checking
go_on left = left

-- How far a place is from the end.
unfoldable pub rank : Worker → ℕ
rank (calling draining) = if draining then 1 else 3
rank dozing = 4
rank (popped draining e) = if draining then 3 else 5
rank (notifying_one draining e) = if draining then 3 else 5
rank (processing draining e) = if draining then 2 else 4
rank checking = 2
rank left = 0

module _ {Q : Type 0} {W : BlockingQueue Event Q} (laws : QueueLaws W) (route : Route Q) where
  open laws use {contents, closed}

  abbrev pub distance : Shared Q → Worker → ℕ
  distance m w = 3 * length (inside laws m) + rank w

  abbrev pub Nears : Shared Q → Worker → Shared Q × Worker × List Output → Type 0
  Nears m w r = distance r.0 (go_on r.1) < distance m w

  calling-Nears :
      (drain draining : Bool) (m : Shared Q)
      → shut laws m ≡ true
      → Nears m (calling draining) (work W route drain m (calling draining))
  unfolding work rank go_on
  calling-Nears drain false m closed_ = elim (PopResult-cases (W.pop m.events.queue m.stop).0) [
    | inl (e, got) ↦
        let law = laws.pop_ok m.events.queue m.stop e got in rw got (omega (arith, ap length law.0))
    | inr (inl over) ↦
        let law = laws.pop_ended m.events.queue m.stop over in
        rw over (omega (arith, ap length law.0))
    | inr (inr asleep) ↦
        let law = laws.pop_waits m.events.queue m.stop asleep in absurd (cc (law.1, closed_))
  ]
  calling-Nears drain true m closed_ = elim (List-cases (inside laws m)) [
    | inl empty ↦
        let law = laws.try_pop_empty m.events.queue empty in
        rw law.0 (omega (arith, ap length law.1, ap length empty))
    | inr (e, rest, front) ↦
        let law = laws.try_pop_front m.events.queue e rest front in
        rw law.0 (omega (arith, ap length law.1, ap length front))
  ]

  pub work-Nears :
      (drain : Bool) (m : Shared Q) (w : Worker)
      → shut laws m ≡ true
      → has_left w ≡ false
      → Nears m w (work W route drain m w)
  unfolding work rank go_on has_left
  work-Nears drain m (calling draining) closed_ h = calling-Nears drain draining m closed_
  work-Nears drain m dozing closed_ h = omega arith
  work-Nears drain m (popped true e) closed_ h = omega arith
  work-Nears drain m (popped false e) closed_ h = omega arith
  work-Nears drain m (notifying_one true e) closed_ h = omega arith
  work-Nears drain m (notifying_one false e) closed_ h = omega arith
  work-Nears drain m (processing true e) closed_ h = omega arith
  work-Nears drain m (processing false e) closed_ h = omega arith
  work-Nears true m checking closed_ h = omega arith
  work-Nears false m checking closed_ h = omega arith
  work-Nears drain m left closed_ h = absurd (cc h)

  pub rank_zero : (w : Worker) → rank w ≤ 0 → has_left w ≡ true
  unfolding rank has_left
  rank_zero w h = ground arith
