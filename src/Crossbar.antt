-- ===== src/Crossbar.antt =====
-- src/async/sink_crossbar.{hpp,cpp}: one lane with a queue and a worker for each route. The lanes
-- run side by side, so what they write is kept apart, a list for each lane; a call's result says
-- nothing of the order between lanes.
pub mod Worker
pub mod Stopping
pub mod Submit
pub mod Threads
use sy_log.Event.{Event}
use sy_log.Prelude.{
  ℕ, zero, suc, ◌+◌, Bool, true, false, Option, none, some, List, [], ◌∷◌, ◌++◌, map, length, ltb,
  not, ◌&&◌, ◌||◌, if◌then◌else◌, has_bit,
}
use sy_log.Queue.{WorkersEventQueue, Push, returned, waiting, at_least_one, new_queue}
use sy_log.Queue
use sy_log.Route.{Route, Output, flush, submit_with, process}
use sy_log.Workers.{BlockingQueue, PopResult, ok, ended, waits}

-- `worker` says whether the thread is joinable.
pub record Lane (Q : Type 0) : Type 0 where
  pub route : Route Q
  pub queue : WorkersEventQueue Q
  pub worker : Bool
  pub drain_on_stop : Bool

pub record SinkCrossbar (Q : Type 0) : Type 0 where
  pub queue_capacity : ℕ
  pub running : Bool
  pub lanes : List (Lane Q)

-- How a worker's loop stands after its last call: left, asleep in `pop_blocking`, or (which the
-- theorems exclude) cut off by the bound on rounds.
pub data LoopEnd : Type 0 where
  left asleep cut_off : LoopEnd

pub record Worked (Q : Type 0) : Type 0 where
  pub written : List Output
  pub queue : WorkersEventQueue Q
  pub at : LoopEnd

-- `submit` returns, or waits for space in the lane of the given index; the Boolean is
-- `delivered_any`.
pub data Submission : Type 0 where
  finished : Bool → Submission
  waiting_at : ℕ → Bool → Submission

module _ {Q : Type 0} where
  unfoldable pub start_lane : Lane Q → Lane Q
  start_lane lane = record lane { drain_on_stop = true; worker = true }

  abbrev pub also_written : List Output → Worked Q → Worked Q
  also_written out w = record w { written = out ++ w.written }

  -- Each round takes an event off the queue, so one round more than it holds is enough.
  abbrev pub rounds : WorkersEventQueue Q → ℕ
  rounds q = suc q.size

  abbrev pub with_queue : Lane Q → WorkersEventQueue Q → Lane Q
  with_queue lane q = record lane { queue = q }

  abbrev pub is_running : SinkCrossbar Q → Bool
  is_running x = x.running

  abbrev pub snapshot_lanes : SinkCrossbar Q → List (Lane Q)
  snapshot_lanes x = x.lanes

  unfoldable pub has_no_lanes : SinkCrossbar Q → Bool
  has_no_lanes x = elim x.lanes [ [] ↦ true | _ ↦ false ]

  unfoldable pub flush_lanes : List (Lane Q) → List Output
  flush_lanes [] = []
  flush_lanes (lane ∷ lanes) = elim lane.route.sink [
    | none ↦ flush_lanes lanes
    | some s ↦ flush s ∷ flush_lanes lanes
  ]

  unfoldable pub flush_crossbar : SinkCrossbar Q → List Output
  unfolding flush_lanes
  flush_crossbar x = flush_lanes (snapshot_lanes x)

  abbrev pub lane_count : SinkCrossbar Q → ℕ
  lane_count x = length x.lanes

module _ {Q : Type 0} (W : BlockingQueue Event Q) where
  unfoldable pub new_crossbar : ℕ → SinkCrossbar Q
  new_crossbar capacity = record {
    queue_capacity = at_least_one capacity;
    running = false;
    lanes = [];
  }

  -- `while (pop_blocking(e, st)) process_(route, e, buffer);`, at most the given rounds.
  unfoldable pub pop_loop : ℕ → Route Q → Bool → WorkersEventQueue Q → Worked Q
  pop_loop zero route stop q = record { written = []; queue = q; at = cut_off }
  pop_loop (suc n) route stop q =
      let (result, q') = Queue.pop_blocking W q stop in
      let rest = pop_loop n route stop q' in
      elim result [
        | ok e ↦ also_written (process route e) rest
        | ended ↦ record { written = []; queue = q'; at = left }
        | waits ↦ record { written = []; queue = q'; at = asleep }
      ]

  -- `while (try_pop(e)) process_(route, e, buffer);`
  unfoldable pub drain_loop : ℕ → Route Q → WorkersEventQueue Q → Worked Q
  drain_loop zero route q = record { written = []; queue = q; at = cut_off }
  drain_loop (suc n) route q =
      let (result, q') = Queue.try_pop W q in
      let rest = drain_loop n route q' in
      elim result [
        | none ↦ record { written = []; queue = q'; at = left }
        | some e ↦ also_written (process route e) rest
      ]

  unfoldable pub lane_loop : Lane Q → Bool → Worked Q
  lane_loop lane stop =
      let first = pop_loop (rounds lane.queue) lane.route stop lane.queue in
      let second = drain_loop (rounds first.queue) lane.route first.queue in
      elim first.at [
        | left ↦ if lane.drain_on_stop then also_written first.written second else first
        | asleep ↦ first
        | cut_off ↦ first
      ]

  -- The first loop of `stop_lanes_`: the lane's queue is closed.
  unfoldable pub close_lane : Bool → Lane Q → Lane Q
  close_lane drain lane = record lane { drain_on_stop = drain; queue = Queue.close W lane.queue }

  -- The second: a worker that has been asked to stop is joined.
  unfoldable pub join_lane : Lane Q → List Output × Lane Q
  join_lane lane =
      let done = lane_loop lane true in
      if lane.worker
      then (done.written, record lane { worker = false; queue = done.queue })
      else ([], lane)

  -- The whole of `stop_lanes_` for one lane.
  unfoldable pub stop_lane : Bool → ℕ → Lane Q → List Output × Lane Q
  unfolding close_lane join_lane
  stop_lane drain capacity lane =
      let (out, joined) = join_lane (close_lane drain lane) in
      if drain then (out, joined) else (out, record joined { queue = new_queue W capacity })

  unfoldable pub stop_lanes : Bool → SinkCrossbar Q → List (List Output) × SinkCrossbar Q
  unfolding has_no_lanes stop_lane
  stop_lanes drain x =
      let stopped = map (stop_lane drain x.queue_capacity) x.lanes in
      if not x.running && has_no_lanes x
      then ([], x)
      else (map (λ s. s.0) stopped, record x { running = false; lanes = map (λ s. s.1) stopped })

  unfoldable pub close : SinkCrossbar Q → List (List Output) × SinkCrossbar Q
  unfolding stop_lanes
  close x = stop_lanes true x

  unfoldable pub request_stop : SinkCrossbar Q → List (List Output) × SinkCrossbar Q
  unfolding stop_lanes
  request_stop x = stop_lanes false x

  -- The destructor.
  abbrev pub destroy : SinkCrossbar Q → List (List Output)
  destroy x = (request_stop x).0

  unfoldable pub new_lane : ℕ → Route Q → Lane Q
  new_lane capacity route = record {
    route = route;
    queue = new_queue W capacity;
    worker = false;
    drain_on_stop = true;
  }

  -- The lanes of the old configuration may still write while they are drained.
  unfoldable pub configure :
      List (Route Q) → ℕ → SinkCrossbar Q → List (List Output) × SinkCrossbar Q
  unfolding stop_lanes new_lane start_lane
  configure routes capacity x =
      let restart = is_running x in
      let (out, stopped) = if restart then stop_lanes true x else ([], x) in
      let capacity' = at_least_one capacity in
      let lanes = map (new_lane capacity') routes in
      (
        out,
        (if restart
            then record stopped {
              queue_capacity = capacity';
              running = true;
              lanes = map start_lane lanes;
            }
            else record stopped { queue_capacity = capacity'; lanes = lanes }),
      )

  unfoldable pub start : SinkCrossbar Q → SinkCrossbar Q
  unfolding start_lane
  start x = if x.running then x else record x { running = true; lanes = map start_lane x.lanes }

  -- One lane's turn in `submit`: the strategy of the route, or `try_push` where there is none.
  unfoldable pub push_lane : Lane Q → Event → Bool → Push Q
  unfolding submit_with
  push_lane lane e accepting = elim lane.route.delivery_strategy [
    | none ↦ let (pushed, q) = Queue.try_push W lane.queue e in returned pushed q
    | some strategy ↦ submit_with W strategy lane.queue e accepting
  ]

  -- The loop of `submit` from index `i`. Lanes before `from` have had their turn: a caller that
  -- waits at lane `j` goes on, when it is woken, with `from` equal to `j`.
  unfoldable pub submit_loop :
      ℕ → ℕ → List (Lane Q) → Event → ℕ → Bool → Bool → List (Lane Q) × Submission
  submit_loop from i [] e mask accepting delivered = ([], finished delivered)
  submit_loop from i (lane ∷ lanes) e mask accepting delivered =
      let skip = submit_loop from (suc i) lanes e mask accepting delivered in
      let turn =
        λ (pushed : Bool). submit_loop from (suc i) lanes e mask accepting (delivered || pushed) in
      if not (ltb i 64)
      then (lane ∷ lanes, finished delivered)
      else if ltb i from || not (has_bit mask i)
      then (lane ∷ skip.0, skip.1)
      else elim (push_lane lane e accepting) [
        | returned pushed q ↦ (with_queue lane q ∷ (turn pushed).0, (turn pushed).1)
        | waiting ↦ (lane ∷ lanes, waiting_at i delivered)
      ]

  unfoldable pub submit : SinkCrossbar Q → Event → ℕ → Bool → SinkCrossbar Q × Submission
  submit x e mask accepting =
      let (lanes, s) = submit_loop 0 0 (snapshot_lanes x) e mask accepting false in
      (record x { lanes = lanes }, s)

  -- What a running worker does when it is given time: it empties its queue and falls asleep.
  unfoldable pub worker_turn : Lane Q → List Output × Lane Q
  worker_turn lane =
      let done = lane_loop lane false in
      if lane.worker then (done.written, record lane { queue = done.queue }) else ([], lane)
