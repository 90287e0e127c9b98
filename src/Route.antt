-- ===== src/Route.antt =====
-- include/sylog/logger.hpp, include/sylog/delivery.hpp and src/delivery.cpp: a route with its
-- delivery strategy, and what it writes for an event.
use sy_log.Event.{Event}
use sy_log.Filter.{Filter, all_pass}
use sy_log.Prelude.{
  ℕ, Bool, false, Option, none, some, List, [], ◌∷◌, ◌++◌, Bytes, codes, ◌==◌, not, if◌then◌else◌,
}
use sy_log.Queue.{WorkersEventQueue, Push, returned, try_push, push_blocking}
use sy_log.Workers.{BlockingQueue}

-- A call of a sink's virtual functions, the sink named by the identity of its object.
pub data Output : Type 0 where
  write : ℕ → Bytes → Output
  flush : ℕ → Output

-- `IRenderer::render(e, out)`: from the event and the old text of the buffer to the new one.
abbrev pub Renderer : Type 0
Renderer = Event → Bytes → Bytes

-- `strategy_base` is open: a strategy of the user's is its `name` and its `submit`.
pub data Strategy (Q : Type 0) : Type 0 where
  drop_when_full : Strategy Q
  block_when_full : Strategy Q
  custom : Bytes → (WorkersEventQueue Q → Event → Bool → Push Q) → Strategy Q

pub record Route (Q : Type 0) : Type 0 where
  pub sink : Option ℕ
  pub renderer : Option Renderer
  pub filters : List (Option Filter)
  pub delivery_strategy : Option (Strategy Q)

module _ {Q : Type 0} where
  abbrev pub strategy_name : Strategy Q → Bytes
  strategy_name drop_when_full = codes "drop_when_full"
  strategy_name block_when_full = codes "block_when_full"
  strategy_name (custom name submit) = name

  abbrev pub default_route : Route Q
  default_route = record {
    sink = none;
    renderer = none;
    filters = [];
    delivery_strategy = some drop_when_full;
  }

  abbrev pub send_to : ℕ → Route Q → Route Q
  send_to s r = record r { sink = some s }

  abbrev pub render_with : Renderer → Route Q → Route Q
  render_with f r = record r { renderer = some f }

  abbrev pub filtered_by : Option Filter → Route Q → Route Q
  filtered_by f r = record r { filters = r.filters ++ f ∷ [] }

  abbrev pub deliver_with : Strategy Q → Route Q → Route Q
  deliver_with s r = record r { delivery_strategy = some s }

  unfoldable pub submit_with :
      BlockingQueue Event Q → Strategy Q → WorkersEventQueue Q → Event → Bool → Push Q
  submit_with W drop_when_full queue event accepting =
      let (pushed, queue') = try_push W queue event in returned pushed queue'
  submit_with W block_when_full queue event accepting = push_blocking W queue event accepting
  submit_with W (custom name submit) queue event accepting = submit queue event accepting

-- `!buffer.empty() && buffer.back() != '\n'`
unfoldable pub lacks_newline : Bytes → Bool
lacks_newline [] = false
lacks_newline (c ∷ []) = not (c == b'\n')
lacks_newline (c ∷ d ∷ s) = lacks_newline (d ∷ s)

unfoldable pub terminate_line : Bytes → Bytes
unfolding lacks_newline
terminate_line buffer = if lacks_newline buffer then buffer ++ b'\n' ∷ [] else buffer

-- The buffer of one event: cleared, then filled by the renderer or with the message.
module _ {Q : Type 0} where
  unfoldable pub render_event : Route Q → Event → Bytes
  unfolding terminate_line
  render_event r e = elim r.renderer [ none ↦ terminate_line e.message | some render ↦ render e [] ]

  unfoldable pub route_passes : Route Q → Event → Bool
  route_passes r e = all_pass r.filters e

  unfoldable pub process : Route Q → Event → List Output
  unfolding render_event route_passes
  process r e = elim r.sink [
    | none ↦ []
    | some s ↦ if route_passes r e then write s (render_event r e) ∷ [] else []
  ]
