-- ===== src/Tests/Fifo.antt =====
-- A queue that obeys the laws: a list, with a flag for closing.
use sy_log.Event.{Event}
use sy_log.Prelude.{
  ◌≡◌, refl, Bool, true, false, Option, none, some, List, [], ◌∷◌, ◌++◌, ◌⊎◌, inl, inr,
}
use sy_log.Workers.{BlockingQueue, QueueLaws, PopResult, ok, ended, waits}

abbrev pub Fifo : Type 0
Fifo = List Event × Bool

abbrev push : Fifo → Event → Bool × Fifo
push (es, true) a = (false, (es, true))
push (es, false) a = (true, (es ++ a ∷ [], false))

abbrev try_pop : Fifo → Option Event × Fifo
try_pop ([], shut) = (none, ([], shut))
try_pop (e ∷ es, shut) = (some e, (es, shut))

abbrev pop : Fifo → Bool → PopResult Event × Fifo
pop (e ∷ es, shut) stop = (ok e, (es, shut))
pop ([], true) stop = (ended, ([], true))
pop ([], false) true = (ended, ([], false))
pop ([], false) false = (waits, ([], false))

abbrev pub fifo : BlockingQueue Event Fifo
fifo = record {
  fresh = ([], false);
  push = push;
  try_pop = try_pop;
  pop = pop;
  close = λ q. (q.0, true);
  notify_all = λ q. q;
}

pub push_open :
    (q : Fifo) (a : Event)
    → q.1 ≡ false
    → ((push q a).0 ≡ true) × ((push q a).1.0 ≡ q.0 ++ a ∷ []) × ((push q a).1.1 ≡ false)
push_open (es, true) a h = cc
push_open (es, false) a h = (refl, refl, refl)

pub push_closed :
    (q : Fifo) (a : Event)
    → q.1 ≡ true
    → ((push q a).0 ≡ false) × ((push q a).1.0 ≡ q.0) × ((push q a).1.1 ≡ true)
push_closed (es, true) a h = (refl, refl, refl)
push_closed (es, false) a h = cc

pub try_pop_empty :
    (q : Fifo)
    → q.0 ≡ []
    → ((try_pop q).0 ≡ none) × ((try_pop q).1.0 ≡ []) × ((try_pop q).1.1 ≡ q.1)
try_pop_empty ([], shut) h = (refl, refl, refl)
try_pop_empty (e ∷ es, shut) h = cc

pub try_pop_front :
    (q : Fifo) (a : Event) (rest : List Event)
    → q.0 ≡ a ∷ rest
    → ((try_pop q).0 ≡ some a) × ((try_pop q).1.0 ≡ rest) × ((try_pop q).1.1 ≡ q.1)
try_pop_front ([], shut) a rest h = cc
try_pop_front (e ∷ es, shut) a rest h = (cc, cc, refl)

pub pop_ok :
    (q : Fifo) (stop : Bool) (a : Event)
    → (pop q stop).0 ≡ ok a
    → (q.0 ≡ a ∷ (pop q stop).1.0) × ((pop q stop).1.1 ≡ q.1)
pop_ok (e ∷ es, shut) stop a h = (cc, refl)
pop_ok ([], true) stop a h = cc
pop_ok ([], false) true a h = cc
pop_ok ([], false) false a h = cc

pub pop_ended :
    (q : Fifo) (stop : Bool)
    → (pop q stop).0 ≡ ended
    → ((pop q stop).1.0 ≡ q.0)
      × ((pop q stop).1.1 ≡ q.1)
      × ((stop ≡ true) ⊎ ((q.0 ≡ []) × (q.1 ≡ true)))
pop_ended (e ∷ es, shut) stop h = cc
pop_ended ([], true) stop h = (refl, refl, inr (refl, refl))
pop_ended ([], false) true h = (refl, refl, inl refl)
pop_ended ([], false) false h = cc

pub pop_waits :
    (q : Fifo) (stop : Bool)
    → (pop q stop).0 ≡ waits
    → (q.0 ≡ [])
      × (q.1 ≡ false)
      × (stop ≡ false)
      × ((pop q stop).1.0 ≡ [])
      × ((pop q stop).1.1 ≡ false)
pop_waits (e ∷ es, shut) stop h = cc
pop_waits ([], true) stop h = cc
pop_waits ([], false) true h = cc
pop_waits ([], false) false h = (refl, refl, refl, refl, refl)

abbrev pub fifo_laws : QueueLaws fifo
fifo_laws = record {
  contents = λ q. q.0;
  closed = λ q. q.1;
  fresh_empty = refl;
  fresh_open = refl;
  push_open = push_open;
  push_closed = push_closed;
  try_pop_empty = try_pop_empty;
  try_pop_front = try_pop_front;
  pop_ok = pop_ok;
  pop_ended = pop_ended;
  pop_waits = pop_waits;
  close_keeps = λ q. (refl, refl);
  notify_keeps = λ q. (refl, refl);
}
