-- ===== src/Workers.antt =====
-- The third-party `Workers::Queue::BlockingQueue`, which src/async/workers_event_queue.cpp wraps:
-- its operations are an argument of every definition that calls it, and what SyLog relies on is
-- `QueueLaws`. The code of Workers is not in the repository.
use sy_log.Prelude.{
  ◌≡◌, refl, inl, inr, Bool, true, false, List, [], ◌∷◌, ◌++◌, Option, none, some, ◌⊎◌,
}

-- What `pop(stop_token, out)` comes to: an element (`PopResult::ok`), another result, or a caller
-- that is left waiting.
pub data PopResult {ℓ} (A : Type ℓ) : Type ℓ where
  ok : A → PopResult A
  ended : PopResult A
  waits : PopResult A

pub PopResult-cases {ℓ} :
    {A : Type ℓ} (r : PopResult A) → ((a : A) × (r ≡ ok a)) ⊎ ((r ≡ ended) ⊎ (r ≡ waits))
PopResult-cases (ok a) = inl (a, refl)
PopResult-cases ended = inr (inl refl)
PopResult-cases waits = inr (inr refl)

-- An operation that changes the queue returns it anew. The Boolean of `pop` is the stop request.
pub record BlockingQueue {ℓ} (A Q : Type ℓ) : Type ℓ where
  pub fresh : Q
  pub push : Q → A → Bool × Q
  pub try_pop : Q → Option A × Q
  pub pop : Q → Bool → PopResult A × Q
  pub close : Q → Q
  pub notify_all : Q → Q

-- What SyLog relies on: a first-in first-out queue that takes elements until it is closed, keeps
-- what it holds when it is closed, and whose waiting `pop` returns on an element, on a stop
-- request and on closing. After a stop request `pop` may give out an element or end.
pub record QueueLaws {ℓ} {A Q : Type ℓ} (W : BlockingQueue A Q) : Type ℓ where
  pub contents : Q → List A
  pub closed : Q → Bool
  pub fresh_empty : contents W.fresh ≡ []
  pub fresh_open : closed W.fresh ≡ false
  pub push_open :
      (q : Q) (a : A)
      → closed q ≡ false
      → ((W.push q a).0 ≡ true)
        × (contents (W.push q a).1 ≡ contents q ++ a ∷ [])
        × (closed (W.push q a).1 ≡ false)
  pub push_closed :
      (q : Q) (a : A)
      → closed q ≡ true
      → ((W.push q a).0 ≡ false)
        × (contents (W.push q a).1 ≡ contents q)
        × (closed (W.push q a).1 ≡ true)
  pub try_pop_empty :
      (q : Q)
      → contents q ≡ []
      → ((W.try_pop q).0 ≡ none)
        × (contents (W.try_pop q).1 ≡ [])
        × (closed (W.try_pop q).1 ≡ closed q)
  pub try_pop_front :
      (q : Q) (a : A) (rest : List A)
      → contents q ≡ a ∷ rest
      → ((W.try_pop q).0 ≡ some a)
        × (contents (W.try_pop q).1 ≡ rest)
        × (closed (W.try_pop q).1 ≡ closed q)
  pub pop_ok :
      (q : Q) (stop : Bool) (a : A)
      → (W.pop q stop).0 ≡ ok a
      → (contents q ≡ a ∷ contents (W.pop q stop).1) × (closed (W.pop q stop).1 ≡ closed q)
  pub pop_ended :
      (q : Q) (stop : Bool)
      → (W.pop q stop).0 ≡ ended
      → (contents (W.pop q stop).1 ≡ contents q)
        × (closed (W.pop q stop).1 ≡ closed q)
        × ((stop ≡ true) ⊎ ((contents q ≡ []) × (closed q ≡ true)))
  pub pop_waits :
      (q : Q) (stop : Bool)
      → (W.pop q stop).0 ≡ waits
      → (contents q ≡ [])
        × (closed q ≡ false)
        × (stop ≡ false)
        × (contents (W.pop q stop).1 ≡ [])
        × (closed (W.pop q stop).1 ≡ false)
  pub close_keeps : (q : Q) → (contents (W.close q) ≡ contents q) × (closed (W.close q) ≡ true)
  pub notify_keeps :
      (q : Q) → (contents (W.notify_all q) ≡ contents q) × (closed (W.notify_all q) ≡ closed q)
