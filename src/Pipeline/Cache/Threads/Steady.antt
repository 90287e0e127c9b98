-- ===== src/Pipeline/Cache/Threads/Steady.antt =====
-- Look-ups that interleave while the routes stay: each gives what `cached_route_mask_` gives alone.
use sy_log.Pipeline.Cache.Fresh.{IsCurrent}
use sy_log.Pipeline.Cache.Threads.{
  Store, Lookup, idle, loading, locking, exchanging, clearing, minimising, finding, computing,
  emplacing, returned, proceed, Reach, begun, called, moved,
}
use sy_log.Pipeline.Cache.Threads.Locking.{
  holds_lock, will_clear, total, total-middle, total-loading, all_clear_with_lock, one_if, Fine,
  HasResult, Holds, proceed-Steps,
}
use sy_log.Prelude.{
  ◌+◌, ◌≡◌, refl, sym, ap, subst, ◌∙◌, Bool, true, false, List, [], ◌∷◌, ◌++◌, map, All, All-at,
  All-replaced, Bytes, ◌⊎◌, inl, inr, arith, Bool-cases,
}
use sy_log.Route.{Route}

module _ {Q : Type 0} (routes : List (Route Q)) where
  record IsSteady (m : Store Q) (ts : List Lookup) : Type 0 where
    holds : Holds routes m (total holds_lock ts) (total will_clear ts)
    each : All (Fine routes m.cached.dirty) ts

  Fine-false : (dirty : Bool) (t : Lookup) → Fine routes dirty t → Fine routes false t
  Fine-false dirty idle f = tt
  Fine-false dirty (loading ep) f = tt
  Fine-false dirty (locking ep) f = tt
  Fine-false dirty (exchanging ep) f = tt
  Fine-false dirty (clearing ep) f = refl
  Fine-false dirty (minimising ep) f = refl
  Fine-false dirty (finding ep) f = refl
  Fine-false dirty (computing ep) f = refl
  Fine-false dirty (emplacing ep v) f = (refl, f.1)
  Fine-false dirty (returned ep v) f = f

  All-Fine-false :
      (dirty : Bool) (ts : List Lookup) → All (Fine routes dirty) ts → All (Fine routes false) ts
  All-Fine-false dirty [] f = tt
  All-Fine-false dirty (t ∷ ts) f = (Fine-false dirty t f.0, All-Fine-false dirty ts f.1)

  All-Fine-cleaned :
      (dirty dirty' : Bool) (ts : List Lookup)
      → (dirty' ≡ dirty) ⊎ (dirty' ≡ false)
      → All (Fine routes dirty) ts
      → All (Fine routes dirty') ts
  All-Fine-cleaned dirty dirty' ts h f = elim h [
    | inl same ↦ subst (λ d. All (Fine routes d) ts) (sym same) f
    | inr clean ↦ subst (λ d. All (Fine routes d) ts) (sym clean) (All-Fine-false dirty ts f)
  ]

  Fine-result : (dirty : Bool) (t : Lookup) → Fine routes dirty t → HasResult routes t
  Fine-result dirty idle f = tt
  Fine-result dirty (loading ep) f = tt
  Fine-result dirty (locking ep) f = tt
  Fine-result dirty (exchanging ep) f = tt
  Fine-result dirty (clearing ep) f = tt
  Fine-result dirty (minimising ep) f = tt
  Fine-result dirty (finding ep) f = tt
  Fine-result dirty (computing ep) f = tt
  Fine-result dirty (emplacing ep v) f = f.1
  Fine-result dirty (returned ep v) f = f

  All-Fine-results :
      (dirty : Bool) (ts : List Lookup) → All (Fine routes dirty) ts → All (HasResult routes) ts
  All-Fine-results dirty [] f = tt
  All-Fine-results dirty (t ∷ ts) f = (Fine-result dirty t f.0, All-Fine-results dirty ts f.1)

  loading-Fine : (dirty : Bool) (eps : List Bytes) → All (Fine routes dirty) (map loading eps)
  loading-Fine dirty [] = tt
  loading-Fine dirty (ep ∷ eps) = (tt, loading-Fine dirty eps)

  -- The counts of two lists agree.
  recount :
      (m : Store Q) (ts us : List Lookup)
      → total holds_lock ts ≡ total holds_lock us
      → total will_clear ts ≡ total will_clear us
      → Holds routes m (total holds_lock ts) (total will_clear ts)
      → Holds routes m (total holds_lock us) (total will_clear us)
  recount m ts us lock clear h =
      subst (λ n. Holds routes m n (total will_clear us)) lock
        (subst (λ n. Holds routes m (total holds_lock ts) n) clear h)

  moved-IsSteady :
      (m : Store Q) (xs ys : List Lookup) (t : Lookup)
      → IsSteady m (xs ++ t ∷ ys)
      → IsSteady (proceed m t).0 (xs ++ (proceed m t).1 ∷ ys)
  moved-IsSteady m xs ys t s =
      let r = proceed m t in
      let before =
        subst (λ n. Holds routes m n (will_clear t + total will_clear (xs ++ ys)))
          (total-middle holds_lock xs ys t)
          (subst (λ n. Holds routes m (total holds_lock (xs ++ t ∷ ys)) n)
            (total-middle will_clear xs ys t) s.holds) in
      let (after, fine, flag) =
        proceed-Steps routes m t (total holds_lock (xs ++ ys)) (total will_clear (xs ++ ys))
          (all_clear_with_lock (xs ++ ys)) (All-at (Fine routes m.cached.dirty) xs ys t s.each)
          before in
      record {
        holds =
            subst (λ n. Holds routes r.0 n (total will_clear (xs ++ r.1 ∷ ys)))
              (sym (total-middle holds_lock xs ys r.1))
              (subst (λ n. Holds routes r.0 (holds_lock r.1 + total holds_lock (xs ++ ys)) n)
                (sym (total-middle will_clear xs ys r.1)) after);
        each =
            All-replaced (Fine routes r.0.cached.dirty) xs ys t r.1 fine
              (All-Fine-cleaned m.cached.dirty r.0.cached.dirty (xs ++ t ∷ ys) flag s.each);
      }

module _ {Q : Type 0} (start : Store Q) (eps : List Bytes) where
  Reach-IsSteady :
      (m : Store Q) (ts : List Lookup)
      → IsCurrent start.routes start.cached
      → start.locked ≡ false
      → Reach start eps m ts []
      → IsSteady start.routes m ts
  unfolding holds_lock will_clear one_if
  Reach-IsSteady _ _ current free begun = record {
    holds = record {
      same = refl;
      counted = omega (arith, total-loading holds_lock eps (λ ep. refl), ap one_if free);
      fresh = elim current [ inl dirty ↦ inl dirty | inr all ↦ inr (inl all) ];
    };
    each = loading-Fine start.routes start.cached.dirty eps;
  }
  Reach-IsSteady m _ current free (called xs ys ep r) =
      let s = Reach-IsSteady m (xs ++ idle ∷ ys) current free r in
      record {
        holds =
            recount start.routes m (xs ++ idle ∷ ys) (xs ++ loading ep ∷ ys)
              (total-middle holds_lock xs ys idle
                ∙ sym (total-middle holds_lock xs ys (loading ep)))
              (total-middle will_clear xs ys idle
                ∙ sym (total-middle will_clear xs ys (loading ep)))
              s.holds;
        each = All-replaced (Fine start.routes m.cached.dirty) xs ys idle (loading ep) tt s.each;
      }
  Reach-IsSteady _ _ current free (moved {m = m} xs ys t r) =
      moved-IsSteady start.routes m xs ys t (Reach-IsSteady m (xs ++ t ∷ ys) current free r)

  -- Threads look up endpoints in any interleaving while the routes stay, from a cache that is
  -- current or marked for clearing and whose lock is free. At each point the routes are those of
  -- the start; each entry that a look-up returns or is about to put in is the one that is
  -- computed for its endpoint from them; and the cache is current or marked for clearing, unless
  -- a thread holds the lock.
  pub Reach-IsCurrent :
      (m : Store Q) (ts : List Lookup)
      → IsCurrent start.routes start.cached
      → start.locked ≡ false
      → Reach start eps m ts []
      → (m.routes ≡ start.routes)
        × All (HasResult start.routes) ts
        × ((m.locked ≡ true) ⊎ IsCurrent start.routes m.cached)
  unfolding one_if
  Reach-IsCurrent m ts current free r =
      let s = Reach-IsSteady m ts current free r in
      (
        s.holds.same,
        All-Fine-results start.routes m.cached.dirty ts s.each,
        elim (Bool-cases m.locked) [
          | inl on ↦ inl on
          | inr off ↦ elim s.holds.fresh [
            | inl dirty ↦ inr (inl dirty)
            | inr (inl all) ↦ inr (inr all)
            | inr (inr some_clearer) ↦ absurd (
                omega (arith, some_clearer, all_clear_with_lock ts, s.holds.counted, ap one_if off))
          ]
        ],
      )
