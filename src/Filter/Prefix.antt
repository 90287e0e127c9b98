-- ===== src/Filter/Prefix.antt =====
-- `EndpointFilter` against prefixes of byte strings: src/logger.cpp.
use sy_log.Event.{Event}
use sy_log.Filter.{EndpointFilter, matches_prefix, any_prefix, allowed, endpoint_pass}
use sy_log.Prelude.{
  ◌≡◌, refl, sym, ap, ◌∙◌, ◌↔◌, ◌⊎◌, inl, inr, true, Bool-cases, List, [], ◌∷◌, ◌++◌, Bytes, length,
  take, drop, take-append-drop, take-length-append, length-append, bytes_eq_iff, bytes_eq→≡, arith,
}

-- The text begins with the prefix.
abbrev pub IsPrefix : Bytes → Bytes → Type 0
IsPrefix prefix ep = (rest : Bytes) × (ep ≡ prefix ++ rest)

-- Some entry of the list satisfies the predicate.
abbrev pub Any : (Bytes → Type 0) → List Bytes → Type 0
Any P [] = ⊥
Any P (x ∷ xs) = P x ⊎ Any P xs

matches_prefix-append : (prefix rest : Bytes) → matches_prefix (prefix ++ rest) prefix ≡ true
unfolding matches_prefix
matches_prefix-append [] rest = refl
matches_prefix-append (c ∷ p) rest = ground (
  arith,
  length-append (c ∷ p) rest,
  take-length-append (c ∷ p) rest,
  (bytes_eq_iff (take (length (c ∷ p)) ((c ∷ p) ++ rest)) (c ∷ p)).1,
)

matches_prefix→IsPrefix : (ep prefix : Bytes) → matches_prefix ep prefix ≡ true → IsPrefix prefix ep
unfolding matches_prefix
matches_prefix→IsPrefix ep [] h = (ep, refl)
matches_prefix→IsPrefix ep (c ∷ p) h =
    let n = length (c ∷ p) in
    let same : take n ep ≡ c ∷ p = bytes_eq→≡ (take n ep) (c ∷ p) (ground arith) in
    (drop n ep, sym (take-append-drop n ep) ∙ ap (λ t. t ++ drop n ep) same)

-- `matches_prefix` decides whether the text begins with the prefix.
pub matches_prefix_iff :
    (ep prefix : Bytes) → (matches_prefix ep prefix ≡ true) ↔ IsPrefix prefix ep
matches_prefix_iff ep prefix =
    (matches_prefix→IsPrefix ep prefix, λ h. rw h.1 (matches_prefix-append prefix h.0))

any_prefix_sound :
    (ep : Bytes) (ps : List Bytes) → any_prefix ep ps ≡ true → Any (λ p. IsPrefix p ep) ps
unfolding any_prefix
any_prefix_sound ep [] h = cc
any_prefix_sound ep (p ∷ ps) h = elim (Bool-cases (matches_prefix ep p)) [
  | inl hit ↦ inl ((matches_prefix_iff ep p).0 hit)
  | inr miss ↦ inr (any_prefix_sound ep ps (ground arith))
]

any_prefix_complete :
    (ep : Bytes) (ps : List Bytes) → Any (λ p. IsPrefix p ep) ps → any_prefix ep ps ≡ true
unfolding any_prefix
any_prefix_complete ep [] h = elim h [ ]
any_prefix_complete ep (p ∷ ps) (inl hit) = rw ((matches_prefix_iff ep p).1 hit)
any_prefix_complete ep (p ∷ ps) (inr h) = ground (arith, any_prefix_complete ep ps h)

any_prefix_iff :
    (ep : Bytes) (ps : List Bytes) → (any_prefix ep ps ≡ true) ↔ Any (λ p. IsPrefix p ep) ps
any_prefix_iff ep ps = (any_prefix_sound ep ps, any_prefix_complete ep ps)

-- What an endpoint filter means: no denied prefix, and some allowed prefix if any is configured.
abbrev pub Accepts : EndpointFilter → Bytes → Type 0
Accepts f ep =
    (¬ Any (λ p. IsPrefix p ep) f.deny_prefixes)
    × ((f.allow_prefixes ≡ []) ⊎ Any (λ p. IsPrefix p ep) f.allow_prefixes)

allowed→ :
    (ep : Bytes) (ps : List Bytes) → allowed ep ps ≡ true → (ps ≡ []) ⊎ Any (λ p. IsPrefix p ep) ps
unfolding allowed
allowed→ ep [] h = inl refl
allowed→ ep (p ∷ ps) h = inr (any_prefix_sound ep (p ∷ ps) h)

→allowed :
    (ep : Bytes) (ps : List Bytes) → (ps ≡ []) ⊎ Any (λ p. IsPrefix p ep) ps → allowed ep ps ≡ true
unfolding allowed
→allowed ep [] h = refl
→allowed ep (p ∷ ps) (inl e) = cc
→allowed ep (p ∷ ps) (inr h) = any_prefix_complete ep (p ∷ ps) h

-- An endpoint filter passes an event exactly when no denied prefix begins the event's endpoint,
-- and the list of allowed prefixes is empty or one of them begins it.
pub endpoint_pass_iff :
    (f : EndpointFilter) (e : Event) → (endpoint_pass f e ≡ true) ↔ Accepts f e.endpoint
unfolding endpoint_pass
endpoint_pass_iff f e = (forth, back)
  where
    forth : endpoint_pass f e ≡ true → Accepts f e.endpoint
    forth h = (
      λ d. cc (any_prefix_complete e.endpoint f.deny_prefixes d, h),
      allowed→ e.endpoint f.allow_prefixes (ground arith),
    )

    back : Accepts f e.endpoint → endpoint_pass f e ≡ true
    back (none_denied, ok) = elim (Bool-cases (any_prefix e.endpoint f.deny_prefixes)) [
      | inl hit ↦ absurd (none_denied (any_prefix_sound e.endpoint f.deny_prefixes hit))
      | inr miss ↦ rw miss (→allowed e.endpoint f.allow_prefixes ok)
    ]
