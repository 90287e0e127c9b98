-- ===== src/Render/Pattern/Template.antt =====
-- The nine replacements, one after another, against a pattern that is read once.
use sy_log.Prelude.{
  ℕ, ◌≡◌, refl, sym, ap, ◌∙◌, false, Option, none, some, List, [], ◌∷◌, ◌++◌, Bytes, bytes_eq,
  bytes_eq→≡, All, map, ◌==◌, if◌then◌else◌, if-cases, arith, Bool-cases, inl, inr,
}
use sy_log.Render.Pattern.{replace_each}
use sy_log.Render.Replace.{starts_with}
use sy_log.Render.Replace.Loop.{substitute, substitute-hit, replace_all-substitute}

-- A pattern is bytes that stand for themselves and tokens `{name}`.
pub data Piece : Type 0 where
  literal : ℕ → Piece
  token : Bytes → Piece

abbrev pub key : Bytes → Bytes
key name = b'{' ∷ (name ++ b'}' ∷ [])

unfoldable pub print : List Piece → Bytes
print [] = []
print (literal c ∷ ps) = c ∷ print ps
print (token name ∷ ps) = key name ++ print ps

unfoldable pub lookup : Bytes → List (Bytes × Bytes) → Option Bytes
lookup name [] = none
lookup name ((n, v) ∷ vs) = if bytes_eq name n then some v else lookup name vs

-- The text in which each token has become its value, all at once; other tokens stand as they are.
unfoldable pub expand : List (Bytes × Bytes) → List Piece → Bytes
expand vs [] = []
expand vs (literal c ∷ ps) = c ∷ expand vs ps
expand vs (token name ∷ ps) = elim (lookup name vs) [ none ↦ key name | some v ↦ v ] ++ expand vs ps

-- No byte opens a token.
abbrev pub Plain : Bytes → Type 0
Plain s = All (λ c. (c == b'{') ≡ false) s

-- A token's name has no brace.
abbrev pub IsName : Bytes → Type 0
IsName s = All (λ c. ((c == b'{') ≡ false) × ((c == b'}') ≡ false)) s

abbrev pub IsPiece : Piece → Type 0
IsPiece (literal c) = (c == b'{') ≡ false
IsPiece (token name) = IsName name

fill : Bytes → Bytes → List Piece → List Piece
fill n v [] = []
fill n v (literal c ∷ ps) = literal c ∷ fill n v ps
fill n v (token m ∷ ps) =
    if bytes_eq m n then map literal v ++ fill n v ps else token m ∷ fill n v ps

starts_with-key :
    (n m rest : Bytes)
    → IsName n
    → IsName m
    → starts_with (n ++ b'}' ∷ []) ((m ++ b'}' ∷ []) ++ rest) ≡ bytes_eq m n
unfolding starts_with
starts_with-key [] [] rest h k = refl
starts_with-key [] (d ∷ m) rest h k = ground arith
starts_with-key (c ∷ n) [] rest h k = ground arith
starts_with-key (c ∷ n) (d ∷ m) rest h k = ground (arith, starts_with-key n m rest h.1 k.1)

-- A text in which nothing opens a token is passed over.
substitute-Plain :
    (n v p rest : Bytes)
    → Plain p
    → substitute (key n) v 0 (p ++ rest) ≡ p ++ substitute (key n) v 0 rest
unfolding substitute starts_with
substitute-Plain n v [] rest h = refl
substitute-Plain n v (c ∷ p) rest h = ground (arith, substitute-Plain n v p rest h.1)

IsName-Plain : (m : Bytes) → IsName m → Plain (m ++ b'}' ∷ [])
IsName-Plain [] h = (refl, tt)
IsName-Plain (c ∷ m) h = (h.0.0, IsName-Plain m h.1)

print-literals : (v : Bytes) (ps : List Piece) → print (map literal v ++ ps) ≡ v ++ print ps
unfolding print
print-literals [] ps = refl
print-literals (c ∷ v) ps = ap (◌∷◌ c) (print-literals v ps)

expand-literals :
    (vs : List (Bytes × Bytes)) (v : Bytes) (ps : List Piece)
    → expand vs (map literal v ++ ps) ≡ v ++ expand vs ps
unfolding expand
expand-literals vs [] ps = refl
expand-literals vs (c ∷ v) ps = ap (◌∷◌ c) (expand-literals vs v ps)

-- A token of another name is passed over.
substitute-other :
    (n v m rest : Bytes)
    → IsName n
    → IsName m
    → bytes_eq m n ≡ false
    → substitute (key n) v 0 (key m ++ rest) ≡ key m ++ substitute (key n) v 0 rest
unfolding substitute starts_with
substitute-other n v m rest h k differ =
    rw (starts_with-key n m rest h k, differ)
      (ap (◌∷◌ b'{') (substitute-Plain n v (m ++ b'}' ∷ []) rest (IsName-Plain m k)))

substitute-nil : (n v : Bytes) → substitute (key n) v 0 [] ≡ []
unfolding substitute
substitute-nil n v = refl

substitute-print :
    (n v : Bytes) (ps : List Piece)
    → IsName n
    → All IsPiece ps
    → substitute (key n) v 0 (print ps) ≡ print (fill n v ps)
unfolding print fill
substitute-print n v [] h k = substitute-nil n v
substitute-print n v (literal c ∷ ps) h k =
    substitute-Plain n v (c ∷ []) (print ps) (k.0, tt) ∙ ap (◌∷◌ c) (substitute-print n v ps h k.1)
substitute-print n v (token m ∷ ps) h k = elim (Bool-cases (bytes_eq m n)) [
  | inl same ↦
      let e = bytes_eq→≡ m n same in
      rw same (
        ap (λ (t : Bytes). substitute (key n) v 0 (key t ++ print ps)) e
        ∙ substitute-hit b'{' (n ++ b'}' ∷ []) v (print ps)
        ∙ ap (◌++◌ v) (substitute-print n v ps h k.1)
        ∙ sym (print-literals v (fill n v ps)))
  | inr differ ↦ rw differ (
      substitute-other n v m (print ps) h k.0 differ
      ∙ ap (◌++◌ (key m)) (substitute-print n v ps h k.1))
]

All-literals :
    (v : Bytes) (ps : List Piece) → Plain v → All IsPiece ps → All IsPiece (map literal v ++ ps)
All-literals [] ps h k = k
All-literals (c ∷ v) ps h k = (h.0, All-literals v ps h.1 k)

fill-pieces : (n v : Bytes) (ps : List Piece) → Plain v → All IsPiece ps → All IsPiece (fill n v ps)
unfolding fill
fill-pieces n v [] h k = tt
fill-pieces n v (literal c ∷ ps) h k = (k.0, fill-pieces n v ps h k.1)
fill-pieces n v (token m ∷ ps) h k =
    if-cases (All IsPiece) (bytes_eq m n) _ _
      (λ _. All-literals v (fill n v ps) h (fill-pieces n v ps h k.1))
      (λ _. (k.0, fill-pieces n v ps h k.1))

expand-fill :
    (vs : List (Bytes × Bytes)) (n v : Bytes) (ps : List Piece)
    → expand vs (fill n v ps) ≡ expand ((n, v) ∷ vs) ps
unfolding expand fill lookup
expand-fill vs n v [] = refl
expand-fill vs n v (literal c ∷ ps) = ap (◌∷◌ c) (expand-fill vs n v ps)
expand-fill vs n v (token m ∷ ps) = elim (Bool-cases (bytes_eq m n)) [
  | inl same ↦ rw same (expand-literals vs v (fill n v ps) ∙ ap (◌++◌ v) (expand-fill vs n v ps))
  | inr differ ↦
      rw differ
        (ap (◌++◌ (elim (lookup m vs) [ none ↦ key m | some w ↦ w ])) (expand-fill vs n v ps))
]

expand-none : (ps : List Piece) → expand [] ps ≡ print ps
unfolding expand print lookup
expand-none [] = refl
expand-none (literal c ∷ ps) = ap (◌∷◌ c) (expand-none ps)
expand-none (token m ∷ ps) = ap (◌++◌ (key m)) (expand-none ps)

-- Names and the values that they stand for, in the order of the replacements.
abbrev pub keyed : List (Bytes × Bytes) → List (Bytes × Bytes)
keyed vs = map (λ v. (key v.0, v.1)) vs

pub replace_each-expand :
    (vs : List (Bytes × Bytes)) (ps : List Piece)
    → All (λ v. IsName v.0 × Plain v.1) vs
    → All IsPiece ps
    → replace_each (keyed vs) (print ps) ≡ expand vs ps
unfolding replace_each
replace_each-expand [] ps h k = sym (expand-none ps)
replace_each-expand ((n, v) ∷ vs) ps h k =
    ap (replace_each (keyed vs)) (
      (replace_all-substitute b'{' (n ++ b'}' ∷ []) v (print ps)).0
      ∙ substitute-print n v ps h.0.0 k)
    ∙ replace_each-expand vs (fill n v ps) h.1 (fill-pieces n v ps h.0.1 k)
    ∙ expand-fill vs n v ps
