-- ===== src/Render/Json/Document/Parse.antt =====
-- A reader of JSON values, with numbers kept as texts, and the values that it reads back.
use sy_log.Prelude.{
  ℕ, zero, suc, ◌≡◌, Bool, true, false, Option, none, some, [], ◌∷◌, Bytes, codes, All, leb, ◌==◌,
  ◌&&◌, ◌||◌, if◌then◌else◌,
}
use sy_log.Render.Json.Document.{
  Json, Members, null, bool, number, text, object, end, member, comma,
}
use sy_log.Render.Json.Reader.{read_string}

infixl 5 ◌>>=◌
abbrev pub ◌>>=◌ {ℓ κ} : {A : Type ℓ} {B : Type κ} → Option A → (A → Option B) → Option B
none >>= f = none
some a >>= f = f a

-- A byte of a number: a digit, a sign, a point or an exponent's letter.
unfoldable pub number_byte : ℕ → Bool
number_byte c =
    (leb b'0' c && leb c b'9') || c == b'-' || c == b'+' || c == b'.' || c == b'e' || c == b'E'

-- The longest number at the front of a text, and what follows it.
unfoldable pub take_number : Bytes → Bytes × Bytes
take_number [] = ([], [])
take_number (c ∷ s) =
    let (digits, rest) = take_number s in if number_byte c then (c ∷ digits, rest) else ([], c ∷ s)

-- What follows a text that is expected.
unfoldable pub strip : Bytes → Bytes → Option Bytes
strip [] s = some s
strip (c ∷ key) [] = none
strip (c ∷ key) (d ∷ s) = if c == d then strip key s else none

unfoldable pub read_constant : Bytes → Json → Bytes → Option (Json × Bytes)
read_constant key v s = strip key s >>= λ rest. some (v, rest)

-- A value of one token.
unfoldable pub read_token : Bytes → Option (Json × Bytes)
read_token [] = none
read_token (c ∷ s) =
    if c == b'"'
    then (read_string (c ∷ s) >>= λ r. some (text r.0, r.1))
    else if number_byte c
    then some (number (take_number (c ∷ s)).0, (take_number (c ∷ s)).1)
    else if c == b'n'
    then read_constant (codes "null") null (c ∷ s)
    else if c == b't'
    then read_constant (codes "true") (bool true) (c ∷ s)
    else read_constant (codes "false") (bool false) (c ∷ s)

unfoldable mutual
  pub read_value : ℕ → Bytes → Option (Json × Bytes)
  read_value zero s = none
  read_value (suc fuel) s = elim (strip (b'{' ∷ []) s) [
    | none ↦ read_token s
    | some rest ↦ read_members fuel true rest >>= λ r. some (object r.0, r.1)
  ]

  pub read_members : ℕ → Bool → Bytes → Option (Members × Bytes)
  read_members zero first s = none
  read_members (suc fuel) first s = elim (strip (b'}' ∷ []) s) [
    | some rest ↦ some (end, rest)
    | none ↦ strip (comma first) s >>= λ s1. read_string s1 >>= λ k. strip (b':' ∷ []) k.1 >>= λ s2.
        read_value fuel s2 >>= λ v.
        read_members fuel false v.1 >>= λ ms. some (member k.0 v.0 ms.0, ms.1)
  ]

-- No byte of a number goes on at the front.
abbrev pub Ends : Bytes → Type 0
Ends [] = Unit
Ends (c ∷ s) = number_byte c ≡ false

-- A number's text is not empty and has a number's bytes.
abbrev pub IsNumber : Bytes → Type 0
IsNumber [] = ⊥
IsNumber (c ∷ s) = (number_byte c ≡ true) × All (λ d. number_byte d ≡ true) s

-- Each number in the value is such a text.
unfoldable mutual
  pub IsValue : (Bytes → Type 0) → Json → Type 0
  IsValue N null = Unit
  IsValue N (bool b) = Unit
  IsValue N (number digits) = N digits
  IsValue N (text s) = Unit
  IsValue N (object ms) = AreValues N ms

  pub AreValues : (Bytes → Type 0) → Members → Type 0
  AreValues N end = Unit
  AreValues N (member key v ms) = IsValue N v × AreValues N ms
