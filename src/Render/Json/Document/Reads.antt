-- ===== src/Render/Json/Document/Reads.antt =====
-- Reading what was printed.
use sy_log.Prelude.{
  ℕ, zero, suc, ◌+◌, ◌<◌, ◌≤◌, ◌≡◌, refl, ap, ◌∙◌, Bool, true, false, Option, none, some, [], ◌∷◌,
  ◌++◌, append_assoc, Bytes, length, length-append, All, ◌==◌, arith,
}
use sy_log.Render.Json.Document.Parse.{
  ◌>>=◌, number_byte, take_number, strip, read_constant, read_token, read_value, read_members, Ends,
  IsNumber, IsValue, AreValues,
}
use sy_log.Render.Json.Document.{
  Json, Members, null, bool, number, text, object, end, member, comma, print_value, print_members,
}
use sy_log.Render.Json.Reader.{quoted, escape_all, read_string-quoted}

take_number-append :
    (digits rest : Bytes)
    → All (λ d. number_byte d ≡ true) digits
    → Ends rest
    → take_number (digits ++ rest) ≡ (digits, rest)
unfolding take_number
take_number-append [] [] h k = refl
take_number-append [] (c ∷ rest) h k = rw k
take_number-append (d ∷ digits) rest h k = rw (h.0, take_number-append digits rest h.1 k)

strip-append : (key rest : Bytes) → strip key (key ++ rest) ≡ some rest
unfolding strip
strip-append [] rest = refl
strip-append (c ∷ key) rest = ground (arith, strip-append key rest)

Ends-members : (ms : Members) (rest : Bytes) → Ends (print_members false ms ++ b'}' ∷ rest)
unfolding print_members number_byte
Ends-members end rest = refl
Ends-members (member key v ms) rest = refl

-- One token, printed and read.
read_token-number :
    (c : ℕ) (digits rest : Bytes)
    → IsNumber (c ∷ digits)
    → Ends rest
    → read_token (c ∷ (digits ++ rest)) ≡ some (number (c ∷ digits), rest)
unfolding read_token
read_token-number c digits rest h k =
    let quote : (c == b'"') ≡ false = unfold number_byte in ground (arith, h.0) in
    rw (quote, h.0, take_number-append (c ∷ digits) rest h k) refl

read_token-text : (s rest : Bytes) → read_token (quoted s ++ rest) ≡ some (text s, rest)
unfolding read_token quoted
read_token-text s rest =
    ap (λ (o : Option (Bytes × Bytes)). o >>= λ r. some (text r.0, r.1)) (read_string-quoted s rest)

-- A value that is one token is read as one.
strip-brace : (c : ℕ) (s : Bytes) → (c == b'{') ≡ false → strip (b'{' ∷ []) (c ∷ s) ≡ none
unfolding strip
strip-brace c s h = ground arith

-- A printed object, at the front of a text: the brackets stand apart.
object-front :
    (ms : Members) (rest : Bytes)
    → print_value (object ms) ++ rest ≡ b'{' ∷ (print_members true ms ++ b'}' ∷ rest)
unfolding print_value
object-front ms rest = ap (◌∷◌ b'{') (append_assoc (print_members true ms) (b'}' ∷ []) rest)

member-front :
    (first : Bool) (key : Bytes) (v : Json) (ms : Members) (rest : Bytes)
    → print_members first (member key v ms) ++ rest
      ≡ comma first ++ (quoted key ++ b':' ∷ (print_value v ++ (print_members false ms ++ rest)))
unfolding print_members
member-front first key v ms rest =
    append_assoc (comma first) (quoted key ++ b':' ∷ (print_value v ++ print_members false ms)) rest
    ∙ ap (◌++◌ (comma first)) (
        append_assoc (quoted key) (b':' ∷ (print_value v ++ print_members false ms)) rest
        ∙ ap (λ (t : Bytes). quoted key ++ b':' ∷ t)
            (append_assoc (print_value v) (print_members false ms) rest))

read_value-token :
    (fuel : ℕ) (s : Bytes) → strip (b'{' ∷ []) s ≡ none → read_value (suc fuel) s ≡ read_token s
unfolding read_value
read_value-token fuel s h = rw (h, read_value)

read_value-null :
    (fuel : ℕ) (rest : Bytes) → read_value (suc fuel) (print_value null ++ rest) ≡ some (null, rest)
unfolding read_value read_token read_constant strip number_byte print_value
read_value-null fuel rest = refl

read_value-bool :
    (b : Bool) (fuel : ℕ) (rest : Bytes)
    → read_value (suc fuel) (print_value (bool b) ++ rest) ≡ some (bool b, rest)
unfolding read_value read_token read_constant strip number_byte print_value
read_value-bool true fuel rest = refl
read_value-bool false fuel rest = refl

read_value-number :
    (c : ℕ) (digits : Bytes) (fuel : ℕ) (rest : Bytes)
    → IsNumber (c ∷ digits)
    → Ends rest
    → read_value (suc fuel) (print_value (number (c ∷ digits)) ++ rest)
      ≡ some (number (c ∷ digits), rest)
unfolding print_value
read_value-number c digits fuel rest h k =
    let brace : (c == b'{') ≡ false = unfold number_byte in ground (arith, h.0) in
    read_value-token fuel (c ∷ (digits ++ rest)) (strip-brace c (digits ++ rest) brace)
    ∙ read_token-number c digits rest h k

read_value-text :
    (s : Bytes) (fuel : ℕ) (rest : Bytes)
    → read_value (suc fuel) (print_value (text s) ++ rest) ≡ some (text s, rest)
unfolding print_value strip quoted
read_value-text s fuel rest = read_value-token fuel (quoted s ++ rest) refl ∙ read_token-text s rest

read_value-object :
    (fuel : ℕ) (s : Bytes)
    → read_value (suc fuel) (b'{' ∷ s) ≡ (read_members fuel true s >>= λ r. some (object r.0, r.1))
unfolding read_value strip
read_value-object fuel s = refl

read_members-end :
    (first : Bool) (fuel : ℕ) (rest : Bytes)
    → read_members (suc fuel) first (print_members first end ++ b'}' ∷ rest) ≡ some (end, rest)
unfolding read_members print_members strip
read_members-end first fuel rest = refl

-- What is done for a member whose key has been read.
abbrev with_value : ℕ → Bytes → Bytes → Option (Members × Bytes)
with_value fuel key s = read_value fuel s >>= λ v.
    read_members fuel false v.1 >>= λ ms. some (member key v.0 ms.0, ms.1)

read_members-member :
    (first : Bool) (fuel : ℕ) (key s : Bytes)
    → read_members (suc fuel) first (comma first ++ (quoted key ++ b':' ∷ s))
      ≡ with_value fuel key s
unfolding read_members strip quoted
read_members-member true fuel key s =
    ap
      (λ (o : Option (Bytes × Bytes)).
        o >>= λ k. strip (b':' ∷ []) k.1 >>= λ s2. with_value fuel k.0 s2)
      (read_string-quoted key (b':' ∷ s))
read_members-member false fuel key s =
    ap
      (λ (o : Option (Bytes × Bytes)).
        o >>= λ k. strip (b':' ∷ []) k.1 >>= λ s2. with_value fuel k.0 s2)
      (read_string-quoted key (b':' ∷ s))

length-object :
    (ms : Members) → length (print_value (object ms)) ≡ length (print_members true ms) + 2
unfolding print_value
length-object ms = omega (arith, length-append (print_members true ms) (b'}' ∷ []))

length-member :
    (first : Bool) (key : Bytes) (v : Json) (ms : Members)
    → length (print_value v) + length (print_members false ms) + 2
      ≤ length (print_members first (member key v ms))
unfolding print_members quoted
length-member first key v ms = omega (
  arith,
  length-append (comma first) (quoted key ++ b':' ∷ (print_value v ++ print_members false ms)),
  length-append (escape_all key ++ b'"' ∷ []) (b':' ∷ (print_value v ++ print_members false ms)),
  length-append (print_value v) (print_members false ms),
)

mutual
  unfolding IsValue

  pub read_value-print :
      (v : Json) (fuel : ℕ) (rest : Bytes)
      → length (print_value v) < fuel
      → Ends rest
      → IsValue IsNumber v
      → read_value fuel (print_value v ++ rest) ≡ some (v, rest)
  read_value-print v zero rest h k w = absurd (omega arith)
  read_value-print null (suc fuel) rest h k w = read_value-null fuel rest
  read_value-print (bool true) (suc fuel) rest h k w = read_value-bool true fuel rest
  read_value-print (bool false) (suc fuel) rest h k w = read_value-bool false fuel rest
  read_value-print (number []) (suc fuel) rest h k w = elim w [ ]
  read_value-print (number (c ∷ digits)) (suc fuel) rest h k w =
      read_value-number c digits fuel rest w k
  read_value-print (text s) (suc fuel) rest h k w = read_value-text s fuel rest
  read_value-print (object ms) (suc fuel) rest h k w =
      ap (read_value (suc fuel)) (object-front ms rest)
      ∙ read_value-object fuel (print_members true ms ++ b'}' ∷ rest)
      ∙ ap (λ (o : Option (Members × Bytes)). o >>= λ r. some (object r.0, r.1))
          (read_members-print ms true fuel rest (omega (arith, length-object ms)) w)

  read_members-print :
      (ms : Members) (first : Bool) (fuel : ℕ) (rest : Bytes)
      → length (print_members first ms) + 1 < fuel
      → AreValues IsNumber ms
      → read_members fuel first (print_members first ms ++ b'}' ∷ rest) ≡ some (ms, rest)
  read_members-print ms first zero rest h w = absurd (omega arith)
  read_members-print end first (suc fuel) rest h w = read_members-end first fuel rest
  read_members-print (member key v ms) first (suc fuel) rest h w =
      let tail = print_members false ms ++ b'}' ∷ rest in
      let bound = length-member first key v ms in
      ap (read_members (suc fuel) first) (member-front first key v ms (b'}' ∷ rest))
      ∙ read_members-member first fuel key (print_value v ++ tail)
      ∙ ap
          (λ (o : Option (Json × Bytes)).
            o >>= λ r. read_members fuel false r.1 >>= λ q. some (member key r.0 q.0, q.1))
          (read_value-print v fuel tail (omega (arith, bound)) (Ends-members ms rest) w.0)
      ∙ ap (λ (o : Option (Members × Bytes)). o >>= λ q. some (member key v q.0, q.1))
          (read_members-print ms false fuel rest (omega (arith, bound)) w.1)
