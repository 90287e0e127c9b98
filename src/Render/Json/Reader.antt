-- ===== src/Render/Json/Reader.antt =====
-- A reader of JSON strings, by the grammar of RFC 8259 and not by the renderer's code: it undoes
-- `json_escape_append`.
use sy_log.Prelude.{
  ℕ, zero, suc, ◌+◌, ◌-◌, ◌*◌, ◌/◌, ◌%◌, ◌<◌, ◌≡◌, refl, sym, ap, ◌∙◌, Option, none, some, [], ◌∷◌,
  ◌++◌, append_assoc, append-nil, Bytes, ltb, leb, ◌==◌, ◌&&◌, if◌then◌else◌, arith,
}
use sy_log.Render.Json.{escape_char, escape_loop, json_escape_append, hex_digit, unicode_escape}

-- Where the reader stands: between characters, behind a backslash, or with some digits of a `\u`
-- still to come.
data Mode : Type 0 where
  plain escaped : Mode
  hex : ℕ → ℕ → Mode

hex_value : ℕ → Option ℕ
hex_value c =
    if leb b'0' c && leb c b'9'
    then some (c - b'0')
    else if leb b'a' c && leb c b'f'
    then some (c - b'a' + 10)
    else if leb b'A' c && leb c b'F'
    then some (c - b'A' + 10)
    else none

-- What stands behind a backslash.
unescape : ℕ → Option ℕ
unescape c =
    if c == b'"'
    then some b'"'
    else if c == b'\\'
    then some b'\\'
    else if c == b'/'
    then some b'/'
    else if c == b'b'
    then some 8
    else if c == b'f'
    then some 12
    else if c == b'n'
    then some 10
    else if c == b'r'
    then some 13
    else if c == b't'
    then some 9
    else none

abbrev before : ℕ → Option (Bytes × Bytes) → Option (Bytes × Bytes)
before c none = none
before c (some (s, rest)) = some (c ∷ s, rest)

read_chars : Mode → Bytes → Option (Bytes × Bytes)
read_chars mode [] = none
read_chars plain (c ∷ s) =
    let back = read_chars escaped s in
    let more = read_chars plain s in
    if c == b'"'
    then some ([], s)
    else if c == b'\\'
    then back
    else if ltb c 0x20
    then none
    else before c more
read_chars escaped (c ∷ s) =
    let digits = read_chars (hex 3 0) s in
    let more = read_chars plain s in
    if c == b'u' then digits else elim (unescape c) [ none ↦ none | some d ↦ before d more ]
read_chars (hex zero n) (c ∷ s) =
    let more = read_chars plain s in
    elim (hex_value c) [ none ↦ none | some d ↦ before (n * 16 + d) more ]
read_chars (hex (suc k) n) (c ∷ s) = elim (hex_value c) [
  | none ↦ none
  | some d ↦ read_chars (hex k (n * 16 + d)) s
]

-- A string literal at the front of a text: its contents and what follows it.
pub read_string : Bytes → Option (Bytes × Bytes)
unfolding read_chars
read_string [] = none
read_string (c ∷ s) = let inside = read_chars plain s in if c == b'"' then inside else none

hex_value-hex_digit : (n : ℕ) → n < 16 → hex_value (hex_digit n) ≡ some n
unfolding hex_value
hex_value-hex_digit n h = ground arith

read-unicode_escape :
    (c : ℕ) (rest : Bytes)
    → c < 0x20
    → read_chars plain (unicode_escape c ++ rest) ≡ before c (read_chars plain rest)
unfolding read_chars
read-unicode_escape c rest h =
    rw
      (
        hex_value-hex_digit (c / 4096) (omega arith),
        hex_value-hex_digit (c / 256 % 16) (omega arith),
        hex_value-hex_digit (c / 16 % 16) (omega arith),
        hex_value-hex_digit (c % 16) (omega arith),
      )
      (ap (λ (t : ℕ). before t (read_chars plain rest)) (omega arith))

-- A character that is escaped is read back.
read-escape_char :
    (c : ℕ) (rest : Bytes)
    → read_chars plain (escape_char c ++ rest) ≡ before c (read_chars plain rest)
unfolding read_chars escape_char unescape
read-escape_char c rest = ground (arith, read-unicode_escape c rest)

-- The escaped text without the accumulator.
unfoldable pub escape_all : Bytes → Bytes
escape_all [] = []
escape_all (c ∷ s) = escape_char c ++ escape_all s

pub escape_loop-append : (out s : Bytes) → escape_loop out s ≡ out ++ escape_all s
unfolding escape_loop escape_all
escape_loop-append out [] = sym (append-nil out)
escape_loop-append out (c ∷ s) =
    escape_loop-append (out ++ escape_char c) s ∙ append_assoc out (escape_char c) (escape_all s)

read-escape_all : (s rest : Bytes) → read_chars plain (escape_all s ++ b'"' ∷ rest) ≡ some (s, rest)
unfolding escape_all read_chars
read-escape_all [] rest = refl
read-escape_all (c ∷ s) rest =
    ap (read_chars plain) (append_assoc (escape_char c) (escape_all s) (b'"' ∷ rest))
    ∙ read-escape_char c (escape_all s ++ b'"' ∷ rest)
    ∙ ap (before c) (read-escape_all s rest)

-- A string literal.
unfoldable pub quoted : Bytes → Bytes
quoted s = b'"' ∷ (escape_all s ++ b'"' ∷ [])

pub json_escape_append-quoted : (out s : Bytes) → json_escape_append out s ≡ out ++ quoted s
unfolding json_escape_append quoted
json_escape_append-quoted out s =
    ap (λ t. t ++ b'"' ∷ []) (escape_loop-append (out ++ b'"' ∷ []) s)
    ∙ append_assoc (out ++ b'"' ∷ []) (escape_all s) (b'"' ∷ [])
    ∙ append_assoc out (b'"' ∷ []) (escape_all s ++ b'"' ∷ [])

pub read_string-quoted : (s rest : Bytes) → read_string (quoted s ++ rest) ≡ some (s, rest)
unfolding read_string quoted
read_string-quoted s rest =
    ap (read_chars plain) (append_assoc (escape_all s) (b'"' ∷ []) rest) ∙ read-escape_all s rest

-- What is appended to the buffer is a string literal of which a reader by the JSON grammar gets
-- the text back, whatever its bytes, with what follows the literal left over.
pub read_string-json_escape_append :
    (out s rest : Bytes)
    → (literal : Bytes) × (json_escape_append out s ≡ out ++ literal)
      × (read_string (literal ++ rest) ≡ some (s, rest))
read_string-json_escape_append out s rest =
    (quoted s, json_escape_append-quoted out s, read_string-quoted s rest)
