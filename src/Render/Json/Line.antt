-- ===== src/Render/Json/Line.antt =====
-- A rendered record is one line: no control character stands before its final newline.
use sy_log.Event.{
  Event, Field, FieldValue, ℤ, pos, negsuc, monostate, boolean, int64, double, string,
}
use sy_log.Host.{Host, digits_before, format_unsigned, format_signed}
use sy_log.Prelude.{
  ℕ, zero, suc, ◌/◌, ◌≤◌, ◌≡◌, sym, true, false, List, [], ◌∷◌, ◌++◌, append_assoc, Bytes, codes,
  All, All-append, arith, ltb, if◌then◌else◌, ◌==◌, if-cases,
}
use sy_log.Render.Json.{
  escape_char, escape_loop, json_escape_append, json_value_append, JsonRenderer, append_thread,
  append_source, fields_loop, append_fields, render_json,
}
use sy_log.Render.Time.{format_time}

abbrev pub Printable : Bytes → Type 0
Printable s = All (λ c. 32 ≤ c) s

join : (xs ys : Bytes) → Printable xs → Printable ys → Printable (xs ++ ys)
join xs ys h k = All-append (λ c. 32 ≤ c) xs ys h k

escape_char-Printable : (c : ℕ) → Printable (escape_char c)
unfolding escape_char
escape_char-Printable c = ground arith

escape_loop-Printable : (out s : Bytes) → Printable out → Printable (escape_loop out s)
unfolding escape_loop
escape_loop-Printable out [] h = h
escape_loop-Printable out (c ∷ s) h =
    escape_loop-Printable (out ++ escape_char c) s
      (join out (escape_char c) h (escape_char-Printable c))

literal-Printable : (out s : Bytes) → Printable out → Printable (json_escape_append out s)
unfolding json_escape_append
literal-Printable out s h =
    join _ (b'"' ∷ [])
      (escape_loop-Printable (out ++ b'"' ∷ []) s (join out (b'"' ∷ []) h (omega arith)))
      (omega arith)

digits_before-Printable :
    (fuel n : ℕ) (out : Bytes) → Printable out → Printable (digits_before fuel n out)
unfolding digits_before
digits_before-Printable zero n out h = h
digits_before-Printable (suc fuel) n out h =
    if-cases Printable (ltb n 10) _ _ (λ _. (omega arith, h))
      (λ _. digits_before-Printable fuel (n / 10) _ (omega arith, h))

unsigned-Printable : (n : ℕ) → Printable (format_unsigned n)
unfolding format_unsigned
unsigned-Printable n = digits_before-Printable (suc n) n [] tt

signed-Printable : (z : ℤ) → Printable (format_signed z)
unfolding format_signed
signed-Printable (pos n) = unsigned-Printable n
signed-Printable (negsuc n) = (omega arith, unsigned-Printable (suc n))

-- What the program relies on: `std::format` of a double gives no control character.
abbrev pub PrintsDoubles : Host → Type 0
PrintsDoubles host = (d : ℕ) → Printable (host.format_double d)

module _ (host : Host) (doubles : PrintsDoubles host) where
  value-Printable :
      (out : Bytes) (v : FieldValue) → Printable out → Printable (json_value_append host out v)
  unfolding json_value_append
  value-Printable out monostate h = join out _ h (omega arith)
  value-Printable out (boolean true) h = join out _ h (omega arith)
  value-Printable out (boolean false) h = join out _ h (omega arith)
  value-Printable out (int64 val) h = join out _ h (signed-Printable val)
  value-Printable out (double val) h = join out _ h (doubles val)
  value-Printable out (string val) h = literal-Printable out val h

  fields-Printable :
      (i : ℕ) (fs : List Field) (out : Bytes)
      → Printable out
      → Printable (fields_loop host i fs out)
  unfolding fields_loop
  fields-Printable i [] out h = h
  fields-Printable i (f ∷ fs) out h =
      let comma : Printable (if i == 0 then out else out ++ b',' ∷ []) =
        if-cases Printable (i == 0) _ _ (λ _. h) (λ _. join out _ h (omega arith)) in
      let key = join _ (b':' ∷ []) (literal-Printable _ f.key comma) (omega arith) in
      fields-Printable (suc i) fs _ (value-Printable _ f.value key)

  thread-Printable :
      (r : JsonRenderer) (e : Event) (out : Bytes)
      → Printable out
      → Printable (append_thread host r e out)
  unfolding append_thread
  thread-Printable r e out h =
      if-cases Printable r.includes_thread _ _
        (λ _. join _ _ (join out (codes ",\"tid\":") h (omega arith)) (unsigned-Printable _))
        (λ _. h)

  source-Printable :
      (r : JsonRenderer) (e : Event) (out : Bytes)
      → Printable out
      → Printable (append_source r e out)
  unfolding append_source
  source-Printable r e out h =
      let file =
        literal-Printable _ e.source.file_name
          (join out (codes ",\"source\":{\"file\":") h (omega arith)) in
      let line =
        join _ _ (join _ (codes ",\"line\":") file (omega arith))
          (unsigned-Printable e.source.line) in
      let func =
        literal-Printable _ e.source.function_name
          (join _ (codes ",\"func\":") line (omega arith)) in
      if-cases Printable r.includes_source _ _ (λ _. join _ (codes "}") func (omega arith)) (λ _. h)

  all_fields-Printable :
      (r : JsonRenderer) (e : Event) (out : Bytes)
      → Printable out
      → Printable (append_fields host r e out)
  unfolding append_fields
  all_fields-Printable r e out h =
      if-cases Printable _ _ _
        (λ _.
          join _ (codes "}")
            (fields-Printable 0 e.fields _ (join out (codes ",\"fields\":{") h (omega arith)))
            (omega arith))
        (λ _. h)

  -- If the text of a double has no control character, then a rendered record is a text without
  -- control characters and a newline, whatever the event holds.
  pub render_json_line :
      (r : JsonRenderer) (e : Event) (old : Bytes)
      → (line : Bytes) × (render_json host r e old ≡ line ++ b'\n' ∷ []) × Printable line
  unfolding render_json
  render_json_line r e old =
      let head =
        literal-Printable (b'{' ∷ codes "\"time\":") (format_time host e.timestamp) (omega arith) in
      let level =
        literal-Printable _ e.severity_name (join _ (codes ",\"level\":") head (omega arith)) in
      let endpoint =
        literal-Printable _ e.endpoint (join _ (codes ",\"endpoint\":") level (omega arith)) in
      let message =
        literal-Printable _ e.message (join _ (codes ",\"message\":") endpoint (omega arith)) in
      let body =
        all_fields-Printable r e _ (source-Printable r e _ (thread-Printable r e _ message)) in
      (_, sym (append_assoc _ (b'}' ∷ []) (b'\n' ∷ [])), join _ (b'}' ∷ []) body (omega arith))
