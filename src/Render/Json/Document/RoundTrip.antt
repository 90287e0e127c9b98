-- ===== src/Render/Json/Document/RoundTrip.antt =====
-- Rendered records as printed objects, and a reader of them: src/renderers/json_renderer.cpp.
use sy_log.Event.{
  ℤ, pos, negsuc, Event, Field, FieldValue, monostate, boolean, int64, double, string,
}
use sy_log.Host.{Host, format_unsigned, format_signed}
use sy_log.Host.Decimal.{format_unsigned-All, format_unsigned_pos}
use sy_log.Prelude.{
  ℕ, suc, ◌<◌, ◌≡◌, refl, ap, ◌∙◌, true, Option, some, List, [], ◌∷◌, ◌++◌, Bytes, length,
  length-append, All, arith, if-cases,
}
use sy_log.Render.Json.{JsonRenderer, render_json, has_fields}
use sy_log.Render.Json.Document.{
  Json, print_value, field_value, field_members, with_thread, source_value, with_source,
  last_members, document,
}
use sy_log.Render.Json.Document.Parse.{number_byte, Ends, read_value, IsNumber, IsValue, AreValues}
use sy_log.Render.Json.Document.Grammar.{InGrammar, unsigned-InGrammar, signed-InGrammar}
use sy_log.Render.Json.Document.Reads.{read_value-print}
use sy_log.Render.Json.Document.Renders.{render_json-document}

-- A value at the front of a text, with as much fuel as the text is long.
pub read_document : Bytes → Option (Json × Bytes)
read_document s = read_value (length s) s

newline-Ends : Ends (b'\n' ∷ [])
unfolding number_byte
newline-Ends = refl

bytes-IsNumber : (s : Bytes) → 0 < length s → All (λ d. number_byte d ≡ true) s → IsNumber s
bytes-IsNumber [] h k = absurd (omega arith)
bytes-IsNumber (c ∷ s) h k = k

unsigned-IsNumber : (n : ℕ) → IsNumber (format_unsigned n)
unfolding number_byte
unsigned-IsNumber n =
    bytes-IsNumber (format_unsigned n) (format_unsigned_pos n)
      (format_unsigned-All (λ d. number_byte d ≡ true) (λ d h. ground arith) n)

signed-IsNumber : (z : ℤ) → IsNumber (format_signed z)
unfolding format_signed number_byte
signed-IsNumber (pos n) = unsigned-IsNumber n
signed-IsNumber (negsuc n) =
    (refl, format_unsigned-All (λ d. number_byte d ≡ true) (λ d h. ground arith) (suc n))

-- A double among the fields is one whose text is such a number.
abbrev pub Prints : (Bytes → Type 0) → Host → FieldValue → Type 0
Prints N host monostate = Unit
Prints N host (boolean val) = Unit
Prints N host (int64 val) = Unit
Prints N host (double val) = N (host.format_double val)
Prints N host (string val) = Unit

-- Not an infinity, and not NaN.
abbrev pub PrintsNumber : Host → FieldValue → Type 0
PrintsNumber = Prints IsNumber

module _ (N : Bytes → Type 0) (unsigned_ : (n : ℕ) → N (format_unsigned n))
    (signed_ : (z : ℤ) → N (format_signed z)) (host : Host) where
  field_value-IsValue : (v : FieldValue) → Prints N host v → IsValue N (field_value host v)
  unfolding IsValue field_value
  field_value-IsValue monostate h = tt
  field_value-IsValue (boolean val) h = tt
  field_value-IsValue (int64 val) h = signed_ val
  field_value-IsValue (double val) h = h
  field_value-IsValue (string val) h = tt

  fields-AreValues :
      (fs : List Field) → All (λ f. Prints N host f.value) fs → AreValues N (field_members host fs)
  unfolding AreValues field_members
  fields-AreValues [] h = tt
  fields-AreValues (f ∷ fs) h = (field_value-IsValue f.value h.0, fields-AreValues fs h.1)

  document-IsValue :
      (r : JsonRenderer) (e : Event)
      → All (λ f. Prints N host f.value) e.fields
      → IsValue N (document host r e)
  unfolding document IsValue with_thread with_source last_members source_value
  document-IsValue r e h =
      let last : AreValues N (last_members host r e) =
        if-cases (AreValues N) r.includes_fields _ _
          (λ _.
            if-cases (AreValues N) (has_fields e.fields) _ _
              (λ _. (fields-AreValues e.fields h, tt)) (λ _. tt))
          (λ _. tt) in
      let source : AreValues N (with_source r e (last_members host r e)) =
        if-cases (AreValues N) r.includes_source _ _
          (λ _. ((tt, (unsigned_ e.source.line, (tt, tt))), last)) (λ _. last) in
      let thread : AreValues N (with_thread host r e (with_source r e (last_members host r e))) =
        if-cases (AreValues N) r.includes_thread _ _
          (λ _. (unsigned_ (host.thread_hash e.thread_id), source)) (λ _. source) in
      (tt, (tt, (tt, (tt, thread))))

module _ (host : Host) where
  -- If the text of each double among the fields is a number by the JSON grammar, which excludes
  -- infinities and NaN, then the record that the renderer appends piece by piece is, whatever the
  -- buffer held, the printed text of the one object that stands for the event, and a newline; and
  -- each number in that object, the line, the thread and the integers of the fields included, is
  -- one by the JSON grammar.
  pub render_json-printed :
      (r : JsonRenderer) (e : Event) (old : Bytes)
      → All (λ f. Prints InGrammar host f.value) e.fields
      → (render_json host r e old ≡ print_value (document host r e) ++ b'\n' ∷ [])
        × IsValue InGrammar (document host r e)
  render_json-printed r e old h = (
    render_json-document host r e old,
    document-IsValue InGrammar unsigned-InGrammar signed-InGrammar host r e h,
  )

  -- If the text of each double among the fields is a number, then a reader by the JSON grammar
  -- gets from the rendered record the event's object, as the renderer's switches select its
  -- members, and what is left over is the newline.
  pub read_document-render_json :
      (r : JsonRenderer) (e : Event) (old : Bytes)
      → All (λ f. PrintsNumber host f.value) e.fields
      → read_document (render_json host r e old) ≡ some (document host r e, b'\n' ∷ [])
  unfolding read_document
  read_document-render_json r e old h =
      let whole = print_value (document host r e) ++ b'\n' ∷ [] in
      ap read_document (render_json-document host r e old)
      ∙ read_value-print (document host r e) (length whole) (b'\n' ∷ [])
          (omega (arith, length-append (print_value (document host r e)) (b'\n' ∷ []))) newline-Ends
          (document-IsValue IsNumber unsigned-IsNumber signed-IsNumber host r e h)
