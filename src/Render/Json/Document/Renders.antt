-- ===== src/Render/Json/Document/Renders.antt =====
-- `JsonRenderer::render` prints the document of the event.
use sy_log.Event.{Event, Field, FieldValue, monostate, boolean, int64, double, string}
use sy_log.Host.{Host}
use sy_log.Prelude.{
  ℕ, suc, zero, ◌≡◌, refl, sym, ap, ◌∙◌, true, false, List, [], ◌∷◌, ◌++◌, append_assoc, append-nil,
  Bytes, codes, ◌==◌, Bool-cases, inl, inr, arith,
}
use sy_log.Render.Json.{
  JsonRenderer, json_escape_append, json_value_append, append_thread, append_source, fields_loop,
  append_fields, render_json, escape_char, has_fields,
}
use sy_log.Render.Json.Document.{
  Members, print_value, print_members, field_value, field_members, with_thread, source_value,
  with_source, last_members, document,
}
use sy_log.Render.Json.Reader.{quoted, escape_all, json_escape_append-quoted}
use sy_log.Render.Time.{format_time}

ruleset texts = (append_assoc, json_escape_append-quoted, append-nil)

suc-ne : (i : ℕ) → (suc i == 0) ≡ false
suc-ne i = ground arith

module _ (host : Host) where
  value-print :
      (out : Bytes) (v : FieldValue)
      → json_value_append host out v ≡ out ++ print_value (field_value host v)
  unfolding json_value_append print_value field_value
  value-print out monostate = refl
  value-print out (boolean true) = refl
  value-print out (boolean false) = refl
  value-print out (int64 val) = refl
  value-print out (double val) = refl
  value-print out (string val) = json_escape_append-quoted out val

  fields-print :
      (i : ℕ) (fs : List Field) (out : Bytes)
      → fields_loop host i fs out ≡ out ++ print_members (i == 0) (field_members host fs)
  unfolding fields_loop print_members field_members
  fields-print i [] out = sym (append-nil out)
  fields-print zero (f ∷ fs) out = fields-print 1 fs _ ∙ simp (texts, value-print)
  fields-print (suc i) (f ∷ fs) out =
      rw (suc-ne i)
        (fields-print (suc (suc i)) fs _ ∙ rw (suc-ne (suc i)) (simp (texts, value-print)))

  thread-print :
      (r : JsonRenderer) (e : Event) (ms : Members) (out : Bytes)
      → append_thread host r e out ++ print_members false ms
        ≡ out ++ print_members false (with_thread host r e ms)
  unfolding append_thread with_thread print_members print_value quoted escape_all escape_char
  thread-print r e ms out = elim (Bool-cases r.includes_thread) [
    | inl on ↦ rw on (simp texts)
    | inr off ↦ rw off refl
  ]

  source-print :
      (r : JsonRenderer) (e : Event) (ms : Members) (out : Bytes)
      → append_source r e out ++ print_members false ms
        ≡ out ++ print_members false (with_source r e ms)
  unfolding append_source with_source source_value print_members print_value escape_all escape_char
  source-print r e ms out = elim (Bool-cases r.includes_source) [
    | inl on ↦ rw on (simp texts)
    | inr off ↦ rw off refl
  ]

  last-print :
      (r : JsonRenderer) (e : Event) (out : Bytes)
      → append_fields host r e out ≡ out ++ print_members false (last_members host r e)
  unfolding append_fields last_members print_members print_value escape_all escape_char
  last-print r e out = elim (Bool-cases r.includes_fields) [
    | inr off ↦ rw off (sym (append-nil out))
    | inl on ↦ elim (Bool-cases (has_fields e.fields)) [
      | inr none_ ↦ rw (on, none_) (sym (append-nil out))
      | inl some_ ↦ rw (on, some_) (simp (texts, fields-print))
    ]
  ]

  -- The record that the renderer appends piece by piece is the event's object as `print_value`
  -- prints it, the texts of its numbers as they are, and a newline.
  pub render_json-document :
      (r : JsonRenderer) (e : Event) (old : Bytes)
      → render_json host r e old ≡ print_value (document host r e) ++ b'\n' ∷ []
  unfolding render_json document print_value print_members escape_all escape_char
  render_json-document r e old =
      let ms = with_source r e (last_members host r e) in
      let message =
        json_escape_append
          (json_escape_append
              (json_escape_append
                  (json_escape_append (b'{' ∷ codes "\"time\":") (format_time host e.timestamp)
                    ++ codes ",\"level\":")
                  e.severity_name
                ++ codes ",\"endpoint\":")
              e.endpoint
            ++ codes ",\"message\":")
          e.message in
      ap (λ (t : Bytes). t ++ codes "}\n")
        (last-print r e (append_source r e (append_thread host r e message))
          ∙ source-print r e (last_members host r e) (append_thread host r e message)
          ∙ thread-print r e ms message)
      ∙ simp texts
