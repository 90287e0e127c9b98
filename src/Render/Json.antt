-- ===== src/Render/Json.antt =====
-- src/renderers/json_renderer.cpp: `JsonRenderer`.
pub mod Reader
pub mod Line
pub mod Document
use sy_log.Event.{Event, Field, FieldValue, monostate, boolean, int64, double, string}
use sy_log.Host.{Host, format_unsigned, format_signed}
use sy_log.Prelude.{
  ℕ, suc, ◌+◌, ◌/◌, ◌%◌, Bool, true, false, List, [], ◌∷◌, ◌++◌, Bytes, codes, ltb, ◌==◌,
  if◌then◌else◌, ◌-◌, ◌&&◌,
}
use sy_log.Render.Time.{format_time}

abbrev pub hex_digit : ℕ → ℕ
hex_digit n = if ltb n 10 then b'0' + n else b'a' + n - 10

-- `std::format("\\u{:04x}", n)` of a number below 65536.
abbrev pub unicode_escape : ℕ → Bytes
unicode_escape n =
    b'\\'
    ∷ b'u'
    ∷ hex_digit (n / 4096)
    ∷ hex_digit (n / 256 % 16)
    ∷ hex_digit (n / 16 % 16)
    ∷ hex_digit (n % 16)
    ∷ []

-- What one round of the loop appends.
unfoldable pub escape_char : ℕ → Bytes
escape_char c =
    if c == b'"'
    then b'\\' ∷ b'"' ∷ []
    else if c == b'\\'
    then b'\\' ∷ b'\\' ∷ []
    else if c == 8
    then b'\\' ∷ b'b' ∷ []
    else if c == 12
    then b'\\' ∷ b'f' ∷ []
    else if c == b'\n'
    then b'\\' ∷ b'n' ∷ []
    else if c == 13
    then b'\\' ∷ b'r' ∷ []
    else if c == 9
    then b'\\' ∷ b't' ∷ []
    else if ltb c 0x20
    then unicode_escape c
    else c ∷ []

unfoldable pub escape_loop : Bytes → Bytes → Bytes
escape_loop out [] = out
escape_loop out (c ∷ s) = escape_loop (out ++ escape_char c) s

unfoldable pub json_escape_append : Bytes → Bytes → Bytes
json_escape_append out s = escape_loop (out ++ b'"' ∷ []) s ++ b'"' ∷ []

unfoldable pub json_value_append : Host → Bytes → FieldValue → Bytes
json_value_append host out monostate = out ++ codes "null"
json_value_append host out (boolean val) = out ++ (if val then codes "true" else codes "false")
json_value_append host out (int64 val) = out ++ format_signed val
json_value_append host out (double val) = out ++ host.format_double val
json_value_append host out (string val) = json_escape_append out val

pub record JsonRenderer : Type 0 where
  pub includes_source : Bool
  pub includes_thread : Bool
  pub includes_fields : Bool

abbrev pub default_renderer : JsonRenderer
default_renderer = record { includes_source = true; includes_thread = true; includes_fields = true }

unfoldable pub append_thread : Host → JsonRenderer → Event → Bytes → Bytes
append_thread host r e out =
    if r.includes_thread
    then out ++ codes ",\"tid\":" ++ format_unsigned (host.thread_hash e.thread_id)
    else out

unfoldable pub append_source : JsonRenderer → Event → Bytes → Bytes
append_source r e out =
    let file = json_escape_append (out ++ codes ",\"source\":{\"file\":") e.source.file_name in
    let line = file ++ codes ",\"line\":" ++ format_unsigned e.source.line in
    let func = json_escape_append (line ++ codes ",\"func\":") e.source.function_name in
    if r.includes_source then func ++ codes "}" else out

unfoldable pub fields_loop : Host → ℕ → List Field → Bytes → Bytes
fields_loop host i [] out = out
fields_loop host i (f ∷ fs) out =
    let comma = if i == 0 then out else out ++ b',' ∷ [] in
    let key = json_escape_append comma f.key ++ b':' ∷ [] in
    fields_loop host (suc i) fs (json_value_append host key f.value)

unfoldable pub has_fields : List Field → Bool
has_fields [] = false
has_fields (f ∷ fs) = true

unfoldable pub append_fields : Host → JsonRenderer → Event → Bytes → Bytes
unfolding has_fields
append_fields host r e out =
    if r.includes_fields && has_fields e.fields
    then fields_loop host 0 e.fields (out ++ codes ",\"fields\":{") ++ codes "}"
    else out

-- The old text of the buffer is cleared.
unfoldable pub render_json : Host → JsonRenderer → Event → Bytes → Bytes
render_json host r e out =
    let head = json_escape_append (b'{' ∷ codes "\"time\":") (format_time host e.timestamp) in
    let level = json_escape_append (head ++ codes ",\"level\":") e.severity_name in
    let endpoint = json_escape_append (level ++ codes ",\"endpoint\":") e.endpoint in
    let message = json_escape_append (endpoint ++ codes ",\"message\":") e.message in
    append_fields host r e (append_source r e (append_thread host r e message)) ++ codes "}\n"
