-- ===== src/Render/Json/Document.antt =====
-- The JSON value that a rendered event stands for, and JSON values as text.
pub mod Renders
pub mod Parse
pub mod Reads
pub mod RoundTrip
pub mod Grammar
use sy_log.Event.{Event, Field, FieldValue, monostate, boolean, int64, double, string}
use sy_log.Host.{Host, format_unsigned, format_signed}
use sy_log.Prelude.{ℕ, Bool, true, false, List, [], ◌∷◌, ◌++◌, Bytes, codes, if◌then◌else◌}
use sy_log.Render.Json.{JsonRenderer, has_fields}
use sy_log.Render.Json.Reader.{quoted}
use sy_log.Render.Time.{format_time}

-- A number is its text.
mutual
  pub data Json : Type 0 where
    null : Json
    bool : Bool → Json
    number : Bytes → Json
    text : Bytes → Json
    object : Members → Json

  pub data Members : Type 0 where
    end : Members
    member : Bytes → Json → Members → Members

-- The comma before every member but the first.
abbrev pub comma : Bool → Bytes
comma true = []
comma false = b',' ∷ []

unfoldable mutual
  unfolding quoted

  pub print_value : Json → Bytes
  print_value null = codes "null"
  print_value (bool true) = codes "true"
  print_value (bool false) = codes "false"
  print_value (number digits) = digits
  print_value (text s) = quoted s
  print_value (object ms) = b'{' ∷ (print_members true ms ++ b'}' ∷ [])

  pub print_members : Bool → Members → Bytes
  print_members first end = []
  print_members first (member key v ms) =
      comma first ++ (quoted key ++ b':' ∷ (print_value v ++ print_members false ms))

unfoldable pub field_value : Host → FieldValue → Json
field_value host monostate = null
field_value host (boolean val) = bool val
field_value host (int64 val) = number (format_signed val)
field_value host (double val) = number (host.format_double val)
field_value host (string val) = text val

unfoldable pub field_members : Host → List Field → Members
field_members host [] = end
field_members host (f ∷ fs) = member f.key (field_value host f.value) (field_members host fs)

-- The optional members, before others.
unfoldable pub with_thread : Host → JsonRenderer → Event → Members → Members
with_thread host r e ms =
    if r.includes_thread
    then member (codes "tid") (number (format_unsigned (host.thread_hash e.thread_id))) ms
    else ms

unfoldable pub source_value : Event → Json
source_value e = object (
    member (codes "file") (text e.source.file_name) (
      member (codes "line") (number (format_unsigned e.source.line))
        (member (codes "func") (text e.source.function_name) end)))

unfoldable pub with_source : JsonRenderer → Event → Members → Members
with_source r e ms = if r.includes_source then member (codes "source") (source_value e) ms else ms

-- The member for the fields, if there are any.
unfoldable pub last_members : Host → JsonRenderer → Event → Members
unfolding has_fields
last_members host r e =
    if r.includes_fields
    then if has_fields e.fields
      then member (codes "fields") (object (field_members host e.fields)) end
      else end
    else end

unfoldable pub document : Host → JsonRenderer → Event → Json
document host r e = object (
    member (codes "time") (text (format_time host e.timestamp)) (
      member (codes "level") (text e.severity_name) (
        member (codes "endpoint") (text e.endpoint) (
          member (codes "message") (text e.message)
            (with_thread host r e (with_source r e (last_members host r e)))))))
