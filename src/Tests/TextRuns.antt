-- ===== src/Tests/TextRuns.antt =====
-- Runs of the filters, the JSON renderer and the file rotation.
use sy_log.Sink.File.Size.{Holds, write-Holds}
use sy_log.Sink.File.{SinkWorld, write}
use sy_log.Sink.Rotation.{file_size_exceeds}
use sy_log.Prelude.{ltb, length, ◌+◌}
use sy_log.Event.{pos}
use sy_log.Filter.{EndpointFilter, endpoint_pass}
use sy_log.Filter.Prefix.{Accepts, endpoint_pass_iff}
use sy_log.Prelude.{
  ◌≡◌, ◌↔◌, none, some, [], ◌∷◌, ◌++◌, Bytes, codes, true, refl, bytes_eq, if◌then◌else◌, arith,
}
use sy_log.Render.Json.{default_renderer, json_escape_append, render_json}
use sy_log.Render.Json.Line.{Printable, render_json_line}
use sy_log.Render.Json.Reader.{read_string, read_string-json_escape_append}
use sy_log.Sink.File.{rotate_files}
use sy_log.Sink.File.Archives.{name, settled, rotate_files-settled}
use sy_log.Sink.FileSystem.{FileSystem, FileHost}
use sy_log.Tests.Data.{host, net_event}

abbrev net_only : EndpointFilter
net_only = record { allow_prefixes = codes "net" ∷ []; deny_prefixes = codes "net/udp" ∷ [] }

endpoint_pass_iff_example :
    (endpoint_pass net_only net_event ≡ true) ↔ Accepts net_only (codes "net/tcp")
endpoint_pass_iff_example = endpoint_pass_iff net_only net_event

read_string-json_escape_append_example :
    (literal : Bytes) × (json_escape_append (codes "{") (codes "a\"b\\") ≡ codes "{" ++ literal)
    × (read_string (literal ++ codes "}") ≡ some (codes "a\"b\\", codes "}"))
read_string-json_escape_append_example =
    read_string-json_escape_append (codes "{") (codes "a\"b\\") (codes "}")

render_json_line_example :
    (line : Bytes) × (render_json host default_renderer net_event [] ≡ line ++ b'\n' ∷ [])
    × Printable line
render_json_line_example = render_json_line host (λ d. omega arith) default_renderer net_event []

abbrev willing : FileHost
willing = record { can_open = λ p. true; can_rename = λ p q. true }

-- The active file and one archive.
abbrev two_files : FileSystem
two_files p =
    if bytes_eq p (codes "log")
    then some (codes "new")
    else if bytes_eq p (codes "log.1")
    then some (codes "old")
    else none

rotate_files-settled_example :
    rotate_files willing (codes "log") (pos 2) two_files (name (codes "log") 2)
    ≡ settled (codes "log") 1 2 two_files
rotate_files-settled_example =
    rotate_files-settled willing (λ p q. refl) (codes "log") 1 2 two_files

abbrev open_sink : SinkWorld
open_sink = (
  record {
    path = codes "log";
    rotation = file_size_exceeds 4 (pos 2);
    opened_day = codes "20260101";
    current_size = 3;
    ofs = record { is_open = true; good = true };
  },
  two_files,
)

write-Holds_example :
    Holds
      (if ltb 4 (length (codes "new") + length (codes "xy"))
        then codes "xy"
        else codes "new" ++ codes "xy")
      (write willing (codes "xy") (codes "20260101") open_sink)
write-Holds_example =
    write-Holds willing 4 (pos 2) (codes "new") (codes "xy") (codes "20260101") open_sink refl refl
      (omega arith) (record { is_open = refl; good = refl; there = refl; tracked = refl })
