-- ===== src/Render/Pattern.antt =====
-- src/renderers/pattern_renderer.cpp: `PatternRenderer` and `AnsiConsoleRenderer`.
pub mod Template
pub mod Whole
pub mod Line
use sy_log.Event.{Event}
use sy_log.Host.{Host, format_unsigned}
use sy_log.Prelude.{
  ℕ, ◌+◌, Bool, Option, none, some, List, [], ◌∷◌, ◌++◌, Bytes, codes, length, leb, if◌then◌else◌,
}
use sy_log.Render.Replace.{find, replace, replace_all}
use sy_log.Render.Time.{format_time}
use sy_log.Route.{terminate_line}
use sy_log.Severity.{debug, info, warn, error, fatal}

-- The calls of `replace_all`, in the order in which they are made.
unfoldable pub replacements : Host → Event → List (Bytes × Bytes)
replacements host e =
    (codes "{time}", format_time host e.timestamp)
    ∷ (codes "{severity}", e.severity_name)
    ∷ (codes "{severity_priority}", format_unsigned e.severity_priority)
    ∷ (codes "{endpoint}", e.endpoint)
    ∷ (codes "{message}", e.message)
    ∷ (codes "{file}", e.source.file_name)
    ∷ (codes "{line}", format_unsigned e.source.line)
    ∷ (codes "{func}", e.source.function_name)
    ∷ (codes "{tid}", format_unsigned (host.thread_hash e.thread_id))
    ∷ []

unfoldable pub replace_each : List (Bytes × Bytes) → Bytes → Bytes
replace_each [] out = out
replace_each ((key, value) ∷ rest) out = replace_each rest (replace_all key value out)

-- The old text of the buffer is overwritten with the pattern.
unfoldable pub render_pattern : Host → Bytes → Event → Bytes → Bytes
render_pattern host pattern_ e out = terminate_line (replace_each (replacements host e) pattern_)

-- An escape sequence that begins with the byte 0x1b.
abbrev pub escape_sequence : Bytes → Bytes
escape_sequence s = 0x1b ∷ s

unfoldable pub ansi_for : ℕ → Bytes
ansi_for priority =
    if leb fatal.priority priority
    then escape_sequence (codes "[35m")
    else if leb error.priority priority
    then escape_sequence (codes "[31m")
    else if leb warn.priority priority
    then escape_sequence (codes "[33m")
    else if leb info.priority priority
    then escape_sequence (codes "[32m")
    else if leb debug.priority priority
    then escape_sequence (codes "[36m")
    else escape_sequence (codes "[90m")

unfoldable pub colored : Event → Bytes
colored e = ansi_for e.severity_priority ++ (e.severity_name ++ escape_sequence (codes "[0m"))

-- What `AnsiConsoleRenderer::render` does to the text of the inner renderer.
unfoldable pub color_first : Event → Bytes → Bytes
color_first e out = elim (find e.severity_name 0 out) [
  | none ↦ out
  | some pos ↦ replace pos (length e.severity_name) (colored e) out
]

unfoldable pub render_ansi : Host → Bytes → Event → Bytes → Bytes
render_ansi host pattern_ e out = color_first e (render_pattern host pattern_ e out)
