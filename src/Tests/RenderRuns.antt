-- ===== src/Tests/RenderRuns.antt =====
-- Runs of the pattern renderer and of the JSON renderer: src/renderers.
use sy_log.Event.{Event, double, string}
use sy_log.Prelude.{◌≡◌, refl, none, some, List, [], ◌∷◌, ◌++◌, codes}
use sy_log.Render.Json.{default_renderer, render_json}
use sy_log.Render.Json.Document.{print_value, document}
use sy_log.Render.Json.Document.Grammar.{InGrammar, is_number, next_part}
use sy_log.Render.Json.Document.RoundTrip.{
  read_document, render_json-printed, read_document-render_json,
}
use sy_log.Render.Json.Document.Parse.{number_byte, IsValue}
use sy_log.Render.Pattern.{replace_each, render_pattern}
use sy_log.Render.Pattern.Template.{Piece, literal, token, print, expand}
use sy_log.Render.Pattern.Whole.{values, render_pattern-expand, render_pattern-message}
use sy_log.Render.Replace.{find, replace_all, replace_loop}
use sy_log.Render.Replace.Loop.{substitute, replace_all-substitute}
use sy_log.Host.{format_unsigned}
use sy_log.Route.{terminate_line}
use sy_log.Tests.Data.{host, net_event}

-- `<{tid}> {func}{x}`, whose last token has no value.
abbrev pieces : List Piece
pieces =
    literal b'<'
    ∷ token (codes "tid")
    ∷ literal b'>'
    ∷ literal b' '
    ∷ token (codes "func")
    ∷ token (codes "x")
    ∷ []

replace_all-substitute_example :
    (replace_all (codes "ab") (codes "xab") (codes "abab")
      ≡ substitute (codes "ab") (codes "xab") 0 (codes "abab"))
    × (let r = replace_loop 5 (codes "ab") (codes "xab") 0 (codes "abab") in
        find (codes "ab") r.0 r.1 ≡ none)
replace_all-substitute_example =
    replace_all-substitute b'a' (codes "b") (codes "xab") (codes "abab")

render_pattern-expand_example :
    render_pattern host (print pieces) net_event []
    ≡ terminate_line (expand (values host net_event) pieces)
render_pattern-expand_example =
    render_pattern-expand host pieces net_event []
      (
        refl,
        (
          ((refl, refl), ((refl, refl), ((refl, refl), tt))),
          (
            refl,
            (
              refl,
              (
                ((refl, refl), ((refl, refl), ((refl, refl), ((refl, refl), tt)))),
                (((refl, refl), tt), tt),
              ),
            ),
          ),
        ),
      )
      (refl, (refl, (refl, (refl, tt)))) (refl, (refl, (refl, (refl, (refl, (refl, (refl, tt)))))))
      (refl, (refl, (refl, (refl, (refl, (refl, (refl, (refl, (refl, tt))))))))) tt tt

render_pattern-message_example :
    render_pattern host (codes "{message}") net_event []
    ≡ terminate_line (
        replace_each
          ((codes "{file}", net_event.source.file_name)
            ∷ (codes "{line}", format_unsigned net_event.source.line)
            ∷ (codes "{func}", net_event.source.function_name)
            ∷ (codes "{tid}", format_unsigned (host.thread_hash net_event.thread_id))
            ∷ [])
          net_event.message)
render_pattern-message_example = render_pattern-message host net_event []

abbrev measured : Event
measured = record net_event {
  fields =
      record { key = codes "load"; value = double 0 }
      ∷ record { key = codes "peer"; value = string (codes "a\"b") }
      ∷ [];
}

render_json-printed_example :
    (render_json host default_renderer measured []
      ≡ print_value (document host default_renderer measured) ++ b'\n' ∷ [])
    × IsValue InGrammar (document host default_renderer measured)
unfolding is_number next_part
render_json-printed_example = render_json-printed host default_renderer measured [] (refl, (tt, tt))

read_document-render_json_example :
    read_document (render_json host default_renderer measured [])
    ≡ some (document host default_renderer measured, b'\n' ∷ [])
unfolding number_byte
read_document-render_json_example =
    read_document-render_json host default_renderer measured []
      ((refl, (refl, (refl, tt))), (tt, tt))
