-- ===== src/Render/Pattern/Whole.antt =====
-- What `PatternRenderer::render` makes of a pattern.
use sy_log.Event.{Event}
use sy_log.Render.Pattern.Template.{
  Piece, print, expand, Plain, IsName, IsPiece, replace_each-expand,
}
use sy_log.Host.{Host, format_unsigned, format_padded}
use sy_log.Host.Decimal.{format_unsigned-All, format_padded-All}
use sy_log.Prelude.{
  ℕ, ◌+◌, ◌≡◌, refl, ap, ◌∙◌, Bool, true, false, List, [], ◌∷◌, append-nil, Bytes, codes, All-take,
  drop, All, All-append, ◌==◌, arith, not, ◌&&◌,
}
use sy_log.Render.Pattern.{replacements, replace_each, render_pattern}
use sy_log.Render.Replace.{starts_with, replace_all}
use sy_log.Render.Replace.Loop.{substitute, replace_all-substitute}
use sy_log.Render.Time.{format_time}
use sy_log.Route.{terminate_line}

-- The nine tokens and what they stand for.
abbrev pub values : Host → Event → List (Bytes × Bytes)
values host e =
    (codes "time", format_time host e.timestamp)
    ∷ (codes "severity", e.severity_name)
    ∷ (codes "severity_priority", format_unsigned e.severity_priority)
    ∷ (codes "endpoint", e.endpoint)
    ∷ (codes "message", e.message)
    ∷ (codes "file", e.source.file_name)
    ∷ (codes "line", format_unsigned e.source.line)
    ∷ (codes "func", e.source.function_name)
    ∷ (codes "tid", format_unsigned (host.thread_hash e.thread_id))
    ∷ []

unsigned-Plain : (n : ℕ) → Plain (format_unsigned n)
unsigned-Plain = format_unsigned-All (λ c. (c == b'{') ≡ false) (λ d h. ground arith)

padded-Plain : (width n : ℕ) → Plain (format_padded width n)
padded-Plain = format_padded-All (λ c. (c == b'{') ≡ false) (λ d h. ground arith)

format_time-Plain : (host : Host) (tp : ℕ) → Plain (format_time host tp)
unfolding format_time
format_time-Plain host tp =
    let tm = host.local_time tp in
    let P = λ (c : ℕ). (c == b'{') ≡ false in
    All-take P 31 _ (
      All-append P _ _ (padded-Plain 4 (tm.year + 1900)) (
        refl,
        All-append P _ _ (padded-Plain 2 (tm.mon + 1)) (
          refl,
          All-append P _ _ (padded-Plain 2 tm.mday) (
            refl,
            All-append P _ _ (padded-Plain 2 tm.hour)
                (refl, All-append P _ _ (padded-Plain 2 tm.min) (refl, padded-Plain 2 tm.sec)),
          ),
        ),
      ))

-- A check of a text that is written out.
are_names : Bytes → Bool
are_names [] = true
are_names (c ∷ s) = not (c == b'{') && (not (c == b'}') && are_names s)

are_names→IsName : (s : Bytes) → are_names s ≡ true → IsName s
unfolding are_names
are_names→IsName [] h = tt
are_names→IsName (c ∷ s) h = (ground arith, are_names→IsName s (ground arith))

-- If each `{` of a pattern opens a token of a name without braces, and the severity's name, the
-- endpoint, the message, the file and the function hold no `{`, then the pattern is rendered with
-- all tokens replaced at once: each of the nine by its value, and any other left as it stands.
pub render_pattern-expand :
    (host : Host) (ps : List Piece) (e : Event) (old : Bytes)
    → All IsPiece ps
    → Plain e.severity_name
    → Plain e.endpoint
    → Plain e.message
    → Plain e.source.file_name
    → Plain e.source.function_name
    → render_pattern host (print ps) e old ≡ terminate_line (expand (values host e) ps)
unfolding render_pattern replacements are_names
render_pattern-expand host ps e old pieces severity endpoint message file func =
    let names : All (λ v. IsName v.0 × Plain v.1) (values host e) = (
      (are_names→IsName (codes "time") refl, format_time-Plain host e.timestamp),
      (
        (are_names→IsName (codes "severity") refl, severity),
        (
          (are_names→IsName (codes "severity_priority") refl, unsigned-Plain e.severity_priority),
          (
            (are_names→IsName (codes "endpoint") refl, endpoint),
            (
              (are_names→IsName (codes "message") refl, message),
              (
                (are_names→IsName (codes "file") refl, file),
                (
                  (are_names→IsName (codes "line") refl, unsigned-Plain e.source.line),
                  (
                    (are_names→IsName (codes "func") refl, func),
                    (
                      (
                        are_names→IsName (codes "tid") refl,
                        unsigned-Plain (host.thread_hash e.thread_id),
                      ),
                      tt,
                    ),
                  ),
                ),
              ),
            ),
          ),
        ),
      ),
    ) in
    ap terminate_line (replace_each-expand (values host e) ps names pieces)

kept_token :
    (k : ℕ) (name v : Bytes)
    → substitute (k ∷ name) v 0 (codes "{message}") ≡ codes "{message}"
    → replace_all (k ∷ name) v (codes "{message}") ≡ codes "{message}"
kept_token k name v h = (replace_all-substitute k name v (codes "{message}")).0 ∙ h

message_token : (v : Bytes) → replace_all (codes "{message}") v (codes "{message}") ≡ v
unfolding substitute starts_with
message_token v =
    (replace_all-substitute b'{' (codes "message}") v (codes "{message}")).0 ∙ append-nil v

-- The pattern `{message}` renders a message as the four tokens that are replaced after it leave
-- it: what looks like one of them in the message is replaced too.
pub render_pattern-message :
    (host : Host) (e : Event) (old : Bytes)
    → render_pattern host (codes "{message}") e old
      ≡ terminate_line (
          replace_each
            ((codes "{file}", e.source.file_name)
              ∷ (codes "{line}", format_unsigned e.source.line)
              ∷ (codes "{func}", e.source.function_name)
              ∷ (codes "{tid}", format_unsigned (host.thread_hash e.thread_id))
              ∷ [])
            e.message)
unfolding render_pattern replacements replace_each substitute starts_with
render_pattern-message host e old = ap terminate_line (
    ap (replace_each (drop 1 (replacements host e)))
      (kept_token b'{' (codes "time}") (format_time host e.timestamp) refl)
    ∙ ap (replace_each (drop 2 (replacements host e)))
        (kept_token b'{' (codes "severity}") e.severity_name refl)
    ∙ ap (replace_each (drop 3 (replacements host e)))
        (kept_token b'{' (codes "severity_priority}") (format_unsigned e.severity_priority) refl)
    ∙ ap (replace_each (drop 4 (replacements host e)))
        (kept_token b'{' (codes "endpoint}") e.endpoint refl)
    ∙ ap (replace_each (drop 5 (replacements host e))) (message_token e.message))
