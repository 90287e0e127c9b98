-- ===== src/Render/Pattern/Line.antt =====
-- The end of a rendered line, and its colour.
use sy_log.Event.{Event}
use sy_log.Host.{Host}
use sy_log.Prelude.{
  ℕ, ◌≡◌, refl, sym, ap, ◌∙◌, false, none, some, [], ◌∷◌, ◌++◌, Bytes, length, arith, if-cases, ◌⊎◌,
  inl, inr, ==_iff,
}
use sy_log.Render.Pattern.{
  render_pattern, replacements, replace_each, colored, color_first, render_ansi,
}
use sy_log.Render.Replace.{find, find_from, replace}
use sy_log.Render.Replace.Loop.{Split, split, replace-middle}
use sy_log.Route.{lacks_newline, terminate_line}

-- Empty, or with a newline as its last byte.
abbrev pub IsTerminated : Bytes → Type 0
IsTerminated s = (s ≡ []) ⊎ ((body : Bytes) × (s ≡ body ++ b'\n' ∷ []))

has_newline : (s : Bytes) → lacks_newline s ≡ false → IsTerminated s
unfolding lacks_newline
has_newline [] h = inl refl
has_newline (c ∷ []) h = inr ([], ground (arith, ==_iff c b'\n'))
has_newline (c ∷ d ∷ s) h = elim (has_newline (d ∷ s) h) [
  | inl e ↦ cc
  | inr (body, e) ↦ inr (c ∷ body, ap (◌∷◌ c) e)
]

pub terminate_line-IsTerminated : (s : Bytes) → IsTerminated (terminate_line s)
unfolding terminate_line
terminate_line-IsTerminated s =
    if-cases IsTerminated (lacks_newline s) _ _ (λ _. inr (s, refl)) (λ h. has_newline s h)

-- A rendered pattern is empty or ends with a newline, whatever the pattern and the event hold.
pub render_pattern-IsTerminated :
    (host : Host) (pattern_ : Bytes) (e : Event) (old : Bytes)
    → IsTerminated (render_pattern host pattern_ e old)
unfolding render_pattern
render_pattern-IsTerminated host pattern_ e old =
    terminate_line-IsTerminated (replace_each (replacements host e) pattern_)

-- The text with its first occurrence of the severity's name marked.
abbrev pub Marked : Event → Bytes → Bytes → Type 0
Marked e plain text =
    ((find e.severity_name 0 plain ≡ none) × (text ≡ plain))
    ⊎ ((before : Bytes) × (after : Bytes) × (find e.severity_name 0 plain ≡ some (length before))
        × (plain ≡ before ++ (e.severity_name ++ after))
        × (text ≡ before ++ (colored e ++ after)))

color_first-none :
    (e : Event) (out : Bytes) → find e.severity_name 0 out ≡ none → color_first e out ≡ out
unfolding color_first
color_first-none e out h = rw (h, color_first)

color_first-some :
    (e : Event) (out : Bytes) (pos : ℕ)
    → find e.severity_name 0 out ≡ some pos
    → color_first e out ≡ replace pos (length e.severity_name) (colored e) out
unfolding color_first
color_first-some e out pos h = rw (h, color_first)

find-start : (key out : Bytes) → find key 0 out ≡ find_from key 0 out
unfolding find
find-start key out = ground arith

color_first-Marked :
    (e : Event) (k : ℕ) (name : Bytes) (out : Bytes)
    → e.severity_name ≡ k ∷ name
    → Split k name [] 0 out
    → Marked e out (color_first e out)
color_first-Marked e k name out named s =
    let named_find = ap (λ (t : Bytes). find t 0 out) named ∙ find-start (k ∷ name) out in
    elim s [
      | inl (nowhere, _) ↦ inl (named_find ∙ nowhere, color_first-none e out (named_find ∙ nowhere))
      | inr (before, after, found, split_, _) ↦
          let at : find e.severity_name 0 out ≡ some (length before) =
            named_find ∙ found ∙ ap some (omega arith) in
          let parts : out ≡ before ++ (e.severity_name ++ after) =
            split_ ∙ ap (λ (t : Bytes). before ++ (t ++ after)) (sym named) in
          inr (
            before,
            after,
            at,
            parts,
            color_first-some e out (length before) at
                ∙ ap (replace (length before) (length e.severity_name) (colored e)) parts
                ∙ replace-middle before e.severity_name (colored e) after,
          )
    ]

-- For a severity with a name, the console renderer gives the rendered pattern with the first
-- occurrence of the name between the escape sequences of the colour and of its end, or the
-- pattern as it is where the name does not occur.
pub render_ansi-Marked :
    (host : Host) (pattern_ : Bytes) (e : Event) (old : Bytes) (k : ℕ) (name : Bytes)
    → e.severity_name ≡ k ∷ name
    → Marked e (render_pattern host pattern_ e old) (render_ansi host pattern_ e old)
unfolding render_ansi
render_ansi-Marked host pattern_ e old k name named =
    color_first-Marked e k name (render_pattern host pattern_ e old) named
      (split k name [] 0 (render_pattern host pattern_ e old))
