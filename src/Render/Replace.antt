-- ===== src/Render/Replace.antt =====
-- The text operations of src/renderers/pattern_renderer.cpp: `std::string::find` and `replace`, and
-- the lambda `replace_all`.
pub mod Loop
use sy_log.Prelude.{
  ℕ, zero, suc, ◌+◌, Bool, true, false, Option, none, some, List, [], ◌∷◌, ◌++◌, Bytes, length,
  take, drop, leb, ◌==◌, if◌then◌else◌,
}

-- Does the text begin with the key?
unfoldable pub starts_with : Bytes → Bytes → Bool
starts_with [] s = true
starts_with (k ∷ key) [] = false
starts_with (k ∷ key) (c ∷ s) = if k == c then starts_with key s else false

-- The first place of the key in a text whose first byte has the index `i`.
unfoldable pub find_from : Bytes → ℕ → Bytes → Option ℕ
find_from key i [] = if starts_with key [] then some i else none
find_from key i (c ∷ s) = if starts_with key (c ∷ s) then some i else find_from key (suc i) s

-- `text.find(key, pos)`; `none` is `npos`.
unfoldable pub find : Bytes → ℕ → Bytes → Option ℕ
find key pos text = if leb pos (length text) then find_from key pos (drop pos text) else none

-- `text.replace(pos, n, value)` at a place within the text.
unfoldable pub replace : ℕ → ℕ → Bytes → Bytes → Bytes
replace pos n value text = take pos text ++ (value ++ drop (pos + n) text)

-- The loop, from `pos`: the last `pos` and the text when the loop ends or the fuel does.
unfoldable pub replace_loop : ℕ → Bytes → Bytes → ℕ → Bytes → ℕ × Bytes
replace_loop zero key value pos out = (pos, out)
replace_loop (suc fuel) key value pos out = elim (find key pos out) [
  | none ↦ (pos, out)
  | some p ↦ replace_loop fuel key value (p + length value) (replace p (length key) value out)
]

-- A key that is not empty is found in what is left of the text, which then gets shorter.
unfoldable pub replace_all : Bytes → Bytes → Bytes → Bytes
replace_all key value out = (replace_loop (suc (length out)) key value 0 out).1
