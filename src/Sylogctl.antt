-- ===== src/Sylogctl.antt =====
-- tools/sylogctl.cpp: the command line tool. What the third-party argtree does with the schema is an
-- argument.
use sy_log.Event.{ℤ, pos}
use sy_log.Prelude.{Bool, List, [], ◌∷◌, Bytes, codes}

pub record CliState : Type 0 where
  pub version_requested : Bool

-- What the tool prints for the command `version`.
abbrev pub show_version : CliState → Bytes
show_version state = codes "sylogctl 0.2\n"

-- A command of the schema: its name, its documentation, and what it prints.
pub record Terminal : Type 0 where
  pub name : Bytes
  pub doc : Bytes
  pub action : CliState → Bytes

abbrev pub app : List Terminal
app =
    record { name = codes "version"; doc = codes "Print sylogctl version"; action = show_version }
    ∷ []

-- The calls of argtree: `parse`, `print_help` and `run`, which prints and gives the exit code.
pub record Argtree (Parsed : Type 0) : Type 0 where
  pub parse : List Terminal → List Bytes → Parsed
  pub print_help : List Terminal → Parsed → Bytes → Bytes
  pub run : List Terminal → List Bytes → Bytes × ℤ

-- `main` on the arguments `argv`, which may lack even the program's name.
unfoldable pub main : {Parsed : Type 0} → Argtree Parsed → List Bytes → Bytes × ℤ
main T [] = (T.print_help app (T.parse app []) (codes "sylogctl"), pos 0)
main T (name ∷ []) = (T.print_help app (T.parse app []) name, pos 0)
main T (name ∷ argument ∷ rest) = T.run app (name ∷ argument ∷ rest)
