-- ===== src/Sink/File/Archives.antt =====
-- What a rotation does to the files.
use sy_log.Event.{pos}
use sy_log.Host.Decimal.{format_unsigned-injective}
use sy_log.Prelude.{
  ℕ, zero, suc, ◌≡◌, refl, sym, ap, ◌∙◌, true, Option, none, some, ◌∷◌, ◌++◌, Bytes, bytes_eq,
  bytes_eq_refl, bytes_eq→≡, ◌==◌, ==_iff, length, length-append, drop, drop-length-append,
  if◌then◌else◌, arith, Bool-cases, Option-cases, inl, inr, ltb,
}
use sy_log.Sink.File.{archive, rotate_loop, rotate_files}
use sy_log.Sink.FileSystem.{FileSystem, FileHost, rename, rename_if_there}

-- The active file and its archives, by number.
abbrev pub name : Bytes → ℕ → Bytes
name path zero = path
name path (suc i) = archive path (suc i)

append-cancel : (path xs ys : Bytes) → path ++ xs ≡ path ++ ys → xs ≡ ys
append-cancel path xs ys h =
    sym (drop-length-append path xs) ∙ ap (drop (length path)) h ∙ drop-length-append path ys

append_ne_self : (path xs : Bytes) (c : ℕ) → path ≡ path ++ c ∷ xs → ⊥
append_ne_self path xs c h = omega (arith, ap length h, length-append path (c ∷ xs))

same_tail : {c d : ℕ} {xs ys : Bytes} → c ∷ xs ≡ d ∷ ys → xs ≡ ys
same_tail h = ap (drop 1) h

name-injective : (path : Bytes) (i j : ℕ) → name path i ≡ name path j → i ≡ j
name-injective path zero zero h = refl
name-injective path zero (suc j) h = absurd (append_ne_self path _ b'.' h)
name-injective path (suc i) zero h = absurd (append_ne_self path _ b'.' (sym h))
name-injective path (suc i) (suc j) h =
    format_unsigned-injective (suc i) (suc j) (same_tail (append-cancel path _ _ h))

name-eq : (path : Bytes) (i j : ℕ) → bytes_eq (name path i) (name path j) ≡ (i == j)
name-eq path i j = elim (Bool-cases (i == j)) [
  | inl same ↦ rw (same, (==_iff i j).0 same) (bytes_eq_refl (name path j))
  | inr differ ↦ elim (Bool-cases (bytes_eq (name path i) (name path j))) [
    | inr no_ ↦ no_ ∙ sym differ
    | inl same ↦
        absurd
          (ground (arith, name-injective path i j (bytes_eq→≡ (name path i) (name path j) same)))
  ]
]

module _ (host : FileHost) (renames : (p q : Bytes) → host.can_rename p q ≡ true)
    (path : Bytes) where
  abbrev move : ℕ → FileSystem → FileSystem
  move i fs = rename_if_there host (name path i) (name path (suc i)) fs

  moved :
      (i j : ℕ) (fs : FileSystem)
      → move i fs (name path j) ≡ (
          if j == i
          then none
          else if j == suc i
          then elim (fs (name path i)) [ none ↦ fs (name path j) | some b ↦ some b ]
          else fs (name path j))
  unfolding rename_if_there rename
  moved i j fs = ground (
    arith,
    renames (name path i) (name path (suc i)),
    name-eq path i j,
    name-eq path (suc i) j,
    Option-cases (fs (name path i)),
  )

  -- The files once the first `k` of them have moved up by one, the last one first.
  shift : ℕ → FileSystem → FileSystem
  shift zero fs = fs
  shift (suc k) fs = shift k (move k fs)

  rotate-shift : (n : ℕ) (fs : FileSystem) → move 0 (rotate_loop host path n fs) ≡ shift (suc n) fs
  unfolding rotate_loop shift
  rotate-shift zero fs = refl
  rotate-shift (suc n) fs = rotate-shift n (move (suc n) fs)

-- What the path numbered `j` holds after the files numbered 0 to `k` have moved up by one.
pub settled : Bytes → ℕ → ℕ → FileSystem → Option Bytes
settled path k zero fs = none
settled path k (suc j) fs = if ltb k j then fs (name path (suc j)) else elim (fs (name path j)) [
  | none ↦ if j == k then fs (name path (suc j)) else none
  | some b ↦ some b
]

module _ (host : FileHost) (renames : (p q : Bytes) → host.can_rename p q ≡ true)
    (path : Bytes) where
  shift-settled :
      (k j : ℕ) (fs : FileSystem)
      → shift host renames path (suc k) fs (name path j) ≡ settled path k j fs
  unfolding shift settled
  shift-settled zero zero fs = moved host renames path 0 0 fs
  shift-settled zero (suc j) fs =
      ground
        (arith, moved host renames path 0 (suc j) fs, Option-cases (fs path), Bool-cases (j == 0))
  shift-settled (suc k) zero fs = shift-settled k 0 (move host renames path (suc k) fs)
  shift-settled (suc k) (suc j) fs = ground (
    arith,
    shift-settled k (suc j) (move host renames path (suc k) fs),
    moved host renames path (suc k) (suc j) fs,
    moved host renames path (suc k) j fs,
    Option-cases (fs (name path j)),
  )

  -- If the operating system carries out each rename that it is asked for: a rotation that keeps
  -- `n + 1` archives moves the active file and each archive below the last up by one number, over
  -- the last, leaves a gap where there was one (a last archive that nothing replaces stays), and
  -- touches no archive beyond the last.
  pub rotate_files-settled :
      (n j : ℕ) (fs : FileSystem)
      → rotate_files host path (pos (suc n)) fs (name path j) ≡ settled path n j fs
  unfolding rotate_files
  rotate_files-settled n j fs =
      ap (λ (t : FileSystem). t (name path j)) (rotate-shift host renames path n fs)
      ∙ shift-settled n j fs
