-- ===== src/Sink/FileSystem.antt =====
-- The part of the file system and of `std::ofstream` that the rotating sink uses. Which files can be
-- opened and renamed is an argument; a file that is open for writing takes every byte at once.
use sy_log.Prelude.{
  ℕ, Bool, true, false, Option, none, some, [], ◌++◌, Bytes, bytes_eq, if◌then◌else◌, length,
}

abbrev pub FileSystem : Type 0
FileSystem = Bytes → Option Bytes

pub record FileHost : Type 0 where
  pub can_open : Bytes → Bool
  pub can_rename : Bytes → Bytes → Bool

abbrev pub put_file : Bytes → Option Bytes → FileSystem → FileSystem
put_file p content fs q = if bytes_eq p q then content else fs q

-- `std::filesystem::rename` with an error code that nobody reads.
unfoldable pub rename : FileHost → Bytes → Bytes → FileSystem → FileSystem
rename host from to fs =
    if host.can_rename from to then put_file from none (put_file to (fs from) fs) else fs

-- `if (exists(from, ec)) rename(from, to, ec);`
unfoldable pub rename_if_there : FileHost → Bytes → Bytes → FileSystem → FileSystem
unfolding rename
rename_if_there host from to fs = elim (fs from) [ none ↦ fs | some b ↦ rename host from to fs ]

-- `file_size_or_zero`
unfoldable pub file_size_or_zero : Bytes → FileSystem → ℕ
file_size_or_zero p fs = elim (fs p) [ none ↦ 0 | some b ↦ length b ]

-- `std::ofstream`: whether a file is open, and whether the stream has not failed.
pub record Stream : Type 0 where
  pub is_open : Bool
  pub good : Bool

-- `open(path, out | app)`
unfoldable pub open_append : FileHost → Bytes → FileSystem → Stream × FileSystem
open_append host p fs =
    if host.can_open p
    then (
      record { is_open = true; good = true },
      put_file p (some (elim (fs p) [ none ↦ [] | some b ↦ b ])) fs,
    )
    else (record { is_open = false; good = false }, fs)

-- `open(path, out | trunc)`
unfoldable pub open_truncate : FileHost → Bytes → FileSystem → Stream × FileSystem
open_truncate host p fs =
    if host.can_open p
    then (record { is_open = true; good = true }, put_file p (some []) fs)
    else (record { is_open = false; good = false }, fs)

-- `write`, which does nothing on a stream that has failed.
unfoldable pub stream_write : Stream → Bytes → Bytes → FileSystem → FileSystem
stream_write s p bytes fs =
    if s.good then put_file p (elim (fs p) [ none ↦ none | some b ↦ some (b ++ bytes) ]) fs else fs
