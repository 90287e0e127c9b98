-- ===== src/Sink/File.antt =====
-- src/sinks/file_sink.cpp: `RotatingFileSink`. The clock's day is an argument of each call.
pub mod Archives
pub mod Size
use sy_log.Event.{ℤ, pos, negsuc}
use sy_log.Host.{Host, format_unsigned, format_padded}
use sy_log.Prelude.{
  ℕ, zero, suc, ◌+◌, ◌%◌, ◌^◌, Bool, true, false, Option, none, some, [], ◌∷◌, ◌++◌, Bytes, length,
  not, if◌then◌else◌,
}
use sy_log.Sink.FileSystem.{
  FileSystem, FileHost, Stream, rename_if_there, file_size_or_zero, open_append, open_truncate,
  stream_write,
}
use sy_log.Sink.Rotation.{Mode, Context, never, should_rotate, max_archived_files}

-- The day at a point of time, as the sink writes it.
unfoldable pub today_ymd : Host → ℕ → Bytes
today_ymd host now =
    let tm = host.local_time now in
    format_padded 4 (tm.year + 1900) ++ (format_padded 2 (tm.mon + 1) ++ format_padded 2 tm.mday)

-- The rotation is never null: the constructor puts `never` in place of a null pointer.
pub record RotatingFileSink : Type 0 where
  pub path : Bytes
  pub rotation : Mode
  pub opened_day : Bytes
  pub current_size : ℕ
  pub ofs : Stream

abbrev pub SinkWorld : Type 0
SinkWorld = RotatingFileSink × FileSystem

-- `path + "." + std::to_string(i)`
abbrev pub archive : Bytes → ℕ → Bytes
archive path i = path ++ b'.' ∷ format_unsigned i

module _ (host : FileHost) where
  unfoldable pub open_if_needed : Bytes → SinkWorld → SinkWorld
  open_if_needed today (s, fs) =
      let (ofs, fs') = open_append host s.path fs in
      (record s { opened_day = today; ofs = ofs; current_size = file_size_or_zero s.path fs' }, fs')

  -- The loop of `rotate_files`, with `i` rounds to go.
  unfoldable pub rotate_loop : Bytes → ℕ → FileSystem → FileSystem
  rotate_loop path zero fs = fs
  rotate_loop path (suc i) fs =
      rotate_loop path i
        (rename_if_there host (archive path (suc i)) (archive path (suc (suc i))) fs)

  unfoldable pub rotate_files : Bytes → ℤ → FileSystem → FileSystem
  rotate_files path (negsuc n) fs = fs
  rotate_files path (pos zero) fs = fs
  rotate_files path (pos (suc n)) fs =
      rename_if_there host path (archive path 1) (rotate_loop path n fs)

  unfoldable pub rotate : Bytes → SinkWorld → SinkWorld
  rotate today (s, fs) =
      let (ofs, fs') =
        open_truncate host s.path (rotate_files s.path (max_archived_files s.rotation) fs) in
      (record s { opened_day = today; ofs = ofs; current_size = 0 }, fs')

  unfoldable pub rotate_if_needed : ℕ → Bytes → SinkWorld → SinkWorld
  rotate_if_needed incoming today (s, fs) =
      let ctx : Context = record {
        current_size = s.current_size;
        incoming_bytes = incoming;
        opened_day = s.opened_day;
        today = today;
      } in
      if should_rotate s.rotation ctx then rotate today (s, fs) else (s, fs)

  unfoldable pub new_sink : Bytes → Option Mode → Bytes → FileSystem → SinkWorld
  new_sink path rotation today fs =
      let mode : Mode = elim rotation [ none ↦ never | some m ↦ m ] in
      open_if_needed today (
        record {
          path = path;
          rotation = mode;
          opened_day = [];
          current_size = 0;
          ofs = record { is_open = false; good = true };
        },
        fs,
      )

  -- The write itself, and the count that follows it whether or not the stream took the bytes.
  unfoldable pub append_bytes : Bytes → SinkWorld → SinkWorld
  append_bytes bytes (s, fs) = (
    record s { current_size = (s.current_size + length bytes) % 2 ^ 64 },
    stream_write s.ofs s.path bytes fs,
  )

  unfoldable pub write : Bytes → Bytes → SinkWorld → SinkWorld
  write bytes today (s, fs) =
      let opened = if not s.ofs.is_open then open_if_needed today (s, fs) else (s, fs) in
      if not opened.0.ofs.good
      then opened
      else append_bytes bytes (rotate_if_needed (length bytes) today opened)

  abbrev pub ok : RotatingFileSink → Bool
  ok s = s.ofs.good
