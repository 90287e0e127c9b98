-- ===== src/Sink/Rotation.antt =====
-- include/sylog/sink.hpp: the rotation modes.
use sy_log.Event.{ℤ, pos}
use sy_log.Prelude.{
  ℕ, ◌+◌, ◌%◌, ◌^◌, Bool, true, false, [], ◌∷◌, Bytes, bytes_eq, ltb, not, ◌&&◌, ◌||◌,
}

pub record Context : Type 0 where
  pub current_size : ℕ
  pub incoming_bytes : ℕ
  pub opened_day : Bytes
  pub today : Bytes

-- `mode_base` is open: a mode of the user's is its `should_rotate` and its `max_archived_files`.
pub data Mode : Type 0 where
  never : Mode
  file_size_exceeds : ℕ → ℤ → Mode
  new_day_begins : ℤ → Mode
  file_size_exceeds_or_new_day_begins : ℕ → ℤ → Mode
  custom : (Context → Bool) → ℤ → Mode

-- The sum is one of `std::size_t`.
abbrev pub size_exceeds : ℕ → Context → Bool
size_exceeds max_bytes ctx = ltb max_bytes ((ctx.current_size + ctx.incoming_bytes) % 2 ^ 64)

abbrev is_empty : Bytes → Bool
is_empty [] = true
is_empty (c ∷ s) = false

unfoldable pub day_begins : Context → Bool
day_begins ctx =
    not (is_empty ctx.opened_day)
    && not (is_empty ctx.today)
    && not (bytes_eq ctx.opened_day ctx.today)

unfoldable pub should_rotate : Mode → Context → Bool
unfolding day_begins
should_rotate never ctx = false
should_rotate (file_size_exceeds max_bytes keep) ctx = size_exceeds max_bytes ctx
should_rotate (new_day_begins keep) ctx = day_begins ctx
should_rotate (file_size_exceeds_or_new_day_begins max_bytes keep) ctx =
    size_exceeds max_bytes ctx || day_begins ctx
should_rotate (custom test keep) ctx = test ctx

abbrev pub max_archived_files : Mode → ℤ
max_archived_files never = pos 5
max_archived_files (file_size_exceeds max_bytes keep) = keep
max_archived_files (new_day_begins keep) = keep
max_archived_files (file_size_exceeds_or_new_day_begins max_bytes keep) = keep
max_archived_files (custom test keep) = keep

-- The default of `keep_files`.
abbrev pub default_keep_files : ℤ
default_keep_files = pos 5

abbrev pub never_rotate : Mode
never_rotate = never

abbrev pub when_file_size_exceeds : ℕ → ℤ → Mode
when_file_size_exceeds bytes keep_files = file_size_exceeds bytes keep_files

abbrev pub when_new_day_begins : ℤ → Mode
when_new_day_begins keep_files = new_day_begins keep_files

abbrev pub when_file_size_exceeds_or_new_day_begins : ℕ → ℤ → Mode
when_file_size_exceeds_or_new_day_begins bytes keep_files =
    file_size_exceeds_or_new_day_begins bytes keep_files
