-- ===== src/Sink/File/Size.antt =====
-- How a write to a sink that rotates by size changes the active file.
use sy_log.Event.{ℤ}
use sy_log.Prelude.{
  ℕ, ◌+◌, ◌%◌, ◌^◌, ◌<◌, ◌≡◌, refl, sym, Bool, true, some, [], ◌++◌, Bytes, length, length-append,
  bytes_eq_refl, ltb, if◌then◌else◌, arith, Bool-cases, inl, inr, ap, ◌∙◌, subst,
}
use sy_log.Sink.File.{SinkWorld, write, append_bytes, rotate_if_needed, rotate}
use sy_log.Sink.FileSystem.{FileHost, open_truncate, stream_write}
use sy_log.Sink.Rotation.{Context, Mode, file_size_exceeds, should_rotate}

-- The sink's stream is open and good, its file holds the text, and the tracked size is the text's.
pub record Holds (content : Bytes) (w : SinkWorld) : Type 0 where
  pub is_open : w.0.ofs.is_open ≡ true
  pub good : w.0.ofs.good ≡ true
  pub there : w.1 w.0.path ≡ some content
  pub tracked : w.0.current_size ≡ length content % 2 ^ 64

module _ (host : FileHost) where
  append_bytes-Holds :
      (content bytes : Bytes) (w : SinkWorld)
      → Holds content w
      → Holds (content ++ bytes) (append_bytes host bytes w)
  unfolding append_bytes stream_write
  append_bytes-Holds content bytes w h = record {
    is_open = h.is_open;
    good = h.good;
    there = rw (h.good, bytes_eq_refl w.0.path, h.there) refl;
    tracked = omega (arith, h.tracked, length-append content bytes);
  }

  rotate-Holds :
      (today : Bytes) (w : SinkWorld)
      → host.can_open w.0.path ≡ true
      → Holds [] (rotate host today w)
  unfolding rotate open_truncate
  rotate-Holds today w h = record {
    is_open = rw h refl;
    good = rw h refl;
    there = rw (h, bytes_eq_refl w.0.path) refl;
    tracked = refl;
  }

  -- The question that a sink which rotates by size asks.
  rotate_if_needed_by_size :
      (max_bytes : ℕ) (keep : ℤ) (content bytes today : Bytes) (w : SinkWorld)
      → w.0.rotation ≡ file_size_exceeds max_bytes keep
      → length content + length bytes < 2 ^ 64
      → w.0.current_size ≡ length content % 2 ^ 64
      → rotate_if_needed host (length bytes) today w
        ≡ (if ltb max_bytes (length content + length bytes) then rotate host today w else w)
  unfolding rotate_if_needed should_rotate
  rotate_if_needed_by_size max_bytes keep content bytes today w mode small tracked =
      let ctx : Context = record {
        current_size = w.0.current_size;
        incoming_bytes = length bytes;
        opened_day = w.0.opened_day;
        today = today;
      } in
      let sum : (w.0.current_size + length bytes) % 2 ^ 64 ≡ length content + length bytes =
        omega arith in
      ap (λ (b : Bool). if b then rotate host today w else w)
        (ap (λ (m : Mode). should_rotate m ctx) mode ∙ ap (λ (n : ℕ). ltb max_bytes n) sum)

  write_to_open :
      (bytes today : Bytes) (w : SinkWorld)
      → w.0.ofs.is_open ≡ true
      → w.0.ofs.good ≡ true
      → write host bytes today w
        ≡ append_bytes host bytes (rotate_if_needed host (length bytes) today w)
  unfolding write
  write_to_open bytes today w h k = rw (h, k) refl

  -- Take a sink that rotates by size, whose stream is open and good, whose file holds a text,
  -- whose tracked size is the text's modulo 2 ^ 64, and whose path can be opened anew, and bytes
  -- that make a text shorter than 2 ^ 64 with it. After the write the stream is open and good,
  -- the file holds the bytes alone if the two together exceed the maximum, and otherwise the text
  -- with the bytes behind it, and the tracked size is again the file's.
  pub write-Holds :
      (max_bytes : ℕ) (keep : ℤ) (content bytes today : Bytes) (w : SinkWorld)
      → w.0.rotation ≡ file_size_exceeds max_bytes keep
      → host.can_open w.0.path ≡ true
      → length content + length bytes < 2 ^ 64
      → Holds content w
      → Holds
          (if ltb max_bytes (length content + length bytes) then bytes else content ++ bytes)
          (write host bytes today w)
  write-Holds max_bytes keep content bytes today w mode opens small h =
      let grows = ltb max_bytes (length content + length bytes) in
      let steps =
        write_to_open bytes today w h.is_open h.good
        ∙ ap (append_bytes host bytes)
            (rotate_if_needed_by_size max_bytes keep content bytes today w mode small h.tracked) in
      elim (Bool-cases grows) [
        | inl over ↦ rw over (
            subst (Holds bytes)
              (sym (
                steps
                ∙ ap (λ (b : Bool). append_bytes host bytes (if b then rotate host today w else w))
                    over))
              (append_bytes-Holds [] bytes (rotate host today w) (rotate-Holds today w opens)))
        | inr fits ↦ rw fits (
            subst (Holds (content ++ bytes))
              (sym (
                steps
                ∙ ap (λ (b : Bool). append_bytes host bytes (if b then rotate host today w else w))
                    fits))
              (append_bytes-Holds content bytes w h))
      ]
