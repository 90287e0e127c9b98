-- ===== src/Sink/Console.antt =====
-- src/sinks/console_sink.cpp: `ConsoleSink`, over what the process has written to its two streams.
use sy_log.Prelude.{Bool, ◌++◌, Bytes, if◌then◌else◌}

pub record Streams : Type 0 where
  pub out : Bytes
  pub err : Bytes

pub record ConsoleSink : Type 0 where
  pub use_stderr : Bool

-- A stream holds what it is given until it is flushed, which shows in no later call: only the bytes
-- are kept.
unfoldable pub console_write : ConsoleSink → Bytes → Streams → Streams
console_write sink bytes s =
    if sink.use_stderr then record s { err = s.err ++ bytes } else record s { out = s.out ++ bytes }
