-- ===== src/Event.antt =====
-- include/sylog/event.hpp: the log event and its fields.
use sy_log.Prelude.{ℕ, List, [], Bytes, codes, Bool}

-- `std::int64_t`, by sign: `negsuc n` is -(n + 1).
pub data ℤ : Type 0 where
  pos : ℕ → ℤ
  negsuc : ℕ → ℤ

-- `std::variant<std::monostate, bool, std::int64_t, double, std::string>`. A double is the number
-- of its 64-bit pattern.
pub data FieldValue : Type 0 where
  monostate : FieldValue
  boolean : Bool → FieldValue
  int64 : ℤ → FieldValue
  double : ℕ → FieldValue
  string : Bytes → FieldValue

pub record Field : Type 0 where
  pub key : Bytes
  pub value : FieldValue

-- `std::source_location`.
pub record SourceLocation : Type 0 where
  pub file_name : Bytes
  pub line : ℕ
  pub function_name : Bytes

-- Time points and thread ids are the numbers that stand for them.
pub record Event : Type 0 where
  pub timestamp : ℕ
  pub severity_name : Bytes
  pub severity_priority : ℕ
  pub endpoint : Bytes
  pub message : Bytes
  pub source : SourceLocation
  pub thread_id : ℕ
  pub fields : List Field

-- `Event()`, with the initialisers of its members.
abbrev pub default_event : Event
default_event = record {
  timestamp = 0;
  severity_name = codes "INFO";
  severity_priority = 300;
  endpoint = [];
  message = [];
  source = record { file_name = []; line = 0; function_name = [] };
  thread_id = 0;
  fields = [];
}

abbrev pub set_timestamp : ℕ → Event → Event
set_timestamp v e = record e { timestamp = v }

abbrev pub set_severity : Bytes → ℕ → Event → Event
set_severity name priority e = record e { severity_name = name; severity_priority = priority }

abbrev pub set_endpoint : Bytes → Event → Event
set_endpoint endpoint e = record e { endpoint = endpoint }

abbrev pub set_message : Bytes → Event → Event
set_message message e = record e { message = message }

abbrev pub set_source : SourceLocation → Event → Event
set_source loc e = record e { source = loc }

abbrev pub set_thread_id : ℕ → Event → Event
set_thread_id tid e = record e { thread_id = tid }

abbrev pub set_fields : List Field → Event → Event
set_fields fields e = record e { fields = fields }
