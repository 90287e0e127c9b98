-- ===== src/Severity.antt =====
-- include/sylog/severity.hpp: a severity is a class with four static functions, a value here.
use sy_log.Prelude.{ℕ, Bytes, codes, Bool, true, false}

pub record Severity : Type 0 where
  pub name : Bytes
  pub priority : ℕ
  pub force_sync : Bool
  pub flush_after : Bool

-- The defaults that a class inherits.
abbrev pub severity_base : Severity
severity_base = record {
  name = codes "CUSTOM";
  priority = 0;
  force_sync = false;
  flush_after = false;
}

abbrev pub trace : Severity
trace = record severity_base { name = codes "TRACE"; priority = 100 }

abbrev pub debug : Severity
debug = record severity_base { name = codes "DEBUG"; priority = 200 }

abbrev pub info : Severity
info = record severity_base { name = codes "INFO"; priority = 300 }

abbrev pub warn : Severity
warn = record severity_base { name = codes "WARN"; priority = 400 }

abbrev pub error : Severity
error = record severity_base { name = codes "ERROR"; priority = 500 }

abbrev pub fatal : Severity
fatal = record severity_base {
  name = codes "FATAL";
  priority = 600;
  force_sync = true;
  flush_after = true;
}
