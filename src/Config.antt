-- ===== src/Config.antt =====
-- include/sylog/logger.hpp: `Config`.
use sy_log.Prelude.{ℕ, Bool, true, false}

pub record Config : Type 0 where
  pub async_by_default : Bool
  pub queue_capacity : ℕ
  pub fatal_sync : Bool

-- `Config()`; 65536 is `1u << 16`.
abbrev pub default_config : Config
default_config = record { async_by_default = true; queue_capacity = 65536; fatal_sync = true }

abbrev pub asynchronous : ℕ → Config
asynchronous capacity = record default_config { async_by_default = true; queue_capacity = capacity }

abbrev pub synchronous : Config
synchronous = record default_config { async_by_default = false }
