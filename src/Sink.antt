-- ===== src/Sink.antt =====
-- include/sylog/sink.hpp and src/sinks/.
pub mod Rotation
pub mod Console
pub mod FileSystem
pub mod File
