-- ===== src/Render.antt =====
-- src/renderers/ and include/sylog/renderer.hpp.
pub mod Time
pub mod Json
pub mod Replace
pub mod Pattern
