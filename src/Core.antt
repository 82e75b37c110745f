-- ===== src/Core.antt =====
-- crates/waf-core: the types shared by every part, configuration, client address and state.
pub mod Decision
pub mod Context
pub mod Config
pub mod State
pub mod ClientIp
