-- ===== src/Core.antt =====
-- sdk/kit/src/core: the platform-independent policy engine.
pub mod Registry
pub mod Policies
pub mod State
pub mod Engine
mod Tests
