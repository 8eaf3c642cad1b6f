-- ===== src/Shield.antt =====
-- sdk/kit/src/shield.ts: client-side enforcement of the policies.
pub mod State
pub mod Evaluate
pub mod Context
pub mod Compiled
pub mod Signer
mod Tests
