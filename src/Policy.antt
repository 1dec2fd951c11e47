-- ===== src/Policy.antt =====
-- packages/policy/src: the policy engine, and the rules that it evaluates.
pub mod Validation
pub mod Configs
pub mod Checks
pub mod Daily
pub mod Engine
pub mod Compliance
pub mod Denials
pub mod Branches
pub mod Allow
pub mod Threshold
pub mod Records
pub mod Rules
