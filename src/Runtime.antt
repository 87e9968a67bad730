-- ===== src/Runtime.antt =====
-- lib/Runtime: what an executable checks before it calls compiled code, and the choice of the code.
pub mod Layout
pub mod Overrides
pub mod Dispatch
pub mod Ragged
pub mod Execute
pub mod Creation
