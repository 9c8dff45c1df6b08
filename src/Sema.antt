-- ===== src/Sema.antt =====
-- sema.c: the semantic analysis.
pub mod Scope
pub mod Lookup
pub mod Later
pub mod Resolved
pub mod Steps
pub mod Walk
pub mod Binding
pub mod Blocks
pub mod Bound
pub mod Slots
pub mod Warnings
pub mod TypeNames
pub mod Locals
pub mod Taking
pub mod Stacking
pub mod Erase
pub mod Entries
pub mod Leak
pub mod Accepted
pub mod Sound
pub mod State
pub mod Names
pub mod Types
pub mod Program
mod Tests
mod Examples
