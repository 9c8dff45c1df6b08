-- ===== src/Asm.antt =====
-- asm.c: the code generator.
pub mod Target
pub mod Machine
pub mod Compute
pub mod Correct
pub mod Enough
pub mod Suffices
pub mod Runs
pub mod Labels
pub mod Adding
pub mod Extending
pub mod Bodies
pub mod Executes
pub mod Places
pub mod Branches
pub mod Conditions
pub mod Follows
pub mod StatementRuns
pub mod ForLoops
pub mod Rounds
pub mod Starts
pub mod Values
pub mod Shortcut
pub mod Logic
pub mod Operators
pub mod Pieces
pub mod Code
pub mod Meaning
pub mod State
pub mod Eval
pub mod Gen
pub mod Flags
pub mod Registers
pub mod Balance
pub mod Statements
pub mod Frame
mod Tests
mod Examples
