-- ===== src/Parse.antt =====
-- parse.c: the recursive descent parser.
pub mod Stream
pub mod Indexed
pub mod Expression
pub mod Statement
pub mod Total
pub mod Grammar
pub mod Levels
mod Operands
mod Steps
pub mod Complete
pub mod ProgramTotal
mod Tests
