-- ===== src/Lex.antt =====
-- lex.c: the lexer.
pub mod Token
pub mod Scan
pub mod Tokenize
mod Total
pub mod Ends
mod Tests
