-- ===== src/Parser.antt =====
-- src/parser.c: between the lexer that flex builds and the push parser that bison builds.
pub mod Prefix
pub mod Line
pub mod Text
pub mod Report
pub mod Send
