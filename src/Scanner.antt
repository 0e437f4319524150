-- ===== src/Scanner.antt =====
-- src/scanner.l: the scanner.
pub mod Pattern
pub mod Matches
pub mod Token
pub mod Rule
pub mod Keywords
pub mod Rules
pub mod Yylex
pub mod Munch
pub mod Case
pub mod Words
pub mod Mnemonics
pub mod Progress
pub mod Unclosed
