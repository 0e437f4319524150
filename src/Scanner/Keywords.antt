-- ===== src/Scanner/Keywords.antt =====
-- src/scanner.l: the words of the commands.
pub mod Upper
pub mod Lower
