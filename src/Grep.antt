-- ===== src/Grep.antt =====
-- xv6-public/grep.c: the matcher of regular expressions.
mod Defs
pub mod Language
pub mod Match
mod Tests
unfoldable pub use Defs.{matchstar, matchhere, match_from, match}
pub use Defs.*
