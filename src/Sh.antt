-- ===== src/Sh.antt =====
-- The shell's parser: xv6-public/sh.c.
mod Lexer
mod Defs
mod Ensures
mod Words
mod Tokens
mod Shape
mod Fuel
mod Nul
mod Strings
mod Print
mod Reading
mod Redirs
mod Arguments
mod Ends
mod RoundTrip
mod Whole
mod Tests
