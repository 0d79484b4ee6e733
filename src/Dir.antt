-- ===== src/Dir.antt =====
-- Directories in xv6-public/fs.c.
mod Defs
mod Names
mod Search
mod Entries
mod Link
mod Tests
