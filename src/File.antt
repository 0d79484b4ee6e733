-- ===== src/File.antt =====
-- xv6-public/file.c and the descriptors of xv6-public/sysfile.c: the table of open files.
mod Defs
mod Calls
mod Counts
mod Table
mod Keeps
mod Loops
mod Reach
mod Io
mod Chunks
mod Tests
