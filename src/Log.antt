-- ===== src/Log.antt =====
-- xv6-public/log.c: the write-ahead log of the file system.
mod Defs
mod Header
pub mod Crash
pub mod Absorb
mod Tests
pub mod Space
mod Full
unfoldable pub use Defs.{
  write_log, install_trans, write_head, read_head, commit, initlog, recover_from_log, begin_op,
  end_op_enter, end_op_leave, log_write, log_write_tests, absorb, find_slot, copy_words, read_words,
}
pub use Defs.*
