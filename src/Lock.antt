-- ===== src/Lock.antt =====
-- xv6-public/spinlock.c: spin locks on several processors.
mod Defs
pub mod Interleave
pub mod Exclusion
pub mod Safety
mod Tests
unfoldable pub use Defs.{
  pushcli, popcli, holding, acquire_begin, acquire_try, acquire_end, release_begin, release_end,
}
pub use Defs.*
