-- ===== src/Bio.antt =====
-- xv6-public/bio.c and sleeplock.c: the cache of disk blocks.
mod Defs
pub mod Ring
pub mod Order
pub mod Lru
pub mod Release
pub mod Init
mod Tests
unfoldable pub use Defs.{
  acquiresleep, releasesleep, holdingsleep, binit_from, binit, scan, bget, bread_fill, unlink,
  to_front, brelse,
}
pub use Defs.*
