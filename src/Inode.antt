-- ===== src/Inode.antt =====
-- xv6-public/fs.c: the blocks of a file, from the bitmap to readi and writei.
mod Defs
pub mod Bits
pub mod Alloc
pub mod Slots
pub mod Grow
pub mod Bmap
pub mod Store
pub mod Read
pub mod Wrote
pub mod WriteLoop
pub mod Write
pub mod Free
pub mod Truncate
pub mod Example
mod Tests
unfoldable pub use Defs.{
  balloc_bits, balloc_from, balloc, bfree, bmap, readi_from, readi, writei_from, writei,
  itrunc_direct, itrunc_words, itrunc_indirect, itrunc,
}
pub use Defs.*
