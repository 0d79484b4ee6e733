-- ===== src/Kalloc.antt =====
-- xv6-public/kalloc.c: the allocator of physical pages.
mod Defs
pub mod FreeList
pub mod Ownership
pub mod Range
mod Tests
unfoldable pub use Defs.{kfree, kalloc, freerange, kinit1, kinit2}
pub use Defs.*
