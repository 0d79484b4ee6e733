-- ===== src/Str.antt =====
-- xv6-public/string.c: the kernel's memory and string routines.
mod Defs
pub mod Set
pub mod Move
pub mod Compare
pub mod Copy
mod Tests
unfoldable pub use Defs.{
  stosb, stosl, memset, memmove, memcpy, memcmp, strncmp, strncpy, safestrcpy, strlen,
}
pub use Defs.*
