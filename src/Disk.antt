-- ===== src/Disk.antt =====
-- The disk below the buffer cache (xv6-public/bio.c, ide.c), as log.c uses it: numbered blocks of
-- words, the buffers' contents, and the power supply, which may fail before any disk write.
mod Copy
mod Words
unfoldable pub use Copy.{copy_blocks}
pub use Copy.*
pub use Words.*
