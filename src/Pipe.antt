-- ===== src/Pipe.antt =====
-- xv6-public/pipe.c: pipes.
mod Defs
pub mod Window
pub mod Spec
pub mod Refine
pub mod Wakeup
mod Tests
unfoldable pub use Defs.{pipewrite, piperead, pipeclose, is_full, is_empty, fresh_pipe}
pub use Defs.*
