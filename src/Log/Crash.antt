-- ===== src/Log/Crash.antt =====
-- What a power failure during commit or recovery leaves behind.
mod Image
mod Install
mod Commit
pub use Image.*
pub use Install.*
pub use Commit.*
