-- ===== src/Fs.antt =====
-- xv6-public/fs.c: path names.
mod Defs
mod Directory
pub mod Components
mod Namex
pub mod Walk
mod Tests
unfoldable pub use Defs.{skip_slashes, until_slash, skipelem}
unfoldable pub use Namex.{namex_from, namex}
pub use Defs.*
pub use Directory.*
pub use Namex.*
