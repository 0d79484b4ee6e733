-- ===== src/Syscall.antt =====
-- xv6-public/syscall.c: how the kernel reads the arguments of a system call, and which call it makes.
mod Defs
pub mod Bounds
mod Dispatch
mod Tests
unfoldable pub use Defs.{fetchint, fetchstr_from, fetchstr, argint, argptr, argstr}
pub use Defs.*
