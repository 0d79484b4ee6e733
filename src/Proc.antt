-- ===== src/Proc.antt =====
-- xv6-public/proc.c and proc.h: the process table and the scheduler.
mod Defs
mod Services
mod Loops
mod Inv
mod Steps
mod Family
pub mod Wait
pub mod Exit
pub mod Reach
pub mod Scheduler
pub mod Ops
pub mod Kernel
pub mod Calls
pub mod Contracts
pub mod Exits
pub mod Kill
pub mod Keeps
mod Tests
unfoldable pub use Defs.{
  find_unused, wakeup1_from, wakeup1, kill_from, kill, sleep_enter, sleep_leave, yield,
  reparent_from, scan_children,
}
pub use Defs.*
pub use Services.*
