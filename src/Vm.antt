-- ===== src/Vm.antt =====
-- xv6-public/vm.c: page tables.
mod Defs
mod Tables
mod Walk
mod Ranges
mod Map
mod Tests
