-- ===== src/Console.antt =====
-- Console input and numbers: xv6-public/console.c.
mod Defs
mod Spec
mod Window
mod Editing
mod Typing
mod Refine
mod Numbers
mod Tests
