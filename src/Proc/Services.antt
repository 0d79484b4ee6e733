-- ===== src/Proc/Services.antt =====
-- What proc.c calls in the allocator, the virtual memory and the file system: the state `Sys` of
-- those parts, and one operation for each call. Nothing is assumed of them.
use modificacion_sistema_ope.Base.{ℕ, Option}

pub record Services : Type 1 where
  pub Sys : Type 0
  -- kalloc: 0 where there is no page; kfree
  pub kalloc : Sys → ℕ × Sys
  pub kfree : ℕ → Sys → Sys
  -- setupkvm and copyuvm(pgdir, sz): 0 where there is no memory; inituvm of the first program;
  -- freevm
  pub setupkvm : Sys → ℕ × Sys
  pub inituvm : ℕ → Sys → Sys
  pub copyuvm : ℕ → ℕ → Sys → ℕ × Sys
  pub freevm : ℕ → Sys → Sys
  -- allocuvm and deallocuvm(pgdir, old, new): the new size, 0 on failure
  pub allocuvm : ℕ → ℕ → ℕ → Sys → ℕ × Sys
  pub deallocuvm : ℕ → ℕ → ℕ → Sys → ℕ × Sys
  -- namei("/"): the root's inode
  pub root : Sys → Option ℕ × Sys
  -- filedup and fileclose of an open file; idup; begin_op, iput, end_op
  pub filedup : ℕ → Sys → Sys
  pub fileclose : ℕ → Sys → Sys
  pub idup : ℕ → Sys → Sys
  pub iput : ℕ → Sys → Sys
