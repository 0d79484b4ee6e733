-- ===== src/Lock/Defs.antt =====
-- struct cpu and struct spinlock, and the functions of xv6-public/spinlock.c. acquire and release
-- are cut where another processor can come between: at each access to the lock, but for the two
-- reads of holding, which are one step.
use modificacion_sistema_ope.Base.{
  ℕ, ◌+◌, ◌-◌, Bool, true, false, ◌&&◌, Option, none, some, update, ◌==◌, if◌then◌else◌,
}

-- ncli, intena, and the interrupt flag of eflags.
pub record Cpu : Type 0 where
  pub ncli : ℕ
  pub intena : Bool
  pub fl_if : Bool

-- `cpu` is the pointer to the processor that holds the lock.
pub record Spinlock : Type 0 where
  pub locked : Bool
  pub cpu : Option ℕ

pub record Machine : Type 0 where
  pub cpus : ℕ → Cpu
  pub locks : ℕ → Spinlock

unfoldable pub pushcli : Cpu → Cpu
pushcli c = record {
  ncli = c.ncli + 1;
  intena = if c.ncli == 0 then c.fl_if else c.intena;
  fl_if = false;
}

-- `none` is a panic.
unfoldable pub popcli : Cpu → Option Cpu
popcli c =
    if c.fl_if
    then none
    else if c.ncli == 0
    then none
    else some (record c { ncli = c.ncli - 1; fl_if = c.ncli - 1 == 0 && c.intena })

abbrev pub is_cpu : ℕ → Option ℕ → Bool
is_cpu me none = false
is_cpu me (some c) = me == c

-- holding, by processor `me`: the answer, and the processor after.
unfoldable pub holding : ℕ → Spinlock → Cpu → Option (Bool × Cpu)
holding me lk c = elim (popcli (pushcli c)) [
  | none ↦ none
  | some c' ↦ some (lk.locked && is_cpu me lk.cpu, c')
]

-- acquire before its loop; `none` is a panic.
unfoldable pub acquire_begin : ℕ → ℕ → Machine → Option Machine
acquire_begin me lk m = elim (holding me (m.locks lk) (pushcli (m.cpus me))) [
  | none ↦ none
  | some (held, c) ↦ if held then none else some (record m { cpus = update m.cpus me c })
]

-- xchg(&lk->locked, 1): the old value.
unfoldable pub acquire_try : ℕ → Machine → Bool × Machine
acquire_try lk m = (
  (m.locks lk).locked,
  record m { locks = update m.locks lk (record (m.locks lk) { locked = true }) },
)

-- `lk->cpu = mycpu()`
unfoldable pub acquire_end : ℕ → ℕ → Machine → Machine
acquire_end me lk m = record m { locks = update m.locks lk (record (m.locks lk) { cpu = some me }) }

-- release up to `lk->cpu = 0`; `none` is a panic.
unfoldable pub release_begin : ℕ → ℕ → Machine → Option Machine
release_begin me lk m = elim (holding me (m.locks lk) (m.cpus me)) [
  | none ↦ none
  | some (held, c) ↦
      if held
      then some (record {
        cpus = update m.cpus me c;
        locks = update m.locks lk (record (m.locks lk) { cpu = none });
      })
      else none
]

-- `lk->locked = 0` and popcli; `none` is a panic.
unfoldable pub release_end : ℕ → ℕ → Machine → Option Machine
release_end me lk m = elim (popcli (m.cpus me)) [
  | none ↦ none
  | some c ↦ some (record {
    cpus = update m.cpus me c;
    locks = update m.locks lk (record (m.locks lk) { locked = false });
  })
]
