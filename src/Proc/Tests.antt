-- ===== src/Proc/Tests.antt =====
-- The process table's theorems at concrete kernels.
use modificacion_sistema_ope.Base.{
  ℕ, ◌+◌, ◌<◌, ◌≡◌, ◌≢◌, ◌⊎◌, refl, arith, true, false, none, some, update, if◌then◌else◌, [], ◌∷◌,
}
use modificacion_sistema_ope.Proc.Defs.{
  unused, embryo, sleeping, runnable, running, zombie, at_proc, nproc, nofile, Proc, Table,
  is_parent, yield, find_unused, kill, kill_from, scan_children, reaped, fails, sleeps, set_state,
}
use modificacion_sistema_ope.Proc.Services.{Services}
use modificacion_sistema_ope.Proc.Ops.{
  Kernel, first_frame, initcode_name, allocproc, userinit, fork, close_files, exit, wait,
}
use modificacion_sistema_ope.Proc.Inv.{IsTable, Waits}
use modificacion_sistema_ope.Proc.Calls.{blank, boot}
use modificacion_sistema_ope.Proc.Reach.{
  forks, dispatches, waits, Reach, starts, steps, reach-IsTable,
}
use modificacion_sistema_ope.Proc.Contracts.{Child, fork_lem, wait_lem}
use modificacion_sistema_ope.Proc.Exits.{exit_lem}
use modificacion_sistema_ope.Proc.Kill.{kill-fork}
use modificacion_sistema_ope.Proc.Scheduler.{scheduler_from, scheduler_pass}

-- Services that count the pages they give.
abbrev plain : Services
plain = record {
  Sys = ℕ;
  kalloc = λ n. (n + 1, n + 1);
  kfree = λ p n. n;
  setupkvm = λ n. (n + 1, n + 1);
  inituvm = λ p n. n;
  copyuvm = λ p sz n. (n + 1, n + 1);
  freevm = λ p n. n;
  allocuvm = λ p old new n. (new, n);
  deallocuvm = λ p old new n. (new, n);
  root = λ n. (some 1, n);
  filedup = λ f n. n;
  fileclose = λ f n. n;
  idup = λ i n. n;
  iput = λ i n. n;
}

-- The process that allocproc takes for userinit, and the one that userinit leaves.
abbrev embryo_init : Proc
embryo_init = record (blank plain) { state = embryo; pid = 1; kstack = 1 }

abbrev first : Proc
first = record embryo_init {
  pgdir = 2;
  sz = 4096;
  tf = first_frame;
  name = initcode_name;
  cwd = some 1;
  state = runnable;
}

abbrev booted : Kernel plain
booted = record {
  proc = update (update (λ _. blank plain) 0 embryo_init) 0 first;
  nextpid = 2;
  initproc = some 0;
  sys = 2;
}

userinit_boots : userinit plain (boot plain 0) ≡ some booted
unfolding userinit allocproc find_unused
userinit_boots = refl

abbrev dispatched : Kernel plain
dispatched = record booted { proc = set_state 0 running booted.proc }

dispatched-Reach : Reach plain dispatched
dispatched-Reach = steps (starts 0 booted userinit_boots) (dispatches 0 (omega arith) refl)

forked-runs : ((fork plain 0 dispatched).1.proc 0).state ≡ running
unfolding fork allocproc find_unused
forked-runs = refl

-- init forks, and sleeps in wait.
slept-Reach : Reach plain (wait plain 0 (fork plain 0 dispatched).1).1
slept-Reach =
    steps (steps dispatched-Reach (forks 0 (omega arith) refl)) (waits 0 (omega arith) forked-runs)

reach-IsTable_example :
    IsTable
      (wait plain 0 (fork plain 0 dispatched).1).1.proc
      (wait plain 0 (fork plain 0 dispatched).1).1.nextpid
      (wait plain 0 (fork plain 0 dispatched).1).1.initproc
reach-IsTable_example = reach-IsTable plain (wait plain 0 (fork plain 0 dispatched).1).1 slept-Reach

fork_lem_example :
    (((fork plain 0 dispatched).0 ≡ none)
      × (((j : ℕ) → j < nproc → (dispatched.proc j).state ≢ unused)
          ⊎ (◌≡◌ {A = ℕ} 3 0)
          ⊎ ((◌≡◌ {A = ℕ} 4 0) × ((fork plain 0 dispatched).1.sys ≡ 4)))
      × ((j : ℕ)
          → ((fork plain 0 dispatched).1.proc j ≡ dispatched.proc j)
            ⊎ (((dispatched.proc j).state ≡ unused)
                × (((fork plain 0 dispatched).1.proc j).state ≡ unused))))
    ⊎ ((i : ℕ) × (p : Proc) × (i < nproc)
        × (◌≢◌ {A = ℕ} 3 0)
        × (◌≢◌ {A = ℕ} 4 0)
        × ((dispatched.proc i).state ≡ unused)
        × ((fork plain 0 dispatched).0 ≡ some 2)
        × ((fork plain 0 dispatched).1.nextpid ≡ 3)
        × ((fork plain 0 dispatched).1.proc ≡ update dispatched.proc i p)
        × Child plain 0 2 3 4 (dispatched.proc 0) (dispatched.proc i) p)
fork_lem_example = fork_lem plain 0 dispatched refl

-- Slot 1 is a child of init, in slot 0, which waits.
abbrev parent_waits : Kernel plain
parent_waits = record booted {
  proc =
      update (update booted.proc 0 (record first { state = sleeping; chan = at_proc 0 })) 1
        (record first { state = running; pid = 2; parent = some 0; ofile = λ j. some 3 });
  nextpid = 3;
}

child_exits : (k : Kernel plain) × (exit plain 1 parent_waits ≡ some k)
unfolding exit close_files
child_exits = (_, refl)

abbrev after_exit : Kernel plain
after_exit = child_exits.0

exit_lem_example :
    ((after_exit.proc 1).state ≡ zombie)
    × ((after_exit.proc 1).cwd ≡ none)
    × ((j : ℕ) → j < nofile → (after_exit.proc 1).ofile j ≡ none)
    × ((j : ℕ)
        → j < nproc
        → ((after_exit.proc j).parent ≡ (
            if is_parent 1 (parent_waits.proc j).parent
            then some 0
            else (parent_waits.proc j).parent))
          × ((after_exit.proc j).pid ≡ (parent_waits.proc j).pid))
    × ((i : ℕ)
        → i < nproc
        → some 0 ≡ some i
        → Waits i (parent_waits.proc i)
        → (after_exit.proc i).state ≡ runnable)
exit_lem_example = exit_lem plain 1 parent_waits after_exit (omega arith) refl child_exits.1

-- Slot 1 has exited, and init looks for it.
abbrev child_dead : Kernel plain
child_dead = record booted {
  proc =
      update (update booted.proc 0 (record first { state = running })) 1
        (record first { state = zombie; pid = 2; parent = some 0 });
  nextpid = 3;
}

wait_reaps : (wait plain 0 child_dead).0 ≡ reaped 2
unfolding wait scan_children
wait_reaps = refl

wait_lem_example :
    ((i : ℕ) × (i < nproc)
      × ((child_dead.proc i).parent ≡ some 0)
      × ((child_dead.proc i).state ≡ zombie)
      × ((wait plain 0 child_dead).0 ≡ reaped (child_dead.proc i).pid)
      × ((wait plain 0 child_dead).1.proc
          ≡ update child_dead.proc i (record (child_dead.proc i) {
            kstack = 0;
            pid = 0;
            parent = none;
            name = [];
            killed = false;
            state = unused;
          }))
      × ((wait plain 0 child_dead).1.sys ≡ 2))
    ⊎ ((wait plain 0 child_dead ≡ (fails, child_dead))
        × ((j : ℕ)
            → j < nproc
            → (child_dead.proc j).parent ≡ some 0
            → ((child_dead.proc j).state ≢ zombie) × (false ≡ true)))
    ⊎ ((wait plain 0 child_dead ≡ (
      sleeps,
      record child_dead {
        proc =
            update child_dead.proc 0
              (record (child_dead.proc 0) { chan = at_proc 0; state = sleeping });
      },
    ))
        × (false ≡ false)
        × ((j : ℕ) × (j < nproc) × ((child_dead.proc j).parent ≡ some 0))
        × ((j : ℕ)
            → j < nproc
            → (child_dead.proc j).parent ≡ some 0
            → (child_dead.proc j).state ≢ zombie))
wait_lem_example = wait_lem plain 0 child_dead

-- init runs, and somebody kills pid 0.
abbrev zero_killed : Kernel plain
zero_killed = record dispatched { proc = (kill 0 dispatched.proc).1 }

second_found : find_unused nproc 0 dispatched.proc ≡ some 1
unfolding find_unused
second_found = refl

zero_forked : (fork plain 0 zero_killed).0 ≡ some 2
unfolding fork allocproc find_unused kill kill_from
zero_forked = refl

kill-fork_example :
    ((kill 0 dispatched.proc).0 ≡ true)
    × (((fork plain 0 zero_killed).1.proc 1).killed ≡ true)
    × (((fork plain 0 zero_killed).1.proc 1).state ≡ runnable)
kill-fork_example =
    kill-fork plain 0 0 1 2 dispatched second_found (omega arith) refl refl (λ j h. ground arith)
      zero_forked

-- Slots 0 and 2 take turns.
abbrev two_ready : Table
two_ready = update (update (λ _. blank plain) 0 first) 2 first

turns : (scheduler_pass yield two_ready).0 ≡ 0 ∷ 2 ∷ []
unfolding scheduler_pass scheduler_from yield
turns = refl
