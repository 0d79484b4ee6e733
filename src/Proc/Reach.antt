-- ===== src/Proc/Reach.antt =====
-- Every interleaving of the calls of xv6-public/proc.c from the first process on.
use modificacion_sistema_ope.Base.{ℕ, ◌<◌, ◌≡◌, arith, some, ℤ}
use modificacion_sistema_ope.Proc.Defs.{
  runnable, running, Chan, at, nproc, set_state, wakeup1, kill, sleep_enter, sleep_leave, yield,
}
use modificacion_sistema_ope.Proc.Services.{Services}
use modificacion_sistema_ope.Proc.Ops.{Kernel, userinit, fork, exit, wait, growproc}
use modificacion_sistema_ope.Proc.Inv.{IsTable, Similar-IsTable}
use modificacion_sistema_ope.Proc.Steps.{
  wakeup1-Similar, kill-Similar, yield-Similar, dispatch-Similar, sleep-Similar,
  sleep_leave-Similar,
}
use modificacion_sistema_ope.Proc.Kernel.{Grows-IsTable, fork-Grows, fork-initproc}
use modificacion_sistema_ope.Proc.Calls.{
  Good, boot, exit-Good, wait-Good, growproc-Good, userinit-Good,
}

module _ (sv : Services) where
  -- A call by the process in slot `cur`, which is running, or a step of the scheduler or of an
  -- interrupt. A process that sched has switched away from takes its next step when it is
  -- running again.
  pub data Step (k : Kernel sv) : Kernel sv → Type 0 where
    forks : (cur : ℕ) → cur < nproc → (k.proc cur).state ≡ running → Step k (fork sv cur k).1
    exits :
        (cur : ℕ) (k' : Kernel sv)
        → cur < nproc
        → (k.proc cur).state ≡ running
        → exit sv cur k ≡ some k'
        → Step k k'
    waits : (cur : ℕ) → cur < nproc → (k.proc cur).state ≡ running → Step k (wait sv cur k).1
    grows :
        (cur : ℕ) (n : ℤ)
        → cur < nproc
        → (k.proc cur).state ≡ running
        → Step k (growproc sv cur n k).1
    -- A sleep on anything but a process.
    sleeps_on :
        (cur a : ℕ)
        → cur < nproc
        → (k.proc cur).state ≡ running
        → Step k (record k { proc = sleep_enter cur (at a) k.proc })
    returns_from_sleep :
        (cur : ℕ)
        → cur < nproc
        → (k.proc cur).state ≡ running
        → Step k (record k { proc = sleep_leave cur k.proc })
    yields :
        (cur : ℕ)
        → cur < nproc
        → (k.proc cur).state ≡ running
        → Step k (record k { proc = yield cur k.proc })
    kills : (pid : ℕ) → Step k (record k { proc = (kill pid k.proc).1 })
    wakes : (c : Chan) → Step k (record k { proc = wakeup1 c k.proc })
    dispatches :
        (i : ℕ)
        → i < nproc
        → (k.proc i).state ≡ runnable
        → Step k (record k { proc = set_state i running k.proc })
    -- The rest of the kernel moves.
    elsewhere : (s : sv.Sys) → Step k (record k { sys = s })

  -- From userinit on.
  pub data Reach : Kernel sv → Type 0 where
    starts : (s : sv.Sys) (k : Kernel sv) → userinit sv (boot sv s) ≡ some k → Reach k
    steps : {k k' : Kernel sv} → Reach k → Step k k' → Reach k'

  Step-Good : {k k' : Kernel sv} → Step k k' → Good sv k → Good sv k'
  Step-Good {k = k} (forks cur h e) v =
      rw (fork-initproc sv cur k) (Grows-IsTable (fork-Grows sv cur k) h (ground arith) v)
  Step-Good {k = k} {k' = k'} (exits cur _ h e q) v = exit-Good sv cur k k' h e q v
  Step-Good {k = k} (waits cur h e) v = wait-Good sv cur k h e v
  Step-Good {k = k} (grows cur n h e) v = growproc-Good sv cur n k v
  Step-Good {k = k} (sleeps_on cur a h e) v =
      Similar-IsTable (λ j _. sleep-Similar cur a k.proc e j) v
  Step-Good {k = k} (returns_from_sleep cur h e) v =
      Similar-IsTable (λ j _. sleep_leave-Similar cur k.proc e j) v
  Step-Good {k = k} (yields cur h e) v =
      Similar-IsTable (λ j _. yield-Similar cur k.proc (ground arith) j) v
  Step-Good {k = k} (kills pid) v = Similar-IsTable (λ j _. kill-Similar pid k.proc j) v
  Step-Good {k = k} (wakes c) v = Similar-IsTable (λ j _. wakeup1-Similar c k.proc j) v
  Step-Good {k = k} (dispatches i h e) v = Similar-IsTable (λ j _. dispatch-Similar i k.proc e j) v
  Step-Good (elsewhere s) v = v

  -- In every reachable state: free slots and init have no parent; the parent of a process is
  -- another slot's process that has not exited; the pids in use are distinct and below nextpid;
  -- init is alive; and no process sleeps in wait while a child of it has exited.
  pub reach-IsTable : (k : Kernel sv) → Reach k → IsTable k.proc k.nextpid k.initproc
  reach-IsTable k (starts s _ e) = userinit-Good sv s k e
  reach-IsTable k (steps r s) = Step-Good s (reach-IsTable _ r)
