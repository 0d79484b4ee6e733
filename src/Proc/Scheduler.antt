-- ===== src/Proc/Scheduler.antt =====
-- scheduler: its pass over the process table on one processor.
use modificacion_sistema_ope.Base.{ℕ, zero, suc, ◌+◌, ◌≡◌, ◌≢◌, Bool, if◌then◌else◌, List, [], ◌∷◌}
use modificacion_sistema_ope.Proc.Defs.{runnable, running, state_eq, nproc, Table, set_state}

-- The pass over the `n` slots from `i` on: the slots switched to, and the table after. `run i`
-- is what happens from the switch to process `i` until it switches back.
unfoldable pub scheduler_from : (ℕ → Table → Table) → ℕ → ℕ → Table → List ℕ × Table
scheduler_from run zero i t = ([], t)
scheduler_from run (suc n) i t =
    let picked : Bool = state_eq (t i).state runnable in
    let t' : Table = if picked then run i (set_state i running t) else t in
    let (rest, end) = scheduler_from run n (i + 1) t' in (if picked then i ∷ rest else rest, end)

unfoldable pub scheduler_pass : (ℕ → Table → Table) → Table → List ℕ × Table
scheduler_pass run t = scheduler_from run nproc 0 t

-- Nobody takes away the RUNNABLE of a process that is not running.
abbrev pub Keeps : (ℕ → Table → Table) → Type 0
Keeps run = (i j : ℕ) (t : Table) → j ≢ i → (t j).state ≡ runnable → (run i t j).state ≡ runnable

-- The table where the pass comes to slot `j`.
abbrev pub before : (ℕ → Table → Table) → ℕ → Table → Table
before run j t = (scheduler_from run j 0 t).1

-- What the pass does with slot `j` of the table `u`.
abbrev pub visit : (ℕ → Table → Table) → ℕ → Table → Table
visit run j u = if state_eq (u j).state runnable then run j (set_state j running u) else u
