-- ===== src/Proc/Ops.antt =====
-- The functions of xv6-public/proc.c that use the rest of the kernel.
use modificacion_sistema_ope.Base.{
  ℕ, zero, suc, ◌+◌, ◌-◌, ◌%◌, ◌^◌, Bool, true, false, not, ◌||◌, Option, none, some, update, ◌==◌,
  if◌then◌else◌, take, List, [], ◌∷◌, ℤ, pos, negsuc,
}
use modificacion_sistema_ope.Proc.Defs.{
  unused, embryo, runnable, zombie, at_proc, nproc, nofile, Proc, Table, set_state, is_parent,
  chan_of, find_unused, wakeup1, reparent_from, sleep_enter, Waited, reaped, fails, sleeps,
  scan_children, reap,
}
use modificacion_sistema_ope.Proc.Services.{Services}

-- "initcode"
abbrev pub initcode_name : List ℕ
initcode_name = 105 ∷ 110 ∷ 105 ∷ 116 ∷ 99 ∷ 111 ∷ 100 ∷ 101 ∷ []

-- userinit's trap frame: cs and eflags, the data segments ds, es and ss, esp, and eip 0.
abbrev pub first_frame : ℕ → ℕ
first_frame =
    update (update (update (update (update (update (λ _. 0) 15 27) 11 35) 10 35) 18 35) 16 512) 17
      4096

-- The size of a name, with the NUL that safestrcpy ends it with.
abbrev pub name_size : ℕ
name_size = 16

module _ (sv : Services) where
  open sv use {
    Sys, kalloc, kfree, setupkvm, inituvm, root, copyuvm, freevm, allocuvm, deallocuvm, filedup,
    fileclose, idup, iput,
  }

  -- ptable, nextpid and initproc, with the rest of the kernel. nextpid is an int that the source
  -- increments without a check; it is a number here.
  pub record Kernel : Type 0 where
    pub proc : Table
    pub nextpid : ℕ
    pub initproc : Option ℕ
    pub sys : Sys

  -- allocproc: the slot, or `none`.
  unfoldable pub allocproc : Kernel → Option ℕ × Kernel
  allocproc k = elim (find_unused nproc 0 k.proc) [
    | none ↦ (none, k)
    | some i ↦
        let p : Proc = record (k.proc i) { state = embryo; pid = k.nextpid } in
        let (stack, sys) = kalloc k.sys in
        if stack == 0
        then (
          none,
          record k {
            proc = update k.proc i (record p { state = unused; kstack = 0 });
            nextpid = k.nextpid + 1;
            sys = sys;
          },
        )
        else (
          some i,
          record k {
            proc = update k.proc i (record p { kstack = stack });
            nextpid = k.nextpid + 1;
            sys = sys;
          },
        )
  ]

  -- userinit; `none` is its panic, or a null pointer where allocproc fails.
  unfoldable pub userinit : Kernel → Option Kernel
  userinit k =
      let (slot, k₁) = allocproc k in
      elim slot [
        | none ↦ none
        | some i ↦
            let (pgdir, sys) = setupkvm k₁.sys in
            if pgdir == 0
            then none
            else (let (cwd, sys₁) = root (inituvm pgdir sys) in
                some (record k₁ {
                  proc = update k₁.proc i (record (k₁.proc i) {
                    pgdir = pgdir;
                    sz = 4096;
                    tf = first_frame;
                    name = initcode_name;
                    cwd = cwd;
                    state = runnable;
                  });
                  initproc = some i;
                  sys = sys₁;
                }))
      ]

  -- `if(curproc->ofile[i]) np->ofile[i] = filedup(curproc->ofile[i])` for the `n` descriptors from
  -- `i` on.
  unfoldable pub dup_files : ℕ → ℕ → (ℕ → Option ℕ) → (ℕ → Option ℕ) → Sys → (ℕ → Option ℕ) × Sys
  dup_files zero i from to s = (to, s)
  dup_files (suc n) i from to s = elim (from i) [
    | none ↦ dup_files n (i + 1) from to s
    | some f ↦ dup_files n (i + 1) from (update to i (some f)) (filedup f s)
  ]

  -- fork by the process in slot `cur`: the pid, or `none` for -1.
  unfoldable pub fork : ℕ → Kernel → Option ℕ × Kernel
  fork cur k =
      let (slot, k₁) = allocproc k in
      elim slot [
        | none ↦ (none, k₁)
        | some i ↦
            let np : Proc = k₁.proc i in
            let me : Proc = k₁.proc cur in
            let (pgdir, sys) = copyuvm me.pgdir me.sz k₁.sys in
            if pgdir == 0
            then (
              none,
              record k₁ {
                proc = update k₁.proc i (record np { pgdir = 0; kstack = 0; state = unused });
                sys = kfree np.kstack sys;
              },
            )
            else (let (files, sys₁) = dup_files nofile 0 me.ofile np.ofile sys in
                (
                  some np.pid,
                  record k₁ {
                    proc = update k₁.proc i (record np {
                      pgdir = pgdir;
                      sz = me.sz;
                      parent = some cur;
                      tf = update me.tf 7 0;
                      ofile = files;
                      cwd = me.cwd;
                      name = take (name_size - 1) me.name;
                      state = runnable;
                    });
                    sys = elim me.cwd [ none ↦ sys₁ | some ip ↦ idup ip sys₁ ];
                  },
                ))
      ]

  -- exit's loop over the descriptors.
  unfoldable pub close_files : ℕ → ℕ → (ℕ → Option ℕ) → Sys → (ℕ → Option ℕ) × Sys
  close_files zero i files s = (files, s)
  close_files (suc n) i files s = elim (files i) [
    | none ↦ close_files n (i + 1) files s
    | some f ↦ close_files n (i + 1) (update files i none) (fileclose f s)
  ]

  -- exit of the process in slot `cur`, up to its sched; `none` is the panic "init exiting".
  unfoldable pub exit : ℕ → Kernel → Option Kernel
  exit cur k =
      if is_parent cur k.initproc
      then none
      else (let me : Proc = k.proc cur in
          let (files, sys) = close_files nofile 0 me.ofile k.sys in
          let t₁ : Table = update k.proc cur (record me { ofile = files; cwd = none }) in
          let t₂ : Table = wakeup1 (chan_of me.parent) t₁ in
          let t₃ : Table = reparent_from nproc 0 cur k.initproc t₂ in
          some (record k {
            proc = set_state cur zombie t₃;
            sys = elim me.cwd [ none ↦ sys | some ip ↦ iput ip sys ];
          }))

  -- wait by the process in slot `cur`, from its scan to its return or its sleep.
  unfoldable pub wait : ℕ → Kernel → Waited × Kernel
  wait cur k =
      let (child, havekids) = scan_children nproc 0 cur k.proc in
      elim child [
        | some i ↦ (
          reaped (k.proc i).pid,
          record k {
            proc = update k.proc i (reap (k.proc i));
            sys = freevm (k.proc i).pgdir (kfree (k.proc i).kstack k.sys);
          },
        )
        | none ↦
            if not havekids || (k.proc cur).killed
            then (fails, k)
            else (sleeps, record k { proc = sleep_enter cur (at_proc cur) k.proc })
      ]

  -- growproc by `n` bytes: whether it succeeds, and the kernel after. Sizes are uint.
  unfoldable pub growproc : ℕ → ℤ → Kernel → Bool × Kernel
  growproc cur (pos zero) k = (true, k)
  growproc cur (pos (suc n)) k =
      let me : Proc = k.proc cur in
      let (sz, sys) = allocuvm me.pgdir me.sz ((me.sz + suc n) % 2 ^ 32) k.sys in
      if sz == 0
      then (false, record k { sys = sys })
      else (true, record k { proc = update k.proc cur (record me { sz = sz }); sys = sys })
  growproc cur (negsuc n) k =
      let me : Proc = k.proc cur in
      let (sz, sys) = deallocuvm me.pgdir me.sz ((me.sz + 2 ^ 32 - suc n) % 2 ^ 32) k.sys in
      if sz == 0
      then (false, record k { sys = sys })
      else (true, record k { proc = update k.proc cur (record me { sz = sz }); sys = sys })
