-- ===== src/Proc/Calls.antt =====
-- userinit, exit, wait and growproc keep the invariant of the table.
use modificacion_sistema_ope.Base.{
  ℕ, zero, suc, ◌+◌, ◌-◌, ◌%◌, ◌^◌, ◌<◌, ◌≡◌, ◌⊎◌, inl, inr, refl, arith, ◌∙◌, sym, ap, subst, true,
  false, none, some, update, update_self, ◌==◌, Bool-cases, Option-cases, ℤ, pos, negsuc, [],
}
use modificacion_sistema_ope.Proc.Defs.{
  unused, runnable, running, nil, at_proc, nproc, nofile, Proc, is_parent, find_unused, sleep_enter,
  scan_children, reap, reaped, fails, sleeps,
}
use modificacion_sistema_ope.Proc.Services.{Services}
use modificacion_sistema_ope.Proc.Ops.{
  Kernel, first_frame, initcode_name, userinit, close_files, exit, wait, growproc,
}
use modificacion_sistema_ope.Proc.Inv.{kind, IsTable, Similar, Similar-IsTable}
use modificacion_sistema_ope.Proc.Steps.{update-Similar}
use modificacion_sistema_ope.Proc.Exit.{left, left-IsTable}
use modificacion_sistema_ope.Proc.Wait.{scan_children-Scanned, buried-IsTable, sleeps-IsTable}
use modificacion_sistema_ope.Proc.Family.{find_unused_lem}
use modificacion_sistema_ope.Proc.Kernel.{stacked, allocproc_no_stack, allocproc_works}

module _ (sv : Services) where
  -- The invariant of the table and of the variables beside it.
  abbrev pub Good : Kernel sv → Type 0
  Good k = IsTable k.proc k.nextpid k.initproc

  pub exit-left :
      (cur : ℕ) (k k' : Kernel sv)
      → exit sv cur k ≡ some k'
      → (is_parent cur k.initproc ≡ false)
        × (k'.proc
            ≡ left cur k.initproc (
                update k.proc cur (record (k.proc cur) {
                  ofile = (close_files sv nofile 0 (k.proc cur).ofile k.sys).0;
                  cwd = none;
                })))
        × (k'.nextpid ≡ k.nextpid)
        × (k'.initproc ≡ k.initproc)
  unfolding exit
  exit-left cur k k' e = ground (arith, e)

  changed-Similar :
      {p q : Proc}
      → q.parent ≡ p.parent
      → q.pid ≡ p.pid
      → q.state ≡ p.state
      → q.chan ≡ p.chan
      → Similar p q
  changed-Similar a b c d = record {
    parent = a;
    pid = λ _. b;
    kind_same = ap kind c;
    waits = λ i w. (sym c ∙ w.0, sym d ∙ w.1);
  }

  pub exit-Good :
      (cur : ℕ) (k k' : Kernel sv)
      → cur < nproc
      → (k.proc cur).state ≡ running
      → exit sv cur k ≡ some k'
      → Good k
      → Good k'
  exit-Good cur k k' h runs e v =
      let me : Proc = record (k.proc cur) {
        ofile = (close_files sv nofile 0 (k.proc cur).ofile k.sys).0;
        cwd = none;
      } in
      let q = exit-left cur k k' e in
      rw (q.1, q.2, q.3)
        (left-IsTable cur k.initproc (update k.proc cur me)
          (Similar-IsTable
            (λ j _. update-Similar k.proc cur me (changed-Similar refl refl refl refl) j) v)
          h (ap (λ (p : Proc). p.state) (update_self k.proc cur me) ∙ runs) q.0)

  -- A stretch of wait returns a pid, returns -1, or sleeps.
  pub wait_cases :
      (cur : ℕ) (k : Kernel sv)
      → ((i : ℕ) × ((scan_children nproc 0 cur k.proc).0 ≡ some i)
          × ((wait sv cur k).0 ≡ reaped (k.proc i).pid)
          × ((wait sv cur k).1.proc ≡ update k.proc i (reap (k.proc i)))
          × ((wait sv cur k).1.nextpid ≡ k.nextpid)
          × ((wait sv cur k).1.initproc ≡ k.initproc)
          × ((wait sv cur k).1.sys ≡ sv.freevm (k.proc i).pgdir (sv.kfree (k.proc i).kstack k.sys)))
        ⊎ (((scan_children nproc 0 cur k.proc).0 ≡ none)
            × (wait sv cur k ≡ (fails, k))
            × (((scan_children nproc 0 cur k.proc).1 ≡ false) ⊎ ((k.proc cur).killed ≡ true)))
        ⊎ (((scan_children nproc 0 cur k.proc).0 ≡ none)
            × (wait sv cur k ≡ (sleeps, record k { proc = sleep_enter cur (at_proc cur) k.proc }))
            × ((scan_children nproc 0 cur k.proc).1 ≡ true)
            × ((k.proc cur).killed ≡ false))
  unfolding wait
  wait_cases cur k = elim (Option-cases (scan_children nproc 0 cur k.proc).0) [
    | inr (i, e) ↦ inl (
      i,
      e,
      ground (arith, e),
      ground (arith, e),
      ground (arith, e),
      ground (arith, e),
      ground (arith, e),
    )
    | inl e ↦ elim (Bool-cases (scan_children nproc 0 cur k.proc).1) [
      | inr f ↦ inr (inl (e, ground (arith, e, f), inl f))
      | inl f ↦ elim (Bool-cases (k.proc cur).killed) [
        | inl d ↦ inr (inl (e, ground (arith, e, f, d), inr d))
        | inr d ↦ inr (inr (e, ground (arith, e, f, d), f, d))
      ]
    ]
  ]

  pub wait-Good :
      (cur : ℕ) (k : Kernel sv)
      → cur < nproc
      → (k.proc cur).state ≡ running
      → Good k
      → Good (wait sv cur k).1
  wait-Good cur k h runs v =
      let s = scan_children-Scanned nproc 0 cur k.proc in
      elim (wait_cases cur k) [
        | inl (i, e, _, p, n, f, _) ↦
            let hit = s.hit i e in rw (p, n, f) (buried-IsTable v i (omega (arith, hit.0)) hit.2)
        | inr (inl (_, e, _)) ↦ subst (λ r. Good r.1) (sym e) v
        | inr (inr (e, q, _, _)) ↦
            subst (λ r. Good r.1) (sym q)
              (sleeps-IsTable v cur runs (λ j hj. s.miss e j (omega arith) (omega arith)))
      ]

  -- The size alone changes.
  abbrev pub Resized : ℕ → Kernel sv → Kernel sv → Type 0
  Resized cur k k' =
      (k'.nextpid ≡ k.nextpid)
      × (k'.initproc ≡ k.initproc)
      × ((k'.proc ≡ k.proc)
          ⊎ ((sz : ℕ) × (k'.proc ≡ update k.proc cur (record (k.proc cur) { sz = sz }))))

  pub growproc-Resized : (cur : ℕ) (n : ℤ) (k : Kernel sv) → Resized cur k (growproc sv cur n k).1
  unfolding growproc
  growproc-Resized cur (pos zero) k = (refl, refl, inl refl)
  growproc-Resized cur (pos (suc n)) k =
      let r =
        sv.allocuvm (k.proc cur).pgdir (k.proc cur).sz (((k.proc cur).sz + suc n) % 2 ^ 32) k.sys in
      elim (Bool-cases (r.0 == 0)) [
        | inl z ↦ (ground (arith, z), ground (arith, z), inl (ground (arith, z)))
        | inr z ↦ (ground (arith, z), ground (arith, z), inr (r.0, ground (arith, z)))
      ]
  growproc-Resized cur (negsuc n) k =
      let r =
        sv.deallocuvm (k.proc cur).pgdir (k.proc cur).sz
          (((k.proc cur).sz + 2 ^ 32 - suc n) % 2 ^ 32) k.sys in
      elim (Bool-cases (r.0 == 0)) [
        | inl z ↦ (ground (arith, z), ground (arith, z), inl (ground (arith, z)))
        | inr z ↦ (ground (arith, z), ground (arith, z), inr (r.0, ground (arith, z)))
      ]

  pub growproc-Good : (cur : ℕ) (n : ℤ) (k : Kernel sv) → Good k → Good (growproc sv cur n k).1
  growproc-Good cur n k v =
      let q = growproc-Resized cur n k in
      elim q.2 [
        | inl e ↦ rw (e, q.0, q.1) v
        | inr (sz, e) ↦
            rw (e, q.0, q.1)
              (Similar-IsTable
                (λ j _.
                  update-Similar k.proc cur (record (k.proc cur) { sz = sz })
                    (changed-Similar refl refl refl refl) j)
                v)
      ]

  -- The table of zeros that the kernel starts with.
  abbrev pub blank : Proc
  blank = record {
    sz = 0;
    pgdir = 0;
    kstack = 0;
    state = unused;
    pid = 0;
    parent = none;
    tf = λ _. 0;
    chan = nil;
    killed = false;
    ofile = λ _. none;
    cwd = none;
    name = [];
  }

  abbrev pub boot : sv.Sys → Kernel sv
  boot s = record { proc = λ _. blank; nextpid = 1; initproc = none; sys = s }

  find_unused-boot : (s : sv.Sys) → find_unused nproc 0 (boot s).proc ≡ some 0
  find_unused-boot s = elim (find_unused_lem nproc 0 (boot s).proc) [
    | inl (_, all) ↦ absurd (all 0 (omega arith) (omega arith) refl)
    | inr (zero, e, _, _, _) ↦ e
    | inr (suc f, _, _, _, all) ↦ absurd (all 0 (omega arith) (omega arith) refl)
  ]

  -- userinit makes slot 0 the first process, and sets initproc.
  userinit-boot :
      (s : sv.Sys) (k : Kernel sv)
      → userinit sv (boot s) ≡ some k
      → ((p : Proc) × (k.proc ≡ update (update (λ _. blank) 0 (stacked sv 0 (boot s) 0)) 0 p)
          × (p.parent ≡ none)
          × (p.state ≡ runnable)
          × (p.pid ≡ 1))
        × (k.nextpid ≡ 2)
        × (k.initproc ≡ some 0)
  unfolding userinit
  userinit-boot s k e = elim (Bool-cases ((sv.kalloc s).0 == 0)) [
    | inl z ↦ absurd (ground (arith, allocproc_no_stack sv 0 (boot s) 0 (find_unused-boot s) z, e))
    | inr z ↦
        let a = allocproc_works sv 0 (boot s) 0 (find_unused-boot s) z in
        elim (Bool-cases ((sv.setupkvm (sv.kalloc s).1).0 == 0)) [
          | inl z' ↦ absurd (ground (arith, a, z', e))
          | inr z' ↦
              let p : Proc = record (stacked sv 0 (boot s) 0) {
                pgdir = (sv.setupkvm (sv.kalloc s).1).0;
                sz = 4096;
                tf = first_frame;
                name = initcode_name;
                cwd =
                    (sv.root (
                      sv.inituvm (sv.setupkvm (sv.kalloc s).1).0
                        (sv.setupkvm (sv.kalloc s).1).1)).0;
                state = runnable;
              } in
              (
                (p, ground (arith, a, z', e), refl, refl, refl),
                ground (arith, a, z', e),
                ground (arith, a, z', e),
              )
        ]
  ]

  -- The first process, once userinit has made it.
  pub userinit-Good : (s : sv.Sys) (k : Kernel sv) → userinit sv (boot s) ≡ some k → Good k
  userinit-Good s k e =
      let ((p, t, parent, ready, pid), n, i) = userinit-boot s k e in
      rw (t, n, i)
        (record {
          bare = λ j h q. ground arith;
          living = λ a j h q. absurd (ground arith);
          waiting = λ a j ha hj w q z. absurd (ground arith);
          fresh = λ j h u. ground arith;
          distinct = λ a j ha hj ua uj q. ground arith;
          first = λ r q. (ground arith, ground arith, ground arith);
        })
