-- ===== src/Proc/Contracts.antt =====
-- What fork, exit, wait and kill do, on every path.
use modificacion_sistema_ope.Base.{
  ℕ, zero, suc, ◌+◌, ◌<◌, ◌≡◌, ◌≢◌, ◌⊎◌, inl, inr, refl, arith, ◌∙◌, ap, subst, true, false, Option,
  none, some, update, update_ne, update_self, ap₂, take, ◌==◌, if◌then◌else◌, ℕ_discrete,
  Bool-cases, Option-cases, ltb, leb, ◌&&◌, [],
}
use modificacion_sistema_ope.Proc.Defs.{
  unused, runnable, running, zombie, sleeping, at_proc, nproc, nofile, Proc, Table, sleep_enter,
  reaped, fails, sleeps,
}
use modificacion_sistema_ope.Proc.Services.{Services}
use modificacion_sistema_ope.Proc.Ops.{Kernel, allocproc, fork, dup_files, wait}
use modificacion_sistema_ope.Proc.Family.{find_unused_lem}
use modificacion_sistema_ope.Proc.Wait.{scan_children-Scanned}
use modificacion_sistema_ope.Proc.Calls.{wait_cases}
use modificacion_sistema_ope.Proc.Kernel.{
  stack, stacked, allocproc_fails, allocproc_no_stack, allocproc_works, image, born, fork_no_image,
  fork_works, update-update,
}

module _ (sv : Services) where
  -- The descriptors of a child: the parent's, and the slot's own where the parent has none.
  abbrev pub inherited : Option ℕ → Option ℕ → Option ℕ
  inherited none mine = mine
  inherited (some f) mine = some f

  dup_files_lem :
      (n i : ℕ) (from to : ℕ → Option ℕ) (s : sv.Sys) (j : ℕ)
      → (dup_files sv n i from to s).0 j
        ≡ (if leb i j && ltb j (i + n) then inherited (from j) (to j) else to j)
  unfolding dup_files
  dup_files_lem zero i from to s j = ground arith
  dup_files_lem (suc n) i from to s j = elim (Option-cases (from i)) [
    | inl e ↦ elim (ℕ_discrete i j) [
      | yes q ↦ ground (arith, e, q, dup_files_lem n (i + 1) from to s j)
      | no q ↦ ground (arith, e, q, dup_files_lem n (i + 1) from to s j)
    ]
    | inr (f, e) ↦
        let rest = dup_files_lem n (i + 1) from (update to i (some f)) (sv.filedup f s) j in
        elim (ℕ_discrete i j) [
          | yes q ↦ ground (arith, e, q, rest)
          | no q ↦ ground (arith, e, q, rest)
        ]
  ]

  -- The process that fork makes from `me`, in a slot that held `old`.
  pub record Child (cur pid stack image : ℕ) (me old p : Proc) : Type 0 where
    pub kstack : p.kstack ≡ stack
    pub pgdir : p.pgdir ≡ image
    pub state : p.state ≡ runnable
    pub pid_same : p.pid ≡ pid
    pub parent : p.parent ≡ some cur
    pub sz : p.sz ≡ me.sz
    pub tf : p.tf ≡ update me.tf 7 0
    pub cwd : p.cwd ≡ me.cwd
    pub name : p.name ≡ take 15 me.name
    pub ofile : (j : ℕ) → j < nofile → p.ofile j ≡ inherited (me.ofile j) (old.ofile j)

  still_free :
      (t u : Table) (i : ℕ) (p : Proc)
      → u ≡ update t i p
      → (t i).state ≡ unused
      → p.state ≡ unused
      → (j : ℕ) → (u j ≡ t j) ⊎ (((t j).state ≡ unused) × ((u j).state ≡ unused))
  still_free t u i p e free s j = elim (ℕ_discrete j i) [
    | yes q ↦ inr (ground (arith, q), rw e (ground (arith, q)))
    | no q ↦ inl (rw e (update_ne t i p j q))
  ]

  -- What copyuvm gives to fork, after kalloc.
  abbrev pub copied : ℕ → Kernel sv → ℕ × sv.Sys
  copied cur k = sv.copyuvm (k.proc cur).pgdir (k.proc cur).sz (sv.kalloc k.sys).1

  -- fork by a running process fails where no slot is free, or kalloc gives no stack, or copyuvm
  -- gives no copy of the caller's memory, and then the stack is freed; a free slot stays free and
  -- no other slot changes. Or kalloc and copyuvm succeed, and it returns nextpid and makes a
  -- RUNNABLE child of the caller in one free slot, with that stack and that copy, the caller's size,
  -- directory, first 15 characters of the name, and registers but for eax 0, and each descriptor
  -- that the caller has; where the caller has none, the slot keeps its own.
  pub fork_lem :
      (cur : ℕ) (k : Kernel sv)
      → (k.proc cur).state ≡ running
      → (((fork sv cur k).0 ≡ none)
          × (((j : ℕ) → j < nproc → (k.proc j).state ≢ unused)
              ⊎ ((sv.kalloc k.sys).0 ≡ 0)
              ⊎ (((copied cur k).0 ≡ 0)
                  × ((fork sv cur k).1.sys ≡ sv.kfree (sv.kalloc k.sys).0 (copied cur k).1)))
          × ((j : ℕ)
              → ((fork sv cur k).1.proc j ≡ k.proc j)
                ⊎ (((k.proc j).state ≡ unused) × (((fork sv cur k).1.proc j).state ≡ unused))))
        ⊎ ((i : ℕ) × (p : Proc) × (i < nproc)
            × ((sv.kalloc k.sys).0 ≢ 0)
            × ((copied cur k).0 ≢ 0)
            × ((k.proc i).state ≡ unused)
            × ((fork sv cur k).0 ≡ some k.nextpid)
            × ((fork sv cur k).1.nextpid ≡ k.nextpid + 1)
            × ((fork sv cur k).1.proc ≡ update k.proc i p)
            × Child cur k.nextpid (sv.kalloc k.sys).0 (copied cur k).0 (k.proc cur) (k.proc i) p)
  fork_lem cur k runs = elim (find_unused_lem nproc 0 k.proc) [
    | inl (e, all) ↦
        let q : fork sv cur k ≡ (none, k) =
          unfold fork in ground (arith, allocproc_fails sv cur k e) in
        inl (
          ap (λ r. r.0) q,
          inl (λ j h. all j (omega arith) (omega arith)),
          λ j. inl (ap (λ r. r.1.proc j) q),
        )
    | inr (i, e, hi, free, _) ↦ elim (Bool-cases ((stack sv cur k).0 == 0)) [
      | inl z ↦
          let a = allocproc_no_stack sv cur k i e z in
          let q : fork sv cur k ≡ (none, (allocproc sv k).1) = unfold fork in ground (arith, a) in
          inl (
            ap (λ r. r.0) q,
            inr (inl (ground (arith, z))),
            still_free k.proc (fork sv cur k).1.proc i _
                (ap (λ r. r.1.proc) (q ∙ ap (λ r. (none, r.1)) a)) free refl,
          )
      | inr z ↦
          let a = allocproc_works sv cur k i e z in
          let k₁ : Kernel sv = record k {
            proc = update k.proc i (stacked sv cur k i);
            nextpid = k.nextpid + 1;
            sys = (stack sv cur k).1;
          } in
          let ne : cur ≢ i =
            λ q. ground (arith, subst (λ m. (k.proc m).state ≡ running) q runs, free) in
          let me : k₁.proc cur ≡ k.proc cur = update_ne k.proc i _ cur ne in
          let same : image sv cur k i k₁ a ≡ copied cur k =
            ap (λ (p : Proc). sv.copyuvm p.pgdir p.sz (sv.kalloc k.sys).1) me in
          let slot : k₁.proc i ≡ stacked sv cur k i = update_self k.proc i _ in
          elim (Bool-cases ((image sv cur k i k₁ a).0 == 0)) [
            | inl z' ↦
                let q = fork_no_image sv cur k i k₁ a z' in
                inl (
                  ap (λ r. r.0) q,
                  inr (
                      inr (
                        ground (arith, z', same),
                        ap (λ r. r.1.sys) q
                            ∙ ap₂ sv.kfree (ap (λ (p : Proc). p.kstack) slot) (ap (λ r. r.1) same),
                      )),
                  still_free k.proc (fork sv cur k).1.proc i _
                      (ap (λ r. r.1.proc) q ∙ update-update k.proc i _ _) free refl,
                )
            | inr z' ↦
                let w = fork_works sv cur k i k₁ a z' in
                inr (
                  i,
                  born sv cur k i k₁ a,
                  omega arith,
                  (λ y. ground (arith, z, y)),
                  (λ y. ground (arith, z', same, y)),
                  free,
                  w.0 ∙ ground arith,
                  w.2,
                  w.1 ∙ update-update k.proc i _ _,
                  record {
                    kstack = ap (λ (p : Proc). p.kstack) slot;
                    pgdir = ap (λ r. r.0) same;
                    state = refl;
                    pid_same = ground arith;
                    parent = refl;
                    sz = ap (λ (p : Proc). p.sz) me;
                    tf = ap (λ (p : Proc). update p.tf 7 0) me;
                    cwd = ap (λ (p : Proc). p.cwd) me;
                    name = ap (λ (p : Proc). take 15 p.name) me;
                    ofile = λ j h. ground (
                      arith,
                      me,
                      dup_files_lem nofile 0 (k₁.proc cur).ofile (k₁.proc i).ofile
                          (image sv cur k i k₁ a).1 j,
                    );
                  },
                )
          ]
    ]
  ]

  -- wait frees the stack and the memory of a zombie child, makes its slot free, with no pid,
  -- parent and name and not killed, and returns the pid it had; or it fails and changes nothing,
  -- where the caller has no child, or has been killed and has no zombie child; or it sleeps on
  -- itself, where it has a child, no zombie child, and has not been killed.
  pub wait_lem :
      (cur : ℕ) (k : Kernel sv)
      → ((i : ℕ) × (i < nproc)
          × ((k.proc i).parent ≡ some cur)
          × ((k.proc i).state ≡ zombie)
          × ((wait sv cur k).0 ≡ reaped (k.proc i).pid)
          × ((wait sv cur k).1.proc
              ≡ update k.proc i (record (k.proc i) {
                kstack = 0;
                pid = 0;
                parent = none;
                name = [];
                killed = false;
                state = unused;
              }))
          × ((wait sv cur k).1.sys ≡ sv.freevm (k.proc i).pgdir (sv.kfree (k.proc i).kstack k.sys)))
        ⊎ ((wait sv cur k ≡ (fails, k))
            × ((j : ℕ)
                → j < nproc
                → (k.proc j).parent ≡ some cur
                → ((k.proc j).state ≢ zombie) × ((k.proc cur).killed ≡ true)))
        ⊎ ((wait sv cur k ≡ (
          sleeps,
          record k {
            proc = update k.proc cur (record (k.proc cur) { chan = at_proc cur; state = sleeping });
          },
        ))
            × ((k.proc cur).killed ≡ false)
            × ((j : ℕ) × (j < nproc) × ((k.proc j).parent ≡ some cur))
            × ((j : ℕ) → j < nproc → (k.proc j).parent ≡ some cur → (k.proc j).state ≢ zombie))
  wait_lem cur k =
      let s = scan_children-Scanned nproc 0 cur k.proc in
      elim (wait_cases sv cur k) [
        | inl (i, e, r, p, _, _, y) ↦
            let h = s.hit i e in inl (i, omega (arith, h.0), h.1, h.2, r, p, y)
        | inr (inl (e, q, why)) ↦ inr (
            inl (
              q,
              λ j hj c. (
                s.miss e j (omega arith) (omega arith) c,
                elim why [
                  | inl childless ↦ absurd (s.kids childless j (omega arith) (omega arith) c)
                  | inr killed ↦ killed
                ],
              ),
            ))
        | inr (inr (e, q, some_child, lives)) ↦ inr (
            inr (
              q ∙ unfold sleep_enter in refl,
              lives,
              let (j, _, h, c) = s.has some_child in (j, omega arith, c),
              λ j hj. s.miss e j (omega arith) (omega arith),
            ))
      ]
