-- ===== src/Proc/Kernel.antt =====
-- What allocproc, userinit, fork, wait, exit and growproc do to the table.
use modificacion_sistema_ope.Base.{
  ℕ, ◌+◌, ◌<◌, ◌≡◌, inl, inr, refl, arith, ◌∙◌, ap, true, false, Option, none, some, update, ◌==◌,
  Bool-cases, Option-cases, fun_ext, take,
}
use modificacion_sistema_ope.Proc.Defs.{
  unused, embryo, runnable, nproc, nofile, Proc, Table, find_unused,
}
use modificacion_sistema_ope.Proc.Services.{Services}
use modificacion_sistema_ope.Proc.Ops.{Kernel, allocproc, dup_files, fork}
use modificacion_sistema_ope.Proc.Inv.{alive, IsTable}
use modificacion_sistema_ope.Proc.Family.{find_unused_lem, free-IsTable, grown-IsTable}

-- How fork changes the table: not at all, in a slot that stays free, or by a new child of `cur`.
pub data Grows (cur : ℕ) (t : Table) (nextpid : ℕ) (u : Table) (next : ℕ) : Type 0 where
  full : u ≡ t → next ≡ nextpid → Grows cur t nextpid u next
  gives_up :
      (i : ℕ) (p : Proc)
      → u ≡ update t i p
      → next ≡ nextpid + 1
      → (t i).state ≡ unused
      → p.state ≡ unused
      → p.parent ≡ (t i).parent
      → Grows cur t nextpid u next
  child :
      (i : ℕ) (p : Proc)
      → u ≡ update t i p
      → next ≡ nextpid + 1
      → i < nproc
      → (t i).state ≡ unused
      → p.parent ≡ some cur
      → p.state ≡ runnable
      → p.pid ≡ nextpid
      → Grows cur t nextpid u next

pub update-update : (t : Table) (i : ℕ) (p q : Proc) → update (update t i p) i q ≡ update t i q
update-update t i p q = fun_ext (λ j. ground arith)

module _ (sv : Services) (cur : ℕ) (k : Kernel sv) where
  abbrev pub stack : ℕ × sv.Sys
  stack = sv.kalloc k.sys

  abbrev pub stacked : ℕ → Proc
  stacked i = record (k.proc i) { state = embryo; pid = k.nextpid; kstack = stack.0 }

  pub allocproc_fails : find_unused nproc 0 k.proc ≡ none → allocproc sv k ≡ (none, k)
  unfolding allocproc
  allocproc_fails e = rw (allocproc, e) refl

  pub allocproc_no_stack :
      (i : ℕ)
      → find_unused nproc 0 k.proc ≡ some i
      → (stack.0 == 0) ≡ true
      → allocproc sv k ≡ (
        none,
        record k {
          proc = update k.proc i (record (stacked i) { state = unused; kstack = 0 });
          nextpid = k.nextpid + 1;
          sys = stack.1;
        },
      )
  unfolding allocproc
  allocproc_no_stack i e z = ground (arith, e, z)

  pub allocproc_works :
      (i : ℕ)
      → find_unused nproc 0 k.proc ≡ some i
      → (stack.0 == 0) ≡ false
      → allocproc sv k ≡ (
        some i,
        record k { proc = update k.proc i (stacked i); nextpid = k.nextpid + 1; sys = stack.1 },
      )
  unfolding allocproc
  allocproc_works i e z = ground (arith, e, z)

  module _ (i : ℕ) (k₁ : Kernel sv) (e : allocproc sv k ≡ (some i, k₁)) where
    abbrev pub image : ℕ × sv.Sys
    image = sv.copyuvm (k₁.proc cur).pgdir (k₁.proc cur).sz k₁.sys

    pub fork_no_image :
        (image.0 == 0) ≡ true
        → fork sv cur k ≡ (
          none,
          record k₁ {
            proc = update k₁.proc i (record (k₁.proc i) { pgdir = 0; kstack = 0; state = unused });
            sys = sv.kfree (k₁.proc i).kstack image.1;
          },
        )
    unfolding fork
    fork_no_image z = ground (arith, e, z)

    -- The child that fork makes.
    abbrev pub born : Proc
    born = record (k₁.proc i) {
      pgdir = image.0;
      sz = (k₁.proc cur).sz;
      parent = some cur;
      tf = update (k₁.proc cur).tf 7 0;
      ofile = (dup_files sv nofile 0 (k₁.proc cur).ofile (k₁.proc i).ofile image.1).0;
      cwd = (k₁.proc cur).cwd;
      name = take 15 (k₁.proc cur).name;
      state = runnable;
    }

    pub fork_works :
        (image.0 == 0) ≡ false
        → ((fork sv cur k).0 ≡ some (k₁.proc i).pid)
          × ((fork sv cur k).1.proc ≡ update k₁.proc i born)
          × ((fork sv cur k).1.nextpid ≡ k₁.nextpid)
          × ((fork sv cur k).1.initproc ≡ k₁.initproc)
    unfolding fork
    fork_works z = ground (arith, e, z)

  pub fork-Grows : Grows cur k.proc k.nextpid (fork sv cur k).1.proc (fork sv cur k).1.nextpid
  fork-Grows = elim (find_unused_lem nproc 0 k.proc) [
    | inl (e, _) ↦
        let q : fork sv cur k ≡ (none, k) = unfold fork in ground (arith, allocproc_fails e) in
        full (ap (λ r. r.1.proc) q) (ap (λ r. r.1.nextpid) q)
    | inr (i, e, hi, free, _) ↦ elim (Bool-cases (stack.0 == 0)) [
      | inl z ↦
          let a = allocproc_no_stack i e z in
          let q : fork sv cur k ≡ (none, (allocproc sv k).1) = unfold fork in ground (arith, a) in
          gives_up i (record (stacked i) { state = unused; kstack = 0 })
            (ap (λ r. r.1.proc) (q ∙ ap (λ r. (none, r.1)) a))
            (ap (λ r. r.1.nextpid) (q ∙ ap (λ r. (none, r.1)) a)) free refl refl
      | inr z ↦
          let a = allocproc_works i e z in
          let k₁ : Kernel sv = record k {
            proc = update k.proc i (stacked i);
            nextpid = k.nextpid + 1;
            sys = stack.1;
          } in
          elim (Bool-cases ((image i k₁ a).0 == 0)) [
            | inl z' ↦
                let q = fork_no_image i k₁ a z' in
                gives_up i (record (k₁.proc i) { pgdir = 0; kstack = 0; state = unused })
                  (ap (λ r. r.1.proc) q ∙ update-update k.proc i (stacked i) _)
                  (ap (λ r. r.1.nextpid) q) free refl (ground arith)
            | inr z' ↦
                let q = fork_works i k₁ a z' in
                child i (born i k₁ a) (q.1 ∙ update-update k.proc i (stacked i) _) q.2 (omega arith)
                  free refl refl (ground arith)
          ]
    ]
  ]

  pub fork-initproc : (fork sv cur k).1.initproc ≡ k.initproc
  fork-initproc = elim (Option-cases (find_unused nproc 0 k.proc)) [
    | inl e ↦ unfold fork in ground (arith, allocproc_fails e)
    | inr (i, e) ↦ elim (Bool-cases (stack.0 == 0)) [
      | inl z ↦ unfold fork in ground (arith, allocproc_no_stack i e z)
      | inr z ↦
          let a = allocproc_works i e z in
          let k₁ : Kernel sv = record k {
            proc = update k.proc i (stacked i);
            nextpid = k.nextpid + 1;
            sys = stack.1;
          } in
          elim (Bool-cases ((image i k₁ a).0 == 0)) [
            | inl z' ↦ ap (λ r. r.1.initproc) (fork_no_image i k₁ a z')
            | inr z' ↦ (fork_works i k₁ a z').3
          ]
    ]
  ]

pub Grows-IsTable :
    {cur nextpid next : ℕ} {t u : Table} {init : Option ℕ}
    → Grows cur t nextpid u next
    → cur < nproc
    → alive (t cur).state ≡ true
    → IsTable t nextpid init
    → IsTable u next init
Grows-IsTable (full p q) h a v = rw (p, q) v
Grows-IsTable (gives_up i p q n free e same) h a v = rw (q, n) (free-IsTable v i p free e same)
Grows-IsTable {cur = cur} (child i p q n hi free parent ready pid) h a v =
    rw (q, n) (grown-IsTable v cur i p h a hi free parent ready pid)
