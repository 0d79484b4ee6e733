-- ===== src/Proc/Inv.antt =====
-- What the process table keeps true: the family relation, the pids, and that no process waits
-- for a child that has already exited.
use modificacion_sistema_ope.Base.{
  ℕ, ◌+◌, ◌<◌, ◌≡◌, ◌≢◌, refl, arith, ◌∙◌, sym, Bool, true, false, Option, none, some,
}
use modificacion_sistema_ope.Proc.Defs.{
  State, unused, embryo, sleeping, runnable, running, zombie, at_proc, nproc, Proc, Table,
}

-- Neither free nor exited.
abbrev pub alive : State → Bool
alive unused = false
alive zombie = false
alive embryo = true
alive sleeping = true
alive runnable = true
alive running = true

abbrev pub is_zombie : State → Bool
is_zombie zombie = true
is_zombie unused = false
is_zombie embryo = false
is_zombie sleeping = false
is_zombie runnable = false
is_zombie running = false

-- Process `i` sleeps in wait.
abbrev pub Waits : ℕ → Proc → Type 0
Waits i p = (p.state ≡ sleeping) × (p.chan ≡ at_proc i)

pub record IsTable (t : Table) (nextpid : ℕ) (init : Option ℕ) : Type 0 where
  -- A free slot has no parent, and init has none.
  pub bare : (j : ℕ) → j < nproc → (t j).state ≡ unused → (t j).parent ≡ none
  -- A parent is another slot's process, and it has not exited.
  pub living :
      (i j : ℕ)
      → j < nproc
      → (t j).parent ≡ some i
      → (i < nproc) × (i ≢ j) × (alive (t i).state ≡ true)
  -- Who sleeps in wait has no child that has exited.
  pub waiting :
      (i j : ℕ)
      → i < nproc
      → j < nproc
      → Waits i (t i)
      → (t j).parent ≡ some i
      → (t j).state ≢ zombie
  -- The pids in use are below nextpid and distinct.
  pub fresh : (j : ℕ) → j < nproc → (t j).state ≢ unused → (t j).pid < nextpid
  pub distinct :
      (i j : ℕ)
      → i < nproc
      → j < nproc
      → (t i).state ≢ unused
      → (t j).state ≢ unused
      → (t i).pid ≡ (t j).pid
      → i ≡ j
  -- init runs, and is nobody's child.
  pub first :
      (r : ℕ) → init ≡ some r → (r < nproc) × (alive (t r).state ≡ true) × ((t r).parent ≡ none)

-- Free, alive or exited.
abbrev pub kind : State → ℕ
kind unused = 0
kind embryo = 1
kind sleeping = 1
kind runnable = 1
kind running = 1
kind zombie = 2

-- A slot before and after an operation that leaves its family alone.
pub record Similar (p q : Proc) : Type 0 where
  pub parent : q.parent ≡ p.parent
  pub pid : q.state ≢ unused → q.pid ≡ p.pid
  pub kind_same : kind q.state ≡ kind p.state
  pub waits : (i : ℕ) → Waits i q → Waits i p

pub Similar-refl : (p : Proc) → Similar p p
Similar-refl p = record { parent = refl; pid = λ _. refl; kind_same = refl; waits = λ i w. w }

module _ {t u : Table} {nextpid : ℕ} {init : Option ℕ}
    (s : (j : ℕ) → j < nproc → Similar (t j) (u j)) (v : IsTable t nextpid init) where
  used : (j : ℕ) → j < nproc → (u j).state ≢ unused → (t j).state ≢ unused
  used j h ne = ground (arith, (s j h).kind_same, ne)

  still_alive : (j : ℕ) → j < nproc → alive (t j).state ≡ true → alive (u j).state ≡ true
  still_alive j h a = ground (arith, (s j h).kind_same)

  pub Similar-IsTable : IsTable u nextpid init
  Similar-IsTable = record {
    bare = λ j h e. (s j h).parent ∙ v.bare j h (ground (arith, (s j h).kind_same));
    living = λ i j h e.
        let l = v.living i j h (sym (s j h).parent ∙ e) in (l.0, l.1, still_alive i l.0 l.2);
    waiting = λ i j hi hj w e z.
        v.waiting i j hi hj ((s i hi).waits i w) (sym (s j hj).parent ∙ e)
          (ground (arith, (s j hj).kind_same));
    fresh = λ j h ne. rw ((s j h).pid ne) (v.fresh j h (used j h ne));
    distinct = λ i j hi hj ni nj e.
        v.distinct i j hi hj (used i hi ni) (used j hj nj)
          (sym ((s i hi).pid ni) ∙ e ∙ (s j hj).pid nj);
    first = λ r e. let f = v.first r e in (f.0, still_alive r f.0 f.1, (s r f.0).parent ∙ f.2);
  }

pub later-IsTable :
    {t : Table} {nextpid : ℕ} {init : Option ℕ}
    → IsTable t nextpid init
    → IsTable t (nextpid + 1) init
later-IsTable v = record {
  bare = v.bare;
  living = v.living;
  waiting = v.waiting;
  fresh = λ j h ne. omega (arith, v.fresh j h ne);
  distinct = v.distinct;
  first = v.first;
}
