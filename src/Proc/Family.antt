-- ===== src/Proc/Family.antt =====
-- Slots that are taken and given back: allocproc, fork and wait.
use modificacion_sistema_ope.Base.{
  ℕ, zero, suc, ◌+◌, ◌<◌, ◌≤◌, ◌≡◌, ◌≢◌, ◌⊎◌, inl, inr, refl, arith, ◌∙◌, sym, ap, subst, true,
  Option, none, some, update, update_ne, ℕ_discrete, Bool-cases,
}
use modificacion_sistema_ope.Proc.Defs.{
  unused, runnable, zombie, state_eq, nproc, Proc, Table, find_unused,
}
use modificacion_sistema_ope.Proc.Inv.{
  alive, Waits, IsTable, Similar, Similar-IsTable, later-IsTable,
}
use modificacion_sistema_ope.Proc.Steps.{update-Similar}

-- allocproc's search finds the first free slot, or there is none.
pub find_unused_lem :
    (k i : ℕ) (t : Table)
    → ((find_unused k i t ≡ none) × ((j : ℕ) → i ≤ j → j < i + k → (t j).state ≢ unused))
      ⊎ ((f : ℕ) × (find_unused k i t ≡ some f)
          × (f < i + k)
          × ((t f).state ≡ unused)
          × ((j : ℕ) → i ≤ j → j < f → (t j).state ≢ unused))
unfolding find_unused
find_unused_lem zero i t = inl (refl, λ j l h. absurd (omega arith))
find_unused_lem (suc k) i t = elim (Bool-cases (state_eq (t i).state unused)) [
  | inl free ↦ inr (i, rw free, omega arith, ground arith, λ j l h. absurd (omega arith))
  | inr busy ↦
      let here : (t i).state ≢ unused = ground arith in
      elim (find_unused_lem k (i + 1) t) [
        | inl (e, all) ↦ inl (
          rw busy e,
          λ j l h. elim (ℕ_discrete i j) [
            | yes q ↦ subst (λ m. (t m).state ≢ unused) q here
            | no q ↦ all j (omega arith) (omega arith)
          ],
        )
        | inr (f, e, h, free, all) ↦ inr (
          f,
          rw busy e,
          omega arith,
          free,
          λ j l h'. elim (ℕ_discrete i j) [
            | yes q ↦ subst (λ m. (t m).state ≢ unused) q here
            | no q ↦ all j (omega arith) h'
          ],
        )
      ]
]

module _ {t : Table} {nextpid : ℕ} {init : Option ℕ} (v : IsTable t nextpid init) where
  -- A slot that stays free.
  pub free-IsTable :
      (i : ℕ) (p : Proc)
      → (t i).state ≡ unused
      → p.state ≡ unused
      → p.parent ≡ (t i).parent
      → IsTable (update t i p) (nextpid + 1) init
  free-IsTable i p free e same = later-IsTable (Similar-IsTable (λ j h. update-Similar t i p s j) v)
    where
      s : Similar (t i) p
      s = record {
        parent = same;
        pid = λ ne. absurd (ne e);
        kind_same = ground arith;
        waits = λ i w. absurd (ground (arith, w.0));
      }

  -- A free slot becomes a child of `cur`.
  module _ (cur i : ℕ) (p : Proc) (here : cur < nproc) (lives : alive (t cur).state ≡ true)
      (hi : i < nproc) (free : (t i).state ≡ unused) (parent : p.parent ≡ some cur)
      (ready : p.state ≡ runnable) (pid : p.pid ≡ nextpid) where
    abbrev grown : Table
    grown = update t i p

    not_cur : cur ≢ i
    not_cur e = ground (arith, subst (λ m. alive (t m).state ≡ true) e lives)

    grown-alive : (j : ℕ) → alive (t j).state ≡ true → alive (grown j).state ≡ true
    grown-alive j a = elim (ℕ_discrete j i) [
      | yes e ↦ absurd (ground (arith, subst (λ m. alive (t m).state ≡ true) e a))
      | no ne ↦ rw (update_ne t i p j ne) a
    ]

    -- Nobody is a child of a free slot.
    childless : (j : ℕ) → j < nproc → (t j).parent ≢ some i
    childless j h e = ground (arith, (v.living i j h e).2, free)

    grown-living :
        (a j : ℕ)
        → j < nproc
        → (grown j).parent ≡ some a
        → (a < nproc) × (a ≢ j) × (alive (grown a).state ≡ true)
    grown-living a j h e = elim (ℕ_discrete j i) [
      | yes q ↦
          let is_cur : a ≡ cur = ground arith in
          rw is_cur (here, rw q not_cur, grown-alive cur lives)
      | no ne ↦
          let l = v.living a j h (ap (λ (p : Proc). p.parent) (sym (update_ne t i p j ne)) ∙ e) in
          (l.0, l.1, grown-alive a l.2)
    ]

    grown-waiting :
        (a j : ℕ)
        → a < nproc
        → j < nproc
        → Waits a (grown a)
        → (grown j).parent ≡ some a
        → (grown j).state ≢ zombie
    grown-waiting a j ha hj w e z =
        let nj : j ≢ i = λ q. ground (arith, z, ready, q) in
        let na : a ≢ i = λ q. ground (arith, w.0, ready, q) in
        v.waiting a j ha hj (subst (λ q. Waits a q) (update_ne t i p a na) w)
          (ap (λ (p : Proc). p.parent) (sym (update_ne t i p j nj)) ∙ e)
          (ap (λ (p : Proc). p.state) (sym (update_ne t i p j nj)) ∙ z)

    old-used : (j : ℕ) → j ≢ i → (grown j).state ≢ unused → (t j).state ≢ unused
    old-used j ne u = subst (λ (q : Proc). q.state ≢ unused) (update_ne t i p j ne) u

    grown-fresh : (j : ℕ) → j < nproc → (grown j).state ≢ unused → (grown j).pid < nextpid + 1
    grown-fresh j h u = elim (ℕ_discrete j i) [
      | yes q ↦ ground (arith, pid)
      | no ne ↦ ground (arith, v.fresh j h (old-used j ne u))
    ]

    grown-distinct :
        (a j : ℕ)
        → a < nproc
        → j < nproc
        → (grown a).state ≢ unused
        → (grown j).state ≢ unused
        → (grown a).pid ≡ (grown j).pid
        → a ≡ j
    grown-distinct a j ha hj ua uj e = elim (ℕ_discrete a i) [
      | yes qa ↦ elim (ℕ_discrete j i) [
        | yes qj ↦ qa ∙ sym qj
        | no nj ↦ absurd (ground (arith, pid, v.fresh j hj (old-used j nj uj)))
      ]
      | no na ↦ elim (ℕ_discrete j i) [
        | yes qj ↦ absurd (ground (arith, pid, v.fresh a ha (old-used a na ua)))
        | no nj ↦ v.distinct a j ha hj (old-used a na ua) (old-used j nj uj) (ground arith)
      ]
    ]

    pub grown-IsTable : IsTable grown (nextpid + 1) init
    grown-IsTable = record {
      bare = λ j h e.
          let ne : j ≢ i = λ q. ground (arith, e, ready, q) in
          ground (arith, v.bare j h (ground arith));
      living = grown-living;
      waiting = grown-waiting;
      fresh = grown-fresh;
      distinct = grown-distinct;
      first = λ r e.
          let f = v.first r e in
          let ne : r ≢ i = λ q. ground (arith, subst (λ m. alive (t m).state ≡ true) q f.1) in
          (f.0, grown-alive r f.1, ground (arith, f.2));
    }
