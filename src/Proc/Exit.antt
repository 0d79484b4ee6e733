-- ===== src/Proc/Exit.antt =====
-- exit: what it does to the table, and that it keeps the table's invariant.
use modificacion_sistema_ope.Base.{
  ℕ, zero, suc, ◌+◌, ◌<◌, ◌≤◌, ◌≡◌, ◌≢◌, inl, inr, arith, ◌∙◌, sym, ap, subst, Bool, true, false,
  Option, none, some, update_self, update_ne, if◌then◌else◌, ℕ_discrete, Bool-cases, ltb, ◌&&◌, leb,
}
use modificacion_sistema_ope.Proc.Defs.{
  unused, running, zombie, at_proc, nproc, Proc, Table, set_state, wakeup1, is_parent, chan_of,
  reparent_from,
}
use modificacion_sistema_ope.Proc.Inv.{alive, kind, Waits, IsTable}
use modificacion_sistema_ope.Proc.Loops.{wakeup1_lem, any_zombie, adopted, woken, reparent_from_lem}
use modificacion_sistema_ope.Proc.Steps.{wakeup1-Similar, wakeup1-pid}

pub is_parent-some : (cur : ℕ) (p : Option ℕ) → is_parent cur p ≡ true → p ≡ some cur
is_parent-some cur none e = cc
is_parent-some cur (some i) e = ground arith

any_zombie-of :
    (k i cur j : ℕ) (t : Table)
    → i ≤ j
    → j < i + k
    → (t j).parent ≡ some cur
    → (t j).state ≡ zombie
    → any_zombie k i cur t ≡ true
unfolding any_zombie
any_zombie-of zero i cur j t l h p z = absurd (omega arith)
any_zombie-of (suc k) i cur j t l h p z = elim (ℕ_discrete i j) [
  | yes e ↦ ground arith
  | no ne ↦ ground (arith, any_zombie-of k (i + 1) cur j t (omega arith) (omega arith) p z)
]

-- The table that exit leaves, from the one with the files closed: wakeup1(curproc->parent), the
-- loop over the children, and ZOMBIE.
abbrev pub left : ℕ → Option ℕ → Table → Table
left cur init t =
    set_state cur zombie (reparent_from nproc 0 cur init (wakeup1 (chan_of (t cur).parent) t))

module _ (cur : ℕ) (init : Option ℕ) (t : Table) where
  -- After the first wakeup.
  abbrev pub roused : Table
  roused = wakeup1 (chan_of (t cur).parent) t

  pub looped : Table
  looped = reparent_from nproc 0 cur init roused

  pub met_zombie : Bool
  met_zombie = any_zombie nproc 0 cur roused

  in_table : (j : ℕ) → j < nproc → (leb 0 j && ltb j (0 + nproc)) ≡ true
  in_table j h = ground arith

  -- A slot after the loop: adopted if it was a child, and woken by the first wakeup or the loop.
  pub looped_lem :
      (j : ℕ) → j < nproc → looped j ≡ woken met_zombie init (adopted cur init (roused j))
  unfolding looped met_zombie
  looped_lem j h =
      reparent_from_lem nproc 0 cur init roused j (omega arith) h
      ∙ ap
          (λ b.
            woken (any_zombie nproc 0 cur roused) init
              (if b then adopted cur init (roused j) else roused j))
          (in_table j h)

  roused-Waits : (i j : ℕ) → j < nproc → Waits i (roused j) → chan_of (t cur).parent ≢ at_proc i
  roused-Waits i j h w e = ground (arith, wakeup1_lem (chan_of (t cur).parent) t j, w)

  looped-parent :
      (j : ℕ)
      → j < nproc
      → (looped j).parent ≡ (if is_parent cur (t j).parent then init else (t j).parent)
  looped-parent j h =
      ground (arith, looped_lem j h, (wakeup1-Similar (chan_of (t cur).parent) t j).parent)

  looped-pid : (j : ℕ) → j < nproc → (looped j).pid ≡ (t j).pid
  looped-pid j h = ground (arith, looped_lem j h, wakeup1-pid (chan_of (t cur).parent) t j)

  looped-kind : (j : ℕ) → j < nproc → kind (looped j).state ≡ kind (t j).state
  looped-kind j h =
      ground (arith, looped_lem j h, (wakeup1-Similar (chan_of (t cur).parent) t j).kind_same)

  -- Who still sleeps on its own slot slept before, is not the parent, and is not init if the loop
  -- met a zombie.
  looped-Waits :
      (i j : ℕ)
      → j < nproc
      → Waits i (looped j)
      → Waits i (roused j) × (met_zombie ≡ true → chan_of init ≢ at_proc i)
  looped-Waits i j h w = ground (arith, looped_lem j h, w)

  zombie_met :
      (j : ℕ) → j < nproc → (t j).parent ≡ some cur → (t j).state ≡ zombie → met_zombie ≡ true
  unfolding met_zombie
  zombie_met j h p z =
      let s = wakeup1-Similar (chan_of (t cur).parent) t j in
      any_zombie-of nproc 0 cur j roused (omega arith) h (s.parent ∙ p)
        (ground (arith, s.kind_same))

  pub left-other : (j : ℕ) → j ≢ cur → left cur init t j ≡ looped j
  unfolding looped
  left-other j ne = update_ne looped cur (record (looped cur) { state = zombie }) j ne

  pub left_self : left cur init t cur ≡ record (looped cur) { state = zombie }
  unfolding looped
  left_self = update_self looped cur (record (looped cur) { state = zombie })

  pub left-parent :
      (j : ℕ)
      → j < nproc
      → (left cur init t j).parent ≡ (if is_parent cur (t j).parent then init else (t j).parent)
  left-parent j h = elim (ℕ_discrete j cur) [
    | yes e ↦
        rw e
          (ap (λ (p : Proc). p.parent) left_self ∙ looped-parent cur (subst (λ k. k < nproc) e h))
    | no ne ↦ ap (λ (p : Proc). p.parent) (left-other j ne) ∙ looped-parent j h
  ]

  pub left-pid : (j : ℕ) → j < nproc → (left cur init t j).pid ≡ (t j).pid
  left-pid j h = elim (ℕ_discrete j cur) [
    | yes e ↦
        rw e (ap (λ (p : Proc). p.pid) left_self ∙ looped-pid cur (subst (λ k. k < nproc) e h))
    | no ne ↦ ap (λ (p : Proc). p.pid) (left-other j ne) ∙ looped-pid j h
  ]

  pub left-kind : (j : ℕ) → j < nproc → j ≢ cur → kind (left cur init t j).state ≡ kind (t j).state
  left-kind j h ne = ap (λ (p : Proc). kind p.state) (left-other j ne) ∙ looped-kind j h

  pub left-zombie : (left cur init t cur).state ≡ zombie
  left-zombie = ap (λ (p : Proc). p.state) left_self

  module _ {nextpid : ℕ} (v : IsTable t nextpid init) (here : cur < nproc)
      (runs : (t cur).state ≡ running) (not_init : is_parent cur init ≡ false) where
    used : (j : ℕ) → j < nproc → (left cur init t j).state ≢ unused → (t j).state ≢ unused
    used j h ne = elim (ℕ_discrete j cur) [
      | yes e ↦ λ u. cc (subst (λ k. (t k).state ≡ unused) e u)
      | no ne' ↦ ground (arith, left-kind j h ne')
    ]

    still_alive :
        (j : ℕ)
        → j < nproc
        → j ≢ cur
        → alive (t j).state ≡ true
        → alive (left cur init t j).state ≡ true
    still_alive j h ne a = ground (arith, left-kind j h ne)

    left-living :
        (i j : ℕ)
        → j < nproc
        → (left cur init t j).parent ≡ some i
        → (i < nproc) × (i ≢ j) × (alive (left cur init t i).state ≡ true)
    left-living i j h e = elim (Bool-cases (is_parent cur (t j).parent)) [
      | inl child ↦
          let p : init ≡ some i = ground (arith, left-parent j h) in
          let f = v.first i p in
          let ne : i ≢ cur = ground arith in
          let other : i ≢ j = λ q. ground (arith, f.2, q) in (f.0, other, still_alive i f.0 ne f.1)
      | inr stranger ↦
          let p : (t j).parent ≡ some i = ground (arith, left-parent j h) in
          let l = v.living i j h p in (l.0, l.1, still_alive i l.0 (ground arith) l.2)
    ]

    left-waiting :
        (i j : ℕ)
        → i < nproc
        → j < nproc
        → Waits i (left cur init t i)
        → (left cur init t j).parent ≡ some i
        → (left cur init t j).state ≢ zombie
    left-waiting i j hi hj w e z =
        let ne : i ≢ cur = λ q.
          ground
            (arith, w.0, subst (λ k. (left cur init t k).state ≡ zombie) (sym q) left-zombie) in
        let w' : Waits i (looped i) = subst (λ p. Waits i p) (left-other i ne) w in
        let k = looped-Waits i i hi w' in
        let old : Waits i (t i) = (wakeup1-Similar (chan_of (t cur).parent) t i).waits i k.0 in
        elim (Bool-cases (is_parent cur (t j).parent)) [
          | inl child ↦
              let p : init ≡ some i = ground (arith, left-parent j hj) in
              let pj : (t j).parent ≡ some cur = is_parent-some cur (t j).parent child in
              let nj : j ≢ cur = λ q. (v.living cur j hj pj).1 (sym q) in
              let zj : (t j).state ≡ zombie = ground (arith, left-kind j hj nj) in
              k.1 (zombie_met j hj pj zj) (ap chan_of p)
          | inr stranger ↦
              let p : (t j).parent ≡ some i = ground (arith, left-parent j hj) in
              elim (ℕ_discrete j cur) [
                | yes q ↦
                    roused-Waits i i hi k.0 (ap chan_of (subst (λ m. (t m).parent ≡ some i) q p))
                | no q ↦ v.waiting i j hi hj old p (ground (arith, left-kind j hj q))
              ]
        ]

    -- The table that exit leaves keeps the invariant.
    pub left-IsTable : IsTable (left cur init t) nextpid init
    left-IsTable = record {
      bare = λ j h e.
          let ne : j ≢ cur =
            λ q. cc (sym e ∙ subst (λ m. (left cur init t m).state ≡ zombie) (sym q) left-zombie) in
          let old : (t j).parent ≡ none = v.bare j h (ground (arith, left-kind j h ne)) in
          ground (arith, left-parent j h, old);
      living = left-living;
      waiting = left-waiting;
      fresh = λ j h ne. rw (left-pid j h) (v.fresh j h (used j h ne));
      distinct = λ i j hi hj ni nj e.
          v.distinct i j hi hj (used i hi ni) (used j hj nj)
            (sym (left-pid i hi) ∙ e ∙ left-pid j hj);
      first = λ r e.
          let f = v.first r e in
          let ne : r ≢ cur = ground arith in
          (f.0, still_alive r f.0 ne f.1, ground (arith, left-parent r f.0, f.2));
    }
