-- ===== src/Proc/Wait.antt =====
-- wait: its scan, the slot that it reaps, and its sleep.
use modificacion_sistema_ope.Base.{
  ℕ, zero, suc, ◌+◌, ◌<◌, ◌≤◌, ◌≡◌, ◌≢◌, inl, inr, arith, ◌∙◌, sym, ap, subst, Bool, true, false,
  Option, none, some, update, update_ne, ℕ_discrete, Bool-cases,
}
use modificacion_sistema_ope.Proc.Defs.{
  unused, running, zombie, state_eq, at_proc, nproc, Proc, Table, is_parent, sleep_enter,
  scan_children, reap,
}
use modificacion_sistema_ope.Proc.Inv.{alive, Waits, IsTable}
use modificacion_sistema_ope.Proc.Exit.{is_parent-some}

-- Somebody among the `n` slots from `i` on is a child.
abbrev pub HasChild : ℕ → ℕ → ℕ → Table → Type 0
HasChild n i cur t = (j : ℕ) × (i ≤ j) × (j < i + n) × ((t j).parent ≡ some cur)

-- What the scan of the `n` slots from `i` on finds.
pub record Scanned (n i cur : ℕ) (t : Table) (out : Option ℕ × Bool) : Type 0 where
  pub hit :
      (f : ℕ) → out.0 ≡ some f → (f < i + n) × ((t f).parent ≡ some cur) × ((t f).state ≡ zombie)
  pub miss :
      out.0 ≡ none → (j : ℕ) → i ≤ j → j < i + n → (t j).parent ≡ some cur → (t j).state ≢ zombie
  pub kids : out.1 ≡ false → (j : ℕ) → i ≤ j → j < i + n → (t j).parent ≢ some cur
  pub has : out.1 ≡ true → HasChild n i cur t

child-is_parent : (cur : ℕ) (p : Option ℕ) → p ≡ some cur → is_parent cur p ≡ true
child-is_parent cur p e = ground arith

pub scan_children-Scanned : (n i cur : ℕ) (t : Table) → Scanned n i cur t (scan_children n i cur t)
unfolding scan_children
scan_children-Scanned zero i cur t = record {
  hit = λ f e. cc;
  miss = λ e j l h. absurd (omega arith);
  kids = λ e j l h. absurd (omega arith);
  has = λ e. cc;
}
scan_children-Scanned (suc n) i cur t =
    let s = scan_children-Scanned n (i + 1) cur t in
    elim (Bool-cases (is_parent cur (t i).parent)) [
      | inl child ↦
          let p = is_parent-some cur (t i).parent child in
          elim (Bool-cases (state_eq (t i).state zombie)) [
            | inl dead ↦
                rw (child, dead)
                  (record {
                    hit = λ f e.
                        subst
                          (λ m.
                            (m < i + suc n) × ((t m).parent ≡ some cur) × ((t m).state ≡ zombie))
                          (let q : i ≡ f = ground arith in q) (omega arith, p, ground arith);
                    miss = λ e. cc;
                    kids = λ e. cc;
                    has = λ e. (i, omega arith, omega arith, p);
                  })
            | inr lives ↦
                rw (child, lives)
                  (record {
                    hit = λ f e. let k = s.hit f e in (omega arith, k.1, k.2);
                    miss = λ e j l h pj. elim (ℕ_discrete i j) [
                      | yes q ↦ λ z. ground (arith, subst (λ m. (t m).state ≡ zombie) (sym q) z)
                      | no q ↦ s.miss e j (omega arith) (omega arith) pj
                    ];
                    kids = λ e. cc;
                    has = λ e. (i, omega arith, omega arith, p);
                  })
          ]
      | inr stranger ↦ rw stranger (record {
        hit = λ f e. let k = s.hit f e in (omega arith, k.1, k.2);
        miss = λ e j l h pj. elim (ℕ_discrete i j) [
          | yes q ↦ absurd (ground (arith, subst (λ m. (t m).parent ≡ some cur) (sym q) pj))
          | no q ↦ s.miss e j (omega arith) (omega arith) pj
        ];
        kids = λ e j l h. elim (ℕ_discrete i j) [
          | yes q ↦ λ pj. ground (arith, subst (λ m. (t m).parent ≡ some cur) (sym q) pj)
          | no q ↦ s.kids e j (omega arith) (omega arith)
        ];
        has = λ e. let (j, l, h, c) = s.has e in (j, omega arith, omega arith, c);
      })
    ]

module _ {t : Table} {nextpid : ℕ} {init : Option ℕ} (v : IsTable t nextpid init) where
  module _ (i : ℕ) (hi : i < nproc) (dead : (t i).state ≡ zombie) where
    abbrev buried : Table
    buried = update t i (reap (t i))

    buried-used : (j : ℕ) → (buried j).state ≢ unused → j ≢ i
    buried-used j u q = ground (arith, q)

    buried-other : (j : ℕ) → j ≢ i → buried j ≡ t j
    buried-other j ne = update_ne t i (reap (t i)) j ne

    buried-parent : (j a : ℕ) → (buried j).parent ≡ some a → (j ≢ i) × ((t j).parent ≡ some a)
    buried-parent j a e = ground arith

    alive-other : (j : ℕ) → alive (t j).state ≡ true → (j ≢ i) × (alive (buried j).state ≡ true)
    alive-other j a =
        let ne : j ≢ i = λ q. ground (arith, subst (λ m. alive (t m).state ≡ true) q a) in
        (ne, ground arith)

    -- The slot of an exited child is free again.
    pub buried-IsTable : IsTable buried nextpid init
    buried-IsTable = record {
      bare = λ j h e. ground (arith, v.bare j h);
      living = λ a j h e.
          let l = v.living a j h (buried-parent j a e).1 in (l.0, l.1, (alive-other a l.2).1);
      waiting = λ a j ha hj w e z.
          let na : a ≢ i = λ q. ground (arith, w.0, q) in
          let k = buried-parent j a e in
          v.waiting a j ha hj (subst (λ p. Waits a p) (buried-other a na) w) k.1
            (ap (λ (p : Proc). p.state) (sym (buried-other j k.0)) ∙ z);
      fresh = λ j h u. ground (arith, buried-used j u, v.fresh j h);
      distinct = λ a j ha hj ua uj e.
          ground (arith, buried-used a ua, buried-used j uj, v.distinct a j ha hj);
      first = λ r e.
          let f = v.first r e in let o = alive-other r f.1 in (f.0, o.1, ground (arith, o.0, f.2));
    }

  module _ (cur : ℕ) (runs : (t cur).state ≡ running)
      (none_dead : (j : ℕ) → j < nproc → (t j).parent ≡ some cur → (t j).state ≢ zombie) where
    -- A process that goes to sleep in wait with no exited child.
    pub sleeps-IsTable : IsTable (sleep_enter cur (at_proc cur) t) nextpid init
    unfolding sleep_enter
    sleeps-IsTable = record {
      bare = λ j h e. ground (arith, v.bare j h);
      living = λ a j h e. let l = v.living a j h (ground arith) in (l.0, l.1, ground (arith, l.2));
      waiting = λ a j ha hj w e z. elim (ℕ_discrete a cur) [
        | yes q ↦ ground (arith, none_dead j hj, q)
        | no q ↦
            v.waiting a j ha hj (subst (λ p. Waits a p) (update_ne t cur _ a q) w) (ground arith)
              (ground arith)
      ];
      fresh = λ j h u. ground (arith, v.fresh j h);
      distinct = λ a j ha hj ua uj e. ground (arith, v.distinct a j ha hj);
      first = λ r e. let f = v.first r e in (f.0, ground (arith, f.1), ground (arith, f.2));
    }
