-- ===== src/Vm/Tables.antt =====
-- The page tables of a page directory, and what a write of an entry changes.
use modificacion_sistema_ope.Base.{
  ℕ, ◌+◌, ◌*◌, ◌/◌, ◌%◌, ◌^◌, ◌<◌, ◌≡◌, ◌≢◌, arith, sym, ap, ap₂, ◌∙◌, subst, true, List, [], ◌∷◌,
  update, update_self, update_ne, ◌==◌, if◌then◌else◌, ℕ_discrete, inl, inr, Bool-cases,
}
use mathlib.Core.Bool.{false≢true}
use modificacion_sistema_ope.Kalloc.{Kmem}
use modificacion_sistema_ope.Kalloc.FreeList.{IsPage, All, Chain, Holds}
use modificacion_sistema_ope.Vm.Defs.{pdx, ptx, pte_addr, p2v, is_present}

-- The entry of page `i` of the address space in the table of directory entry `d`.
abbrev pub table_of : (ℕ → ℕ) → ℕ → ℕ → ℕ
table_of word pgdir i = p2v (pte_addr (word (pgdir + 4 * i)))

-- The entry that translates `va`, 0 if its table is missing.
unfoldable pub pte_of : (ℕ → ℕ) → ℕ → ℕ → ℕ
pte_of word pgdir va =
    if is_present (word (pgdir + 4 * pdx va))
    then word (table_of word pgdir (pdx va) + 4 * ptx va)
    else 0

module _ (kernel_end pgdir : ℕ) where
  -- A page that is neither the directory nor free.
  pub record IsOwn (free : List ℕ) (t : ℕ) : Type 0 where
    pub page : IsPage kernel_end t
    pub small : t < 2 ^ 32
    pub not_dir : t ≢ pgdir
    pub not_free : All (λ p. t ≢ p) free

  -- The directory and its tables are pages of their own, and no two entries share a table.
  pub record Tables (k : Kmem) (free : List ℕ) : Type 0 where
    pub holds : Holds kernel_end k free
    pub small : All (λ p. p < 2 ^ 32) free
    pub dir : IsPage kernel_end pgdir
    pub dir_own : All (λ p. pgdir ≢ p) free
    pub own :
        (i : ℕ)
        → i < 1024
        → is_present (k.word (pgdir + 4 * i)) ≡ true
        → IsOwn free (table_of k.word pgdir i)
    pub apart :
        (i j : ℕ)
        → i < 1024
        → j < 1024
        → is_present (k.word (pgdir + 4 * i)) ≡ true
        → is_present (k.word (pgdir + 4 * j)) ≡ true
        → table_of k.word pgdir i ≡ table_of k.word pgdir j
        → i ≡ j

  Chain-update :
      (word : ℕ → ℕ) (head t x v : ℕ) (ps : List ℕ)
      → All (IsPage kernel_end) ps
      → All (λ p. t ≢ p) ps
      → t % 4096 ≡ 0
      → x < 1024
      → Chain word head ps
      → Chain (update word (t + 4 * x) v) head ps
  Chain-update word head t x v [] ok away h hx c = c
  Chain-update word head t x v (p ∷ ps) ok away h hx c =
      let other : p ≢ t + 4 * x = λ e. away.0 (omega (arith, e, h, hx, ok.0.aligned)) in
      let kept : update word (t + 4 * x) v p ≡ word p = update_ne word (t + 4 * x) v p other in
      (
        c.0,
        subst (λ q. Chain (update word (t + 4 * x) v) q ps) (sym kept)
            (Chain-update word (word p) t x v ps ok.1 away.1 h hx c.1),
      )

  -- A word of the table of entry `d` written.
  pub write-Tables :
      (k : Kmem) (free : List ℕ) (d x v : ℕ)
      → Tables k free
      → d < 1024
      → x < 1024
      → is_present (k.word (pgdir + 4 * d)) ≡ true
      → Tables (record k { word = update k.word (table_of k.word pgdir d + 4 * x) v }) free
  write-Tables k free d x v s hd hx p =
      let t : ℕ = table_of k.word pgdir d in
      let o : IsOwn free t = s.own d hd p in
      let same : (i : ℕ)
          → i < 1024
          → update k.word (t + 4 * x) v (pgdir + 4 * i) ≡ k.word (pgdir + 4 * i) =
        λ i h.
          update_ne k.word (t + 4 * x) v (pgdir + 4 * i)
            (λ e. o.not_dir (omega (arith, e, o.page.aligned, s.dir.aligned, h, hx))) in
      let was : (i : ℕ)
          → i < 1024
          → is_present (update k.word (t + 4 * x) v (pgdir + 4 * i)) ≡ true
          → is_present (k.word (pgdir + 4 * i)) ≡ true =
        λ i h q. ap is_present (sym (same i h)) ∙ q in
      let at : (i : ℕ)
          → i < 1024
          → table_of k.word pgdir i ≡ table_of (update k.word (t + 4 * x) v) pgdir i =
        λ i h. ap (λ (w : ℕ). p2v (pte_addr w)) (sym (same i h)) in
      record {
        holds = record {
          chain =
              Chain-update k.word k.freelist t x v free s.holds.valid o.not_free o.page.aligned hx
                s.holds.chain;
          valid = s.holds.valid;
          distinct = s.holds.distinct;
        };
        small = s.small;
        dir = s.dir;
        dir_own = s.dir_own;
        own = λ i h q. subst (IsOwn free) (at i h) (s.own i h (was i h q));
        apart = λ i j hi hj a b e.
            s.apart i j hi hj (was i hi a) (was j hj b) (at i hi ∙ e ∙ sym (at j hj));
      }

  pub write-pte_of :
      (k : Kmem) (free : List ℕ) (va v va' : ℕ)
      → Tables k free
      → va < 2 ^ 32
      → va' < 2 ^ 32
      → is_present (k.word (pgdir + 4 * pdx va)) ≡ true
      → pte_of (update k.word (table_of k.word pgdir (pdx va) + 4 * ptx va) v) pgdir va'
        ≡ (if va' / 4096 == va / 4096 then v else pte_of k.word pgdir va')
  unfolding pte_of
  write-pte_of k free va v va' s h h' p =
      let d : ℕ = pdx va in
      let d' : ℕ = pdx va' in
      let t : ℕ = table_of k.word pgdir d in
      let o : IsOwn free t = s.own d (omega arith) p in
      let w : ℕ → ℕ = update k.word (t + 4 * ptx va) v in
      let same : w (pgdir + 4 * d') ≡ k.word (pgdir + 4 * d') =
        update_ne k.word (t + 4 * ptx va) v (pgdir + 4 * d')
          (λ e. o.not_dir (omega (arith, e, o.page.aligned, s.dir.aligned))) in
      elim (Bool-cases (is_present (k.word (pgdir + 4 * d')))) [
        | inr absent ↦
            let other : va' / 4096 ≢ va / 4096 = λ e.
              (let dd : d' ≡ d = omega (arith, e) in
                false≢true (sym absent ∙ ap (λ i. is_present (k.word (pgdir + 4 * i))) dd ∙ p)) in
            ground (arith, ap is_present same, absent, other)
        | inl there ↦
            let t' : ℕ = table_of k.word pgdir d' in
            let o' : IsOwn free t' = s.own d' (omega arith) there in
            let at : w (table_of w pgdir d' + 4 * ptx va') ≡ w (t' + 4 * ptx va') =
              ap (λ (x : ℕ). w (p2v (pte_addr x) + 4 * ptx va')) same in
            elim (ℕ_discrete (va' / 4096) (va / 4096)) [
              | yes e ↦
                  let dd : d' ≡ d = omega (arith, e) in
                  let xx : ptx va' ≡ ptx va = omega (arith, e) in
                  let here : w (t' + 4 * ptx va') ≡ v =
                    ap₂ (λ i x. w (table_of k.word pgdir i + 4 * x)) dd xx
                    ∙ update_self k.word (t + 4 * ptx va) v in
                  ground (arith, ap is_present same, there, at, here, e)
              | no ne ↦
                  let apart : t' + 4 * ptx va' ≢ t + 4 * ptx va = λ e. elim (ℕ_discrete d' d) [
                    | yes dd ↦
                        let tt' : t' ≡ t = ap (table_of k.word pgdir) dd in
                        absurd (omega (arith, e, tt', ne, dd, h, h'))
                    | no nd ↦
                        let tables : t' ≢ t =
                          λ q. nd (s.apart d' d (omega arith) (omega arith) there p q) in
                        tables (omega (arith, e, o.page.aligned, o'.page.aligned))
                  ] in
                  let kept : w (t' + 4 * ptx va') ≡ k.word (t' + 4 * ptx va') =
                    update_ne k.word (t + 4 * ptx va) v (t' + 4 * ptx va') apart in
                  ground (arith, ap is_present same, there, at, kept, ne)
            ]
      ]
