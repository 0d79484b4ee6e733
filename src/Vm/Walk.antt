-- ===== src/Vm/Walk.antt =====
-- walkpgdir finds the entry of an address, or makes a table for it.
use modificacion_sistema_ope.Base.{
  ℕ, ◌+◌, ◌*◌, ◌%◌, ◌^◌, ◌<◌, ◌≡◌, ◌≢◌, ◌⊎◌, inl, inr, refl, arith, sym, ap, ◌∙◌, subst, true,
  false, List, [], ◌∷◌, update, update_self, update_ne, ℕ_discrete, Bool-cases,
}
use modificacion_sistema_ope.Kalloc.{Kmem, v2p, kalloc}
use modificacion_sistema_ope.Kalloc.FreeList.{IsPage, All, Chain, Holds, kalloc-empty}
use modificacion_sistema_ope.Vm.Defs.{pdx, ptx, pte_addr, p2v, is_present, zeroed, walkpgdir}
use modificacion_sistema_ope.Vm.Tables.{table_of, pte_of, IsOwn, Tables}

-- A page's entry in the directory leads back to it.
p2v-v2p : (p : ℕ) → p % 4096 ≡ 0 → p < 2 ^ 32 → p2v (pte_addr (v2p p + 7)) ≡ p
p2v-v2p p h l = omega (arith, h, l)

present_7 : (p : ℕ) → p % 4096 ≡ 0 → is_present (v2p p + 7) ≡ true
present_7 p h = let odd : (v2p p + 7) % 2 ≡ 1 = omega (arith, h) in ground (arith, odd)

kalloc_first :
    {kernel_end : ℕ} (k : Kmem) (p : ℕ) (ps : List ℕ)
    → Holds kernel_end k (p ∷ ps)
    → kalloc k ≡ (p, record k { freelist = k.word p })
unfolding kalloc
kalloc_first k p ps h = ground (arith, h.chain.0, h.valid.0.nonzero, ap k.word h.chain.0)

module _ (kernel_end pgdir : ℕ) where
  Chain-new :
      (word : ℕ → ℕ) (head t d v : ℕ) (ps : List ℕ)
      → All (IsPage kernel_end) ps
      → All (λ p. t ≢ p) ps
      → All (λ p. pgdir ≢ p) ps
      → t % 4096 ≡ 0
      → pgdir % 4096 ≡ 0
      → d < 1024
      → Chain word head ps
      → Chain (update (zeroed t word) (pgdir + 4 * d) v) head ps
  Chain-new word head t d v [] ok away dir h h' hd c = c
  Chain-new word head t d v (p ∷ ps) ok away dir h h' hd c =
      let other : p ≢ pgdir + 4 * d = λ e. dir.0 (omega (arith, e, h', hd, ok.0.aligned)) in
      let outside : zeroed t word p ≡ word p = ground (arith, away.0, h, ok.0.aligned) in
      let kept : update (zeroed t word) (pgdir + 4 * d) v p ≡ word p =
        update_ne (zeroed t word) (pgdir + 4 * d) v p other ∙ outside in
      (
        c.0,
        subst (λ q. Chain (update (zeroed t word) (pgdir + 4 * d) v) q ps) (sym kept)
            (Chain-new word (word p) t d v ps ok.1 away.1 dir.1 h h' hd c.1),
      )

  module _ (k : Kmem) (d p : ℕ) (ps : List ℕ) (s : Tables kernel_end pgdir k (p ∷ ps))
      (hd : d < 1024) (absent : is_present (k.word (pgdir + 4 * d)) ≡ false) where
    -- The memory once page `p` is the table of directory entry `d`.
    abbrev new_word : ℕ → ℕ
    new_word = update (zeroed p k.word) (pgdir + 4 * d) (v2p p + 7)

    aligned : p % 4096 ≡ 0
    aligned = s.holds.valid.0.aligned

    dir_word : (i : ℕ) → i < 1024 → i ≢ d → new_word (pgdir + 4 * i) ≡ k.word (pgdir + 4 * i)
    dir_word i h ne =
        let outside : zeroed p k.word (pgdir + 4 * i) ≡ k.word (pgdir + 4 * i) =
          ground (arith, s.dir_own.0, s.dir.aligned, aligned, h) in
        update_ne (zeroed p k.word) (pgdir + 4 * d) (v2p p + 7) (pgdir + 4 * i)
          (λ e. ne (omega (arith, e)))
        ∙ outside

    dir_new : new_word (pgdir + 4 * d) ≡ v2p p + 7
    dir_new = update_self (zeroed p k.word) (pgdir + 4 * d) (v2p p + 7)

    pub new_table : table_of new_word pgdir d ≡ p
    new_table = ap (λ (x : ℕ). p2v (pte_addr x)) dir_new ∙ p2v-v2p p aligned s.small.0

    pub new_present : is_present (new_word (pgdir + 4 * d)) ≡ true
    new_present = ap is_present dir_new ∙ present_7 p aligned

    was :
        (i : ℕ)
        → i < 1024
        → i ≢ d
        → is_present (new_word (pgdir + 4 * i)) ≡ true
        → is_present (k.word (pgdir + 4 * i)) ≡ true
    was i h ne q = ap is_present (sym (dir_word i h ne)) ∙ q

    old_table : (i : ℕ) → i < 1024 → i ≢ d → table_of new_word pgdir i ≡ table_of k.word pgdir i
    old_table i h ne = ap (λ (x : ℕ). p2v (pte_addr x)) (dir_word i h ne)

    not_new :
        (i : ℕ)
        → i < 1024
        → i ≢ d
        → is_present (new_word (pgdir + 4 * i)) ≡ true
        → table_of new_word pgdir i ≢ p
    not_new i h ne q e = (s.own i h (was i h ne q)).not_free.0 (sym (old_table i h ne) ∙ e)

    pub new-Tables : Tables kernel_end pgdir (record k { word = new_word; freelist = k.word p }) ps
    new-Tables = record {
      holds = record {
        chain =
            Chain-new k.word (k.word p) p d (v2p p + 7) ps s.holds.valid.1 s.holds.distinct.0
              s.dir_own.1 aligned s.dir.aligned hd s.holds.chain.1;
        valid = s.holds.valid.1;
        distinct = s.holds.distinct.1;
      };
      small = s.small.1;
      dir = s.dir;
      dir_own = s.dir_own.1;
      own = λ i h q. elim (ℕ_discrete i d) [
        | yes e ↦
            subst (λ x. IsOwn kernel_end pgdir ps x)
              (sym (ap (table_of new_word pgdir) e ∙ new_table))
              (record {
                page = s.holds.valid.0;
                small = s.small.0;
                not_dir = λ z. s.dir_own.0 (sym z);
                not_free = s.holds.distinct.0;
              })
        | no ne ↦
            let o = s.own i h (was i h ne q) in
            subst (λ x. IsOwn kernel_end pgdir ps x) (sym (old_table i h ne))
              (record {
                page = o.page;
                small = o.small;
                not_dir = o.not_dir;
                not_free = o.not_free.1;
              })
      ];
      apart = λ i j hi hj a b e. elim (ℕ_discrete i d) [
        | yes x ↦ elim (ℕ_discrete j d) [
          | yes y ↦ x ∙ sym y
          | no y ↦ absurd (not_new j hj y b (sym e ∙ ap (table_of new_word pgdir) x ∙ new_table))
        ]
        | no x ↦ elim (ℕ_discrete j d) [
          | yes y ↦ absurd (not_new i hi x a (e ∙ ap (table_of new_word pgdir) y ∙ new_table))
          | no y ↦
              s.apart i j hi hj (was i hi x a) (was j hj y b)
                (sym (old_table i hi x) ∙ e ∙ old_table j hj y)
        ]
      ];
    }

    pub new-pte_of : (va : ℕ) → pte_of new_word pgdir va ≡ pte_of k.word pgdir va
    unfolding pte_of
    new-pte_of va = elim (ℕ_discrete (pdx va) d) [
      | yes e ↦
          let gone : is_present (k.word (pgdir + 4 * pdx va)) ≡ false =
            ap (λ i. is_present (k.word (pgdir + 4 * i))) e ∙ absent in
          let ne : p + 4 * ptx va ≢ pgdir + 4 * d =
            λ q. s.dir_own.0 (omega (arith, q, aligned, s.dir.aligned, hd)) in
          let inside : zeroed p k.word (p + 4 * ptx va) ≡ 0 = ground arith in
          let blank : new_word (table_of new_word pgdir (pdx va) + 4 * ptx va) ≡ 0 =
            ap (λ x. new_word (x + 4 * ptx va)) (ap (table_of new_word pgdir) e ∙ new_table)
            ∙ update_ne (zeroed p k.word) (pgdir + 4 * d) (v2p p + 7) (p + 4 * ptx va) ne
            ∙ inside in
          ground (arith, gone, blank)
      | no ne ↦
          let i : ℕ = pdx va in
          let same : is_present (new_word (pgdir + 4 * i)) ≡ is_present (k.word (pgdir + 4 * i)) =
            ap is_present (dir_word i (omega arith) ne) in
          elim (Bool-cases (is_present (k.word (pgdir + 4 * i)))) [
            | inr absent_too ↦ ground (arith, same, absent_too)
            | inl there ↦
                let t : ℕ = table_of k.word pgdir i in
                let o : IsOwn kernel_end pgdir (p ∷ ps) t = s.own i (omega arith) there in
                let not_dir : t + 4 * ptx va ≢ pgdir + 4 * d =
                  λ q. o.not_dir (omega (arith, q, o.page.aligned, s.dir.aligned, hd)) in
                let outside : zeroed p k.word (t + 4 * ptx va) ≡ k.word (t + 4 * ptx va) =
                  ground (arith, o.not_free.0, o.page.aligned, aligned) in
                let kept : new_word (table_of new_word pgdir i + 4 * ptx va)
                    ≡ k.word (t + 4 * ptx va) =
                  ap (λ x. new_word (x + 4 * ptx va)) (old_table i (omega arith) ne)
                  ∙ update_ne (zeroed p k.word) (pgdir + 4 * d) (v2p p + 7) (t + 4 * ptx va) not_dir
                  ∙ outside in
                ground (arith, same, there, kept)
          ]
    ]

  -- walkpgdir with alloc: the address of the entry in its table, and the same translations; or 0
  -- where a table is missing and no page is free.
  abbrev pub Walks : ℕ → Kmem → List ℕ → ℕ × Kmem → Type 0
  Walks va k free r =
      ((k' : Kmem) × (free' : List ℕ) × (r ≡ (table_of k'.word pgdir (pdx va) + 4 * ptx va, k'))
        × (is_present (k'.word (pgdir + 4 * pdx va)) ≡ true)
        × Tables kernel_end pgdir k' free'
        × ((va' : ℕ) → pte_of k'.word pgdir va' ≡ pte_of k.word pgdir va'))
      ⊎ ((r ≡ (0, k)) × (free ≡ []))

  new_or_none :
      (va : ℕ) (k : Kmem) (free : List ℕ)
      → Tables kernel_end pgdir k free
      → is_present (k.word (pgdir + 4 * pdx va)) ≡ false
      → Walks va k free (walkpgdir pgdir va true k)
  unfolding walkpgdir
  new_or_none va k [] s absent =
      inr (ground (arith, absent, kalloc-empty kernel_end k s.holds), refl)
  new_or_none va k (p ∷ ps) s absent =
      let d : ℕ = pdx va in
      let k' : Kmem = record k {
        word = new_word k d p ps s (omega arith) absent;
        freelist = k.word p;
      } in
      let popped : kalloc k ≡ (p, record k { freelist = k.word p }) = kalloc_first k p ps s.holds in
      let there : table_of k'.word pgdir d ≡ p = new_table k d p ps s (omega arith) absent in
      inl (
        k',
        ps,
        ground (arith, absent, popped, s.holds.valid.0.nonzero, there),
        new_present k d p ps s (omega arith) absent,
        new-Tables k d p ps s (omega arith) absent,
        new-pte_of k d p ps s (omega arith) absent,
      )

  pub walkpgdir-Walks :
      (va : ℕ) (k : Kmem) (free : List ℕ)
      → Tables kernel_end pgdir k free
      → Walks va k free (walkpgdir pgdir va true k)
  unfolding walkpgdir
  walkpgdir-Walks va k free s = elim (Bool-cases (is_present (k.word (pgdir + 4 * pdx va)))) [
    | inl there ↦ inl (k, free, ground (arith, there), there, s, λ va'. refl)
    | inr absent ↦ new_or_none va k free s absent
  ]
