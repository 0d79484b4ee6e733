-- ===== src/Inode/Free.antt =====
-- bfree, and itrunc's loops as the freeing of a range of slots.
use modificacion_sistema_ope.Base.{
  ℕ, zero, suc, ◌+◌, ◌%◌, ◌<◌, ◌≤◌, ◌≡◌, ◌≢◌, refl, arith, sym, ap, ap₂, ◌∙◌, Bool, false, update,
  update_self, update_ne, ◌==◌, ltb, leb, ◌&&◌, subst, if◌then◌else◌, ℕ_discrete,
}
use modificacion_sistema_ope.Inode.Defs.{
  Superblock, Blocks, Inode, ran, bblock, bits_per_block, bit, clear_bit, get_word, bfree,
  itrunc_direct, itrunc_words,
}
use modificacion_sistema_ope.Inode.Bits.{bit-clear_bit}
use modificacion_sistema_ope.Inode.Alloc.{used, IsMap}

module _ (sb : Superblock) (start : ℕ) where
  -- Of the addresses `addr k`, those that are not 0 and have `k` in the range of `n` from `i` are
  -- free now; other blocks are as they were, and the blocks of files keep their bytes.
  pub record Freed (addr : ℕ → ℕ) (i n : ℕ) (s s' : Blocks) : Type 0 where
    pub is_map : IsMap sb start s'
    pub freed : (k : ℕ) → i ≤ k → k < i + n → addr k ≢ 0 → used sb s' (addr k) ≡ 0
    pub kept :
        (j : ℕ)
        → j < sb.size
        → ((k : ℕ) → i ≤ k → k < i + n → addr k ≢ 0 → addr k ≢ j)
        → used sb s' j ≡ used sb s j
    pub same : (x : ℕ) → start ≤ x → s' x ≡ s x

  -- The addresses from `i` on are used blocks of files, all different.
  pub record Frees (addr : ℕ → ℕ) (i n : ℕ) (s : Blocks) : Type 0 where
    pub is_map : IsMap sb start s
    pub inside : (k : ℕ) → i ≤ k → k < i + n → addr k ≢ 0 → (start ≤ addr k) × (addr k < sb.size)
    pub taken : (k : ℕ) → i ≤ k → k < i + n → addr k ≢ 0 → used sb s (addr k) ≢ 0
    pub apart :
        (j k : ℕ) → i ≤ j → j < i + n → i ≤ k → k < i + n → addr j ≢ 0 → addr j ≡ addr k → j ≡ k

  freed_block : ℕ → Blocks → Blocks
  freed_block b s = update s (bblock sb b) (clear_bit (s (bblock sb b)) (b % bits_per_block))

  used-freed :
      (s : Blocks) (b j : ℕ)
      → used sb s b ≢ 0
      → used sb (freed_block b s) j ≡ (if j == b then 0 else used sb s j)
  unfolding freed_block
  used-freed s b j u = elim (ℕ_discrete (bblock sb j) (bblock sb b)) [
    | yes q ↦
        let f : ℕ → ℕ = clear_bit (s (bblock sb b)) (b % bits_per_block) in
        let one : used sb s b ≡ 1 = omega (arith, u) in
        let here : freed_block b s (bblock sb j) ≡ f =
          ap (freed_block b s) q ∙ update_self s (bblock sb b) f in
        let same : (j % bits_per_block == b % bits_per_block) ≡ (j == b) = ground (arith, q) in
        let r : bit (s (bblock sb b)) (j % bits_per_block) ≡ used sb s j =
          ap (λ x. bit (s x) (j % bits_per_block)) (sym q) in
        ap (λ g. bit g (j % bits_per_block)) here
        ∙ bit-clear_bit (s (bblock sb b)) (b % bits_per_block) (j % bits_per_block) one
        ∙ ap₂ (λ (t : Bool) (x : ℕ). if t then 0 else x) same r
    | no ne ↦
        let other : (j == b) ≡ false = ground (arith, ne) in
        ap (λ g. bit g (j % bits_per_block))
          (update_ne s (bblock sb b) (clear_bit (s (bblock sb b)) (b % bits_per_block))
            (bblock sb j) ne)
        ∙ ap (λ (t : Bool). if t then 0 else used sb s j) (sym other)
  ]

  -- bfree of the first of the addresses, and what is left of them.
  pub bfree_first :
      (addr : ℕ → ℕ) (i n : ℕ) (s : Blocks)
      → Frees addr i (suc n) s
      → addr i ≢ 0
      → (s₁ : Blocks) × (bfree sb (addr i) s ≡ ran s₁)
        × Freed addr i 1 s s₁
        × Frees addr (i + 1) n s₁
  unfolding bfree freed_block
  bfree_first addr i n s v nz =
      let u : used sb s (addr i) ≢ 0 = v.taken i (omega arith) (omega arith) nz in
      let s₁ : Blocks = freed_block (addr i) s in
      let (lo, hi) = v.inside i (omega arith) (omega arith) nz in
      let same : (x : ℕ) → start ≤ x → s₁ x ≡ s x = λ x l.
        update_ne s (bblock sb (addr i))
          (clear_bit (s (bblock sb (addr i))) (addr i % bits_per_block)) x
          (λ e. absurd (omega (arith, v.is_map.below (addr i) hi))) in
      let other : (j : ℕ) → j ≢ addr i → used sb s₁ j ≡ used sb s j =
        λ j ne. used-freed s (addr i) j u ∙ ground (arith, ne) in
      let is_map : IsMap sb start s₁ = record {
        below = v.is_map.below;
        taken = λ b l z. v.is_map.taken b l (sym (other b (λ e. absurd (omega (arith, lo)))) ∙ z);
      } in
      (
        s₁,
        ground (arith, u),
        record {
          is_map = is_map;
          freed = λ k l h n₁.
              let e : k ≡ i = omega arith in
              ap (used sb s₁) (ap addr e) ∙ used-freed s (addr i) (addr i) u ∙ ground arith;
          kept = λ j l ne. other j (λ e. ne i (omega arith) (omega arith) nz (sym e));
          same = same;
        },
        record {
          is_map = is_map;
          inside = λ k l h n₁. v.inside k (omega arith) (omega arith) n₁;
          taken = λ k l h n₁ z. v.taken k (omega arith) (omega arith) n₁ (
              sym (
                other (addr k) (λ e. absurd (
                  omega (
                    arith,
                    v.apart k i (omega arith) (omega arith) (omega arith) (omega arith) n₁ e,
                  ))))
              ∙ z);
          apart = λ j k a b c d n₁ e.
              v.apart j k (omega arith) (omega arith) (omega arith) (omega arith) n₁ e;
        },
      )

  Freed-cons :
      (addr : ℕ → ℕ) (i n : ℕ) (s s₁ s₂ : Blocks)
      → Frees addr i (suc n) s
      → addr i ≢ 0
      → Freed addr i 1 s s₁
      → Freed addr (i + 1) n s₁ s₂
      → Freed addr i (suc n) s s₂
  Freed-cons addr i n s s₁ s₂ v nz g h = record {
    is_map = h.is_map;
    freed = λ k lo hi n₁. elim (ℕ_discrete k i) [
      | yes e ↦
          let apart_rest : (j : ℕ) → i + 1 ≤ j → j < i + 1 + n → addr j ≢ 0 → addr j ≢ addr i =
            λ j a b n₂ q. absurd (
              omega (
                arith,
                v.apart j i (omega arith) (omega arith) (omega arith) (omega arith) n₂ q,
              )) in
          ap (λ x. used sb s₂ (addr x)) e
          ∙ h.kept (addr i) (v.inside i (omega arith) (omega arith) nz).1 apart_rest
          ∙ g.freed i (omega arith) (omega arith) nz
      | no ne ↦ h.freed k (omega arith) (omega arith) n₁
    ];
    kept = λ j l out.
        h.kept j l (λ k a b. out k (omega arith) (omega arith))
        ∙ g.kept j l (λ k a b. out k (omega arith) (omega arith));
    same = λ x l. h.same x l ∙ g.same x l;
  }

  Freed-skip :
      (addr : ℕ → ℕ) (i n : ℕ) (s s' : Blocks)
      → addr i ≡ 0
      → Freed addr (i + 1) n s s'
      → Freed addr i (suc n) s s'
  Freed-skip addr i n s s' z h = record {
    is_map = h.is_map;
    freed = λ k lo hi n₁. elim (ℕ_discrete k i) [
      | yes e ↦ absurd (n₁ (ap addr e ∙ z))
      | no ne ↦ h.freed k (omega arith) (omega arith) n₁
    ];
    kept = λ j l out. h.kept j l (λ k a b. out k (omega arith) (omega arith));
    same = h.same;
  }

  Frees-skip :
      (addr : ℕ → ℕ) (i n : ℕ) (s : Blocks) → Frees addr i (suc n) s → Frees addr (i + 1) n s
  Frees-skip addr i n s v = record {
    is_map = v.is_map;
    inside = λ k l h. v.inside k (omega arith) (omega arith);
    taken = λ k l h. v.taken k (omega arith) (omega arith);
    apart = λ j k a b c d. v.apart j k (omega arith) (omega arith) (omega arith) (omega arith);
  }

  Freed-none : (addr : ℕ → ℕ) (i : ℕ) (s : Blocks) → IsMap sb start s → Freed addr i 0 s s
  Freed-none addr i s m = record {
    is_map = m;
    freed = λ k lo hi n. absurd (omega arith);
    kept = λ j l out. refl;
    same = λ x l. refl;
  }

  pub itrunc_direct_lem :
      (n i : ℕ) (addr : ℕ → ℕ) (ip : Inode) (s : Blocks)
      → ((k : ℕ) → i ≤ k → k < i + n → ip.addrs k ≡ addr k)
      → Frees addr i n s
      → (ip' : Inode) × (s' : Blocks) × (itrunc_direct sb n i ip s ≡ ran (ip', s'))
        × Freed addr i n s s'
        × ((k : ℕ) → ip'.addrs k ≡ (if leb i k && ltb k (i + n) then 0 else ip.addrs k))
  unfolding itrunc_direct
  itrunc_direct_lem zero i addr ip s same v =
      (ip, s, refl, Freed-none addr i s v.is_map, λ k. ground arith)
  itrunc_direct_lem (suc n) i addr ip s same v =
      let here : ip.addrs i ≡ addr i = same i (omega arith) (omega arith) in
      elim (ℕ_discrete (addr i) 0) [
        | yes z ↦
            let (ip', s', e, g, all) =
              itrunc_direct_lem n (i + 1) addr ip s (λ k a b. same k (omega arith) (omega arith))
                (Frees-skip addr i n s v) in
            (
              ip',
              s',
              ground (arith, e, z, here),
              Freed-skip addr i n s s' z g,
              λ k. all k ∙ elim (ℕ_discrete k i) [
                | yes q ↦ ground (arith, q, z, here, ap ip.addrs q)
                | no q ↦ ground (arith, q)
              ],
            )
        | no nz ↦
            let (s₁, e₁, g₁, v₁) = bfree_first addr i n s v nz in
            let ip₁ : Inode = record ip { addrs = update ip.addrs i 0 } in
            let (ip', s', e, g, all) =
              itrunc_direct_lem n (i + 1) addr ip₁ s₁
                (λ k a b.
                  update_ne ip.addrs i 0 k (omega arith) ∙ same k (omega arith) (omega arith))
                v₁ in
            let free_it : bfree sb (ip.addrs i) s ≡ ran s₁ = ap (λ x. bfree sb x s) here ∙ e₁ in
            let nz' : ip.addrs i ≢ 0 = λ q. nz (sym here ∙ q) in
            (
              ip',
              s',
              ground (arith, e, free_it, nz'),
              Freed-cons addr i n s s₁ s' v nz g₁ g,
              λ k. all k ∙ ground arith,
            )
      ]

  pub itrunc_words_lem :
      (n j : ℕ) (addr : ℕ → ℕ) (d : ℕ) (s : Blocks)
      → start ≤ d
      → ((k : ℕ) → get_word (s d) k ≡ addr (k + 13))
      → Frees addr (j + 13) n s
      → (s' : Blocks) × (itrunc_words sb n j d s ≡ ran s') × Freed addr (j + 13) n s s'
  unfolding itrunc_words
  itrunc_words_lem zero j addr d s l same v = (s, refl, Freed-none addr (j + 13) s v.is_map)
  itrunc_words_lem (suc n) j addr d s l same v =
      let here : get_word (s d) j ≡ addr (j + 13) = same j in
      let shift : j + 13 + 1 ≡ j + 1 + 13 = omega arith in
      elim (ℕ_discrete (addr (j + 13)) 0) [
        | yes z ↦
            let (s', e, g) =
              itrunc_words_lem n (j + 1) addr d s l same
                (subst (λ i. Frees addr i n s) shift (Frees-skip addr (j + 13) n s v)) in
            (
              s',
              ground (arith, e, z, here),
              Freed-skip addr (j + 13) n s s' z (subst (λ i. Freed addr i n s s') (sym shift) g),
            )
        | no nz ↦
            let (s₁, e₁, g₁, v₁) = bfree_first addr (j + 13) n s v nz in
            let (s', e, g) =
              itrunc_words_lem n (j + 1) addr d s₁ l
                (λ k. ap (λ f. get_word f k) (g₁.same d l) ∙ same k)
                (subst (λ i. Frees addr i n s₁) shift v₁) in
            let free_it : bfree sb (get_word (s d) j) s ≡ ran s₁ =
              ap (λ x. bfree sb x s) here ∙ e₁ in
            let nz' : get_word (s d) j ≢ 0 = λ q. nz (sym here ∙ q) in
            (
              s',
              ground (arith, e, free_it, nz'),
              Freed-cons addr (j + 13) n s s₁ s' v nz g₁
                  (subst (λ i. Freed addr i n s₁ s') (sym shift) g),
            )
      ]
