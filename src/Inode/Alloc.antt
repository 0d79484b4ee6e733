-- ===== src/Inode/Alloc.antt =====
-- balloc and bfree on the block map.
use modificacion_sistema_ope.Base.{
  ℕ, zero, suc, ◌+◌, ◌%◌, ◌<◌, ◌≤◌, ◌≡◌, ◌≢◌, ◌⊎◌, inl, inr, refl, arith, sym, ap, ap₂, ◌∙◌, subst,
  Bool, false, none, some, update, update_self, update_ne, ◌==◌, ltb, if◌then◌else◌, ℕ_discrete,
  Bool-cases,
}
use modificacion_sistema_ope.Inode.Defs.{
  Superblock, Blocks, bits_per_block, bit, set_bit, Ran, ran, panic, bblock, bzero, balloc_bits,
  balloc_from, balloc,
}
use modificacion_sistema_ope.Inode.Bits.{bit-set_bit}

module _ (sb : Superblock) where
  -- The bit of a block in the map.
  abbrev pub used : Blocks → ℕ → ℕ
  used s b = bit (s (bblock sb b)) (b % bits_per_block)

  -- The blocks once balloc has taken block `b`.
  abbrev pub took : ℕ → Blocks → Blocks
  took b s = bzero sb b (update s (bblock sb b) (set_bit (s (bblock sb b)) (b % bits_per_block)))

  -- balloc takes the first block from `from` on that is free, or none is.
  abbrev pub Allocates : Blocks → ℕ → Ran (ℕ × Blocks) → Type 0
  Allocates s from r =
      ((b : ℕ) × (r ≡ ran (b, took b s))
        × (b < sb.size)
        × (used s b ≡ 0)
        × ((j : ℕ) → from ≤ j → j < b → used s j ≢ 0))
      ⊎ ((r ≡ panic) × ((j : ℕ) → from ≤ j → j < sb.size → used s j ≢ 0))

  balloc_bits_lem :
      (n b bi : ℕ) (s : Blocks)
      → b % bits_per_block ≡ 0
      → bi + n ≤ bits_per_block
      → ((f : ℕ) × (balloc_bits sb n b bi s ≡ some (f, took f s))
          × (f < sb.size)
          × (used s f ≡ 0)
          × (f < b + bi + n)
          × ((j : ℕ) → b + bi ≤ j → j < f → used s j ≢ 0))
        ⊎ ((balloc_bits sb n b bi s ≡ none)
            × ((j : ℕ) → b + bi ≤ j → j < b + bi + n → j < sb.size → used s j ≢ 0))
  unfolding balloc_bits
  balloc_bits_lem zero b bi s m h = inr (refl, λ j l g. absurd (omega arith))
  balloc_bits_lem (suc n) b bi s m h = elim (Bool-cases (ltb (b + bi) sb.size)) [
    | inr out ↦ inr (ground (arith, out), λ j l g k. absurd (ground (arith, out)))
    | inl inside ↦
        let same_block : bblock sb (b + bi) ≡ bblock sb b = omega (arith, m) in
        let same_bit : (b + bi) % bits_per_block ≡ bi = omega (arith, m) in
        let here : used s (b + bi) ≡ bit (s (bblock sb b)) bi =
          ap₂ (λ x y. bit (s x) y) same_block same_bit in
        elim (Bool-cases (bit (s (bblock sb b)) bi == 0)) [
          | inl free ↦ inl (
            b + bi,
            ground (arith, inside, free)
                ∙ ap some (
                    ap (λ t. (b + bi, t))
                      (ap₂ (λ x y. bzero sb (b + bi) (update s x (set_bit (s x) y)))
                        (sym same_block) (sym same_bit))),
            ground (arith, inside),
            here ∙ ground (arith, free),
            omega arith,
            λ j l g. absurd (omega arith),
          )
          | inr busy ↦
              let taken : used s (b + bi) ≢ 0 = λ z. ground (arith, busy, sym here ∙ z) in
              elim (balloc_bits_lem n b (bi + 1) s m (omega arith)) [
                | inl (f, e, k, u, t, all) ↦ inl (
                  f,
                  ground (arith, inside, busy, e),
                  k,
                  u,
                  omega arith,
                  λ j l g. elim (ℕ_discrete j (b + bi)) [
                    | yes q ↦ subst (λ x. used s x ≢ 0) (sym q) taken
                    | no q ↦ all j (omega arith) g
                  ],
                )
                | inr (e, all) ↦ inr (
                  ground (arith, inside, busy, e),
                  λ j l g k. elim (ℕ_discrete j (b + bi)) [
                    | yes q ↦ subst (λ x. used s x ≢ 0) (sym q) taken
                    | no q ↦ all j (omega arith) (omega arith) k
                  ],
                )
              ]
        ]
  ]

  balloc_from-Allocates :
      (fuel b : ℕ) (s : Blocks)
      → b % bits_per_block ≡ 0
      → sb.size < b + fuel
      → 0 < fuel
      → Allocates s b (balloc_from sb fuel b s)
  unfolding balloc_from
  balloc_from-Allocates zero b s m h p = absurd (omega arith)
  balloc_from-Allocates (suc fuel) b s m h p = elim (Bool-cases (ltb b sb.size)) [
    | inr out ↦ inr (ground (arith, out), λ j l g. absurd (ground (arith, out)))
    | inl inside ↦ elim (balloc_bits_lem bits_per_block b 0 s m (omega arith)) [
      | inl (f, e, k, u, t, all) ↦
          inl (f, ground (arith, inside, e), k, u, λ j l g. all j (omega arith) g)
      | inr (e, all) ↦
          let next : balloc_from sb (suc fuel) b s ≡ balloc_from sb fuel (b + bits_per_block) s =
            ground (arith, inside, e) in
          let low = λ (j : ℕ) (l : b ≤ j) (g : j < b + bits_per_block) (k : j < sb.size).
            all j (omega arith) (omega arith) k in
          elim (balloc_from-Allocates fuel (b + bits_per_block) s (omega arith) (omega arith)
            (ground (arith, inside))) [
              | inl (f, q, k, u, before) ↦ inl (
                f,
                next ∙ q,
                k,
                u,
                λ j l g. elim (Bool-cases (ltb j (b + bits_per_block))) [
                  | inl y ↦ low j l (ground (arith, y)) (omega arith)
                  | inr y ↦ before j (ground (arith, y)) g
                ],
              )
              | inr (q, none_free) ↦ inr (
                next ∙ q,
                λ j l g. elim (Bool-cases (ltb j (b + bits_per_block))) [
                  | inl y ↦ low j l (ground (arith, y)) g
                  | inr y ↦ none_free j (ground (arith, y)) g
                ],
              )
            ]
    ]
  ]

  pub balloc-Allocates : (s : Blocks) → Allocates s 0 (balloc sb s)
  unfolding balloc
  balloc-Allocates s = balloc_from-Allocates (sb.size + 1) 0 s refl (omega arith) (omega arith)

  -- The map blocks lie below `start`, where the blocks of files begin, and all below it are taken.
  pub record IsMap (start : ℕ) (s : Blocks) : Type 0 where
    pub below : (b : ℕ) → b < sb.size → bblock sb b < start
    pub taken : (b : ℕ) → b < start → used s b ≢ 0

  -- A free block is one of a file's.
  pub fresh : (start : ℕ) (s : Blocks) (b : ℕ) → IsMap start s → used s b ≡ 0 → start ≤ b
  fresh start s b v u = elim (Bool-cases (ltb b start)) [
    | inl y ↦ absurd (v.taken b (ground (arith, y)) u)
    | inr y ↦ ground (arith, y)
  ]

  -- A block that is not of the map may change.
  pub used-update :
      (start : ℕ) (s : Blocks) (b : ℕ) (f : ℕ → ℕ) (j : ℕ)
      → IsMap start s
      → start ≤ b
      → j < sb.size
      → used (update s b f) j ≡ used s j
  used-update start s b f j v hb hj =
      let off : bblock sb j ≢ b = λ e. absurd (omega (arith, v.below j hj)) in
      ap (λ g. bit g (j % bits_per_block)) (update_ne s b f (bblock sb j) off)

  pub used-took :
      (start : ℕ) (s : Blocks) (b j : ℕ)
      → IsMap start s
      → b < sb.size
      → used s b ≡ 0
      → j < sb.size
      → used (took b s) j ≡ (if j == b then 1 else used s j)
  used-took start s b j v hb u hj =
      let s₁ : Blocks = update s (bblock sb b) (set_bit (s (bblock sb b)) (b % bits_per_block)) in
      let off : bblock sb j ≢ b = λ e. absurd (omega (arith, v.below j hj, fresh start s b v u)) in
      let e : used (took b s) j ≡ used s₁ j =
        ap (λ g. bit g (j % bits_per_block)) (update_ne s₁ b (λ o. 0) (bblock sb j) off) in
      elim (ℕ_discrete (bblock sb j) (bblock sb b)) [
        | yes q ↦
            let here : s₁ (bblock sb j) ≡ set_bit (s (bblock sb b)) (b % bits_per_block) =
              ap s₁ q
              ∙ update_self s (bblock sb b) (set_bit (s (bblock sb b)) (b % bits_per_block)) in
            let same : (j % bits_per_block == b % bits_per_block) ≡ (j == b) = ground (arith, q) in
            let r : bit (s (bblock sb b)) (j % bits_per_block) ≡ used s j =
              ap (λ x. bit (s x) (j % bits_per_block)) (sym q) in
            e
            ∙ ap (λ g. bit g (j % bits_per_block)) here
            ∙ bit-set_bit (s (bblock sb b)) (b % bits_per_block) (j % bits_per_block) u
            ∙ ap₂ (λ (t : Bool) (x : ℕ). if t then 1 else x) same r
        | no ne ↦
            let other : (j == b) ≡ false = ground (arith, ne) in
            e
            ∙ ap (λ g. bit g (j % bits_per_block))
                (update_ne s (bblock sb b) (set_bit (s (bblock sb b)) (b % bits_per_block))
                  (bblock sb j) ne)
            ∙ ap (λ (t : Bool). if t then 1 else used s j) (sym other)
      ]

  -- The free blocks below `n`.
  abbrev pub free : ℕ → Blocks → ℕ
  free zero s = 0
  free (suc n) s = (if used s n == 0 then 1 else 0) + free n s

  pub free-same :
      (n : ℕ) (s t : Blocks) → ((j : ℕ) → j < n → used t j ≡ used s j) → free n t ≡ free n s
  free-same zero s t h = refl
  free-same (suc n) s t h =
      ap₂ (λ (x y : ℕ). (if x == 0 then 1 else 0) + y) (h n (omega arith))
        (free-same n s t (λ j l. h j (omega arith)))

  pub free-less :
      (n : ℕ) (s t : Blocks) (b : ℕ)
      → used s b ≡ 0
      → ((j : ℕ) → j < n → used t j ≡ (if j == b then 1 else used s j))
      → free n s ≡ free n t + (if ltb b n then 1 else 0)
  free-less zero s t b u h = ground arith
  free-less (suc n) s t b u h =
      let rest : free n s ≡ free n t + (if ltb b n then 1 else 0) =
        free-less n s t b u (λ j l. h j (omega arith)) in
      elim (ℕ_discrete n b) [
        | yes e ↦
            let at_b : used s n ≡ 0 = ap (used s) e ∙ u in
            let now : used t n ≡ 1 = h n (omega arith) ∙ ground (arith, e) in
            ground (arith, rest, at_b, now, e)
        | no ne ↦
            let now : used t n ≡ used s n = h n (omega arith) ∙ ground (arith, ne) in
            ground (arith, rest, now, ne)
      ]

  pub free-none : (n : ℕ) (s : Blocks) → ((j : ℕ) → j < n → used s j ≢ 0) → free n s ≡ 0
  free-none zero s h = refl
  free-none (suc n) s h =
      let here : used s n ≢ 0 = h n (omega arith) in
      ground (arith, here, free-none n s (λ j l. h j (omega arith)))

  pub used-took-IsMap :
      (start : ℕ) (s : Blocks) (b : ℕ)
      → IsMap start s
      → b < sb.size
      → used s b ≡ 0
      → start ≤ sb.size
      → IsMap start (took b s)
  used-took-IsMap start s b v hb u hs = record {
    below = v.below;
    taken = λ j l z. elim (ℕ_discrete j b) [
      | yes e ↦ absurd (omega (arith, fresh start s b v u))
      | no ne ↦
          v.taken j l (sym (used-took start s b j v hb u (omega arith) ∙ ground (arith, ne)) ∙ z)
    ];
  }

  pub update-IsMap :
      (start : ℕ) (s : Blocks) (b : ℕ) (f : ℕ → ℕ)
      → IsMap start s
      → start ≤ b
      → start ≤ sb.size
      → IsMap start (update s b f)
  update-IsMap start s b f v hb hs = record {
    below = v.below;
    taken = λ j l z. v.taken j l (sym (used-update start s b f j v hb (omega arith)) ∙ z);
  }
