-- ===== src/Inode/Bmap.antt =====
-- bmap: the address of a file's block, which gets one when it has none.
use modificacion_sistema_ope.Base.{
  ℕ, ◌+◌, ◌-◌, ◌<◌, ◌≤◌, ◌≡◌, ◌≢◌, ◌⊎◌, inl, inr, refl, arith, sym, ap, ◌∙◌, update, ◌==◌,
  if◌then◌else◌, ℕ_discrete, dec_lt, fun_ext,
}
use modificacion_sistema_ope.Inode.Defs.{
  Superblock, Blocks, Inode, Ran, ran, panic, get_word, put_word, balloc, bmap,
}
use modificacion_sistema_ope.Inode.Alloc.{used, took, balloc-Allocates, fresh, free, free-none}
use modificacion_sistema_ope.Inode.Slots.{
  nslots, slot, index, content, Wf, Grown, Grown-Wf, Grown-content, Grown-free, start_pos,
}
use modificacion_sistema_ope.Inode.Grow.{grow_direct, grow_block, grow_word}

-- The indirect block a file has yet to get.
abbrev pub need : Inode → ℕ
need ip = if ip.addrs 12 == 0 then 1 else 0

index_direct : (bn : ℕ) → bn < 12 → index bn ≡ bn
unfolding index
index_direct bn h = ground (arith, h)

index_indirect : (bn : ℕ) → 12 ≤ bn → index bn ≡ bn + 1
unfolding index
index_indirect bn h = ground (arith, h)

slot_direct : (ip : Inode) (bn : ℕ) (s : Blocks) → bn < 12 → slot ip s (index bn) ≡ ip.addrs bn
unfolding slot index
slot_direct ip bn s h = ground (arith, h)

indirect_word :
    (ip : Inode) (bn : ℕ) (s : Blocks)
    → 12 ≤ bn
    → ip.addrs 12 ≢ 0
    → slot ip s (index bn) ≡ 0
    → get_word (s (ip.addrs 12)) (bn - 12) ≡ 0
unfolding slot index
indirect_word ip bn s l nz z =
    let q : slot ip s (index bn) ≡ get_word (s (ip.addrs 12)) (bn - 12) = ground (arith, l, nz) in
    sym q ∙ z

-- A slot that has an address.
pub bmap_same :
    (sb : Superblock) (ip : Inode) (bn : ℕ) (s : Blocks)
    → bn < 140
    → slot ip s (index bn) ≢ 0
    → bmap sb ip bn s ≡ ran (slot ip s (index bn), ip, s)
unfolding bmap slot index
bmap_same sb ip bn s h nz =
    let self : update ip.addrs 12 (ip.addrs 12) ≡ ip.addrs = fun_ext (λ j. ground arith) in
    ground (arith, nz, self)

module _ (sb : Superblock) (start : ℕ) where
  -- The file is well formed and holds what it held, its blocks are where they were, and at most
  -- `n` blocks, its indirect block apart, are no longer free.
  pub record Grows (n : ℕ) (ip : Inode) (s : Blocks) (ip' : Inode) (s' : Blocks) : Type 0 where
    pub wf : Wf sb start ip' s'
    pub same_size : ip'.size ≡ ip.size
    pub same : (off : ℕ) → off < 71680 → content ip' s' off ≡ content ip s off
    pub stay : (k : ℕ) → k < nslots → slot ip s k ≢ 0 → slot ip' s' k ≡ slot ip s k
    pub room : free sb sb.size s + need ip' ≤ free sb sb.size s' + need ip + n

  pub Grown-Grows :
      (n k a : ℕ) (ip : Inode) (s : Blocks) (ip' : Inode) (s' : Blocks)
      → Wf sb start ip s
      → Grown sb start k a ip s ip' s'
      → 1 + need ip' ≤ need ip + n
      → Grows n ip s ip' s'
  Grown-Grows n k a ip s ip' s' w g h = record {
    wf = Grown-Wf sb start k a ip s ip' s' w g;
    same_size = g.same_size;
    same = Grown-content sb start k a ip s ip' s' w g;
    stay = λ j l nz. elim (ℕ_discrete j k) [
      | yes e ↦ absurd (nz (ap (slot ip s) e ∙ g.empty))
      | no ne ↦ g.slots j l ∙ ground (arith, ne)
    ];
    room = omega (arith, Grown-free sb start k a ip s ip' s' g, h);
  }

  pub Grows-refl : (ip : Inode) (s : Blocks) → Wf sb start ip s → Grows 1 ip s ip s
  Grows-refl ip s w = record {
    wf = w;
    same_size = refl;
    same = λ off l. refl;
    stay = λ k l nz. refl;
    room = omega arith;
  }

  pub Grows-trans :
      (m n : ℕ) (ip : Inode) (s : Blocks) (ip₁ : Inode) (s₁ : Blocks) (ip₂ : Inode) (s₂ : Blocks)
      → Grows m ip s ip₁ s₁
      → Grows n ip₁ s₁ ip₂ s₂
      → Grows (m + n) ip s ip₂ s₂
  Grows-trans m n ip s ip₁ s₁ ip₂ s₂ g h = record {
    wf = h.wf;
    same_size = h.same_size ∙ g.same_size;
    same = λ off l. h.same off l ∙ g.same off l;
    stay = λ k l nz. h.stay k l (λ z. nz (sym (g.stay k l nz) ∙ z)) ∙ g.stay k l nz;
    room = omega (arith, g.room, h.room);
  }

  -- What bmap gives: the address in the file's slot, or a panic when no more blocks are free than
  -- an indirect block would take.
  abbrev pub Maps : Inode → ℕ → Blocks → Ran (ℕ × Inode × Blocks) → Type 0
  Maps ip bn s r =
      ((a : ℕ) × (ip' : Inode) × (s' : Blocks) × (r ≡ ran (a, ip', s'))
        × Grows 1 ip s ip' s'
        × (slot ip' s' (index bn) ≡ a)
        × (a ≢ 0))
      ⊎ ((r ≡ panic) × (free sb sb.size s ≤ need ip))

  Maps-zero :
      (ip : Inode) (s : Blocks)
      → ((j : ℕ) → 0 ≤ j → j < sb.size → used sb s j ≢ 0)
      → free sb sb.size s ≡ 0
  Maps-zero ip s h = free-none sb sb.size s (λ j l. h j (omega arith) l)

  fresh_pos :
      (ip : Inode) (s : Blocks) (a : ℕ) → Wf sb start ip s → used sb s a ≡ 0 → a < sb.size → a ≢ 0
  fresh_pos ip s a w u h z =
      absurd (omega (arith, start_pos sb start s a w.is_map h, fresh sb start s a w.is_map u))

  bmap_direct :
      (ip : Inode) (bn : ℕ) (s : Blocks)
      → Wf sb start ip s
      → bn < 12
      → ip.addrs bn ≡ 0
      → Maps ip bn s (bmap sb ip bn s)
  unfolding bmap
  bmap_direct ip bn s w h z = elim (balloc-Allocates sb s) [
    | inr (e, full) ↦ inr (ground (arith, e, z, h), omega (arith, Maps-zero ip s full))
    | inl (a, e, k, u, before) ↦
        let ip' : Inode = record ip { addrs = update ip.addrs bn a } in
        let g : Grown sb start bn a ip s ip' (took sb a s) =
          grow_direct sb start ip s a w u k bn h z in
        inl (
          a,
          ip',
          took sb a s,
          ground (arith, e, z, h),
          Grown-Grows 1 bn a ip s ip' (took sb a s) w g (ground (arith, h)),
          ap (slot ip' (took sb a s)) (index_direct bn h) ∙ g.slots bn (omega arith) ∙ ground arith,
          fresh_pos ip s a w u k,
        )
  ]

  bmap_indirect :
      (ip : Inode) (bn : ℕ) (s : Blocks)
      → Wf sb start ip s
      → 12 ≤ bn
      → bn < 140
      → ip.addrs 12 ≢ 0
      → get_word (s (ip.addrs 12)) (bn - 12) ≡ 0
      → sb.size ≤ 4294967296
      → Maps ip bn s (bmap sb ip bn s)
  unfolding bmap
  bmap_indirect ip bn s w l h nz z big =
      let same_addrs : update ip.addrs 12 (ip.addrs 12) ≡ ip.addrs = fun_ext (λ j. ground arith) in
      let self : record ip { addrs = update ip.addrs 12 (ip.addrs 12) } ≡ ip =
        ap (λ f. record ip { addrs = f }) same_addrs in
      elim (balloc-Allocates sb s) [
        | inr (e, full) ↦ inr (ground (arith, e, z, nz, l, h), omega (arith, Maps-zero ip s full))
        | inl (a, e, k, u, before) ↦
            let s' : Blocks =
              update (took sb a s) (ip.addrs 12)
                (put_word (took sb a s (ip.addrs 12)) (bn - 12) a) in
            let g : Grown sb start (bn + 1) a ip s ip s' =
              grow_word sb start ip s a w u k bn l h nz z big in
            inl (
              a,
              ip,
              s',
              ground (arith, e, z, nz, l, h, self),
              Grown-Grows 1 (bn + 1) a ip s ip s' w g (ground (arith, nz)),
              ap (slot ip s') (index_indirect bn l) ∙ g.slots (bn + 1) (omega arith) ∙ ground arith,
              fresh_pos ip s a w u k,
            )
      ]

  -- Without an indirect block, bmap first gives the file one.
  bmap_new_indirect :
      (ip : Inode) (bn : ℕ) (s : Blocks) (d : ℕ)
      → 12 ≤ bn
      → bn < 140
      → ip.addrs 12 ≡ 0
      → d ≢ 0
      → balloc sb s ≡ ran (d, took sb d s)
      → bmap sb ip bn s ≡ bmap sb (record ip { addrs = update ip.addrs 12 d }) bn (took sb d s)
  unfolding bmap
  bmap_new_indirect ip bn s d l h z nd e =
      let same_addrs : update (update ip.addrs 12 d) 12 d ≡ update ip.addrs 12 d =
        fun_ext (λ j. ground arith) in
      let self : record ip { addrs = update (update ip.addrs 12 d) 12 d }
          ≡ record ip { addrs = update ip.addrs 12 d } =
        ap (λ f. record ip { addrs = f }) same_addrs in
      ground (arith, e, z, nd, l, h, self)

  bmap_far :
      (ip : Inode) (bn : ℕ) (s : Blocks)
      → Wf sb start ip s
      → 12 ≤ bn
      → bn < 140
      → ip.addrs 12 ≢ 0
      → sb.size ≤ 4294967296
      → Maps ip bn s (bmap sb ip bn s)
  bmap_far ip bn s w l h nz big = elim (ℕ_discrete (slot ip s (index bn)) 0) [
    | yes z ↦ bmap_indirect ip bn s w l h nz (indirect_word ip bn s l nz z) big
    | no n ↦ inl (slot ip s (index bn), ip, s, bmap_same sb ip bn s h n, Grows-refl ip s w, refl, n)
  ]

  -- bmap gives a block of the file its address: the one it has, or a free block's, the indirect
  -- block included; it panics only when at most the block that the indirect one takes is free.
  pub bmap-Maps :
      (ip : Inode) (bn : ℕ) (s : Blocks)
      → Wf sb start ip s
      → bn < 140
      → sb.size ≤ 4294967296
      → Maps ip bn s (bmap sb ip bn s)
  unfolding bmap
  bmap-Maps ip bn s w h big = elim (dec_lt bn 12) [
    | yes near ↦ elim (ℕ_discrete (ip.addrs bn) 0) [
      | yes z ↦ bmap_direct ip bn s w near z
      | no nz ↦
          let nz₁ : slot ip s (index bn) ≢ 0 = λ q. nz (sym (slot_direct ip bn s near) ∙ q) in
          inl
            (slot ip s (index bn), ip, s, bmap_same sb ip bn s h nz₁, Grows-refl ip s w, refl, nz₁)
    ]
    | no far ↦ elim (ℕ_discrete (ip.addrs 12) 0) [
      | no nz ↦ bmap_far ip bn s w (omega arith) h nz big
      | yes z ↦ elim (balloc-Allocates sb s) [
        | inr (e, full) ↦ inr (ground (arith, e, z, far, h), omega (arith, Maps-zero ip s full))
        | inl (d, e, k, u, before) ↦
            let ip₁ : Inode = record ip { addrs = update ip.addrs 12 d } in
            let nd : d ≢ 0 = fresh_pos ip s d w u k in
            let g : Grown sb start 12 d ip s ip₁ (took sb d s) =
              grow_block sb start ip s d w u k z in
            let first : Grows 0 ip s ip₁ (took sb d s) =
              Grown-Grows 0 12 d ip s ip₁ (took sb d s) w g (ground (arith, z, nd)) in
            let same : bmap sb ip bn s ≡ bmap sb ip₁ bn (took sb d s) =
              bmap_new_indirect ip bn s d (omega arith) h z nd e in
            elim (bmap_far ip₁ bn (took sb d s) first.wf (omega arith) h nd big) [
              | inl (a, ip₂, s₂, q, more, at, na) ↦ inl (
                a,
                ip₂,
                s₂,
                same ∙ q,
                Grows-trans 0 1 ip s ip₁ (took sb d s) ip₂ s₂ first more,
                at,
                na,
              )
              | inr (q, full) ↦ inr (same ∙ q, omega (arith, full, first.room))
            ]
      ]
    ]
  ]
