-- ===== src/Inode/Truncate.antt =====
-- itrunc: a file's blocks are free again.
use modificacion_sistema_ope.Base.{
  ℕ, ◌+◌, ◌-◌, ◌<◌, ◌≤◌, ◌≡◌, ◌≢◌, ◌⊎◌, inl, inr, refl, arith, sym, ap, ◌∙◌, update, ltb, leb, ◌&&◌,
  if◌then◌else◌, ℕ_discrete, dec_lt,
}
use modificacion_sistema_ope.Inode.Defs.{
  Superblock, Blocks, Inode, Ran, ran, get_word, bfree, itrunc_words, itrunc_indirect, itrunc,
}
use modificacion_sistema_ope.Inode.Alloc.{used, IsMap}
use modificacion_sistema_ope.Inode.Slots.{nslots, slot, Wf}
use modificacion_sistema_ope.Inode.Free.{
  Freed, Frees, bfree_first, itrunc_direct_lem, itrunc_words_lem,
}

slot_none : (ip : Inode) (s : Blocks) (k : ℕ) → ip.addrs 12 ≡ 0 → 12 ≤ k → slot ip s k ≡ 0
unfolding slot
slot_none ip s k z l = ground (arith, z, l)

no_slots :
    (ip : Inode) (s : Blocks) → ((k : ℕ) → k < 13 → ip.addrs k ≡ 0) → (k : ℕ) → slot ip s k ≡ 0
unfolding slot
no_slots ip s none k = elim (dec_lt k 13) [
  | yes near ↦ ground (arith, near, none k near)
  | no far ↦ ground (arith, far, none 12 (omega arith))
]

slot_word :
    (ip : Inode) (s : Blocks)
    → ip.addrs 12 ≢ 0
    → (k : ℕ) → get_word (s (ip.addrs 12)) k ≡ slot ip s (k + 13)
unfolding slot
slot_word ip s nz k =
    let i : k + 13 - 13 ≡ k = omega arith in
    ap (get_word (s (ip.addrs 12))) (sym i) ∙ ground (arith, nz)

slot_direct : (ip : Inode) (s : Blocks) (k : ℕ) → k < 13 → ip.addrs k ≡ slot ip s k
unfolding slot
slot_direct ip s k h = ground (arith, h)

module _ (sb : Superblock) (start : ℕ) (ip : Inode) (s : Blocks) (w : Wf sb start ip s) where
  -- A block of the file that is not in the range of slots freed.
  still :
      (i n : ℕ) (t t' : Blocks) (k : ℕ)
      → Freed sb start (slot ip s) i n t t'
      → i + n ≤ nslots
      → k < nslots
      → (k < i) ⊎ (i + n ≤ k)
      → slot ip s k ≢ 0
      → used sb t' (slot ip s k) ≡ used sb t (slot ip s k)
  still i n t t' k g b l out nz =
      g.kept (slot ip s k) (w.inside k l nz).1
        (λ j lo hi nj e. absurd (omega (arith, w.apart j k (omega arith) l nj e, out)))

  -- The slots of a range, while they are used.
  frees :
      (i n : ℕ) (t : Blocks)
      → i + n ≤ nslots
      → IsMap sb start t
      → ((k : ℕ)
          → i ≤ k
          → k < i + n
          → slot ip s k ≢ 0
          → used sb t (slot ip s k) ≡ used sb s (slot ip s k))
      → Frees sb start (slot ip s) i n t
  frees i n t b m same = record {
    is_map = m;
    inside = λ k lo hi. w.inside k (omega arith);
    taken = λ k lo hi nz z. w.taken k (omega arith) nz (sym (same k lo hi nz) ∙ z);
    apart = λ j k a c d e. w.apart j k (omega arith) (omega arith);
  }

  -- A file whose blocks were all freed.
  pub record Emptied (ip' : Inode) (s' : Blocks) : Type 0 where
    pub no_blocks : (k : ℕ) → k < nslots → slot ip' s' k ≡ 0
    pub freed : (k : ℕ) → k < nslots → slot ip s k ≢ 0 → used sb s' (slot ip s k) ≡ 0
    pub kept :
        (j : ℕ)
        → j < sb.size
        → ((k : ℕ) → k < nslots → slot ip s k ≢ 0 → slot ip s k ≢ j)
        → used sb s' j ≡ used sb s j
    pub same : (x : ℕ) → start ≤ x → s' x ≡ s x

  -- The second loop and the indirect block itself, after the first loop.
  itrunc_indirect_lem :
      (ip₁ : Inode) (s₁ : Blocks)
      → Freed sb start (slot ip s) 0 12 s s₁
      → ((k : ℕ) → ip₁.addrs k ≡ (if leb 0 k && ltb k 12 then 0 else ip.addrs k))
      → (ip₂ : Inode) × (s₂ : Blocks) × (itrunc_indirect sb ip₁ s₁ ≡ ran (ip₂, s₂)) × Emptied ip₂ s₂
  unfolding itrunc_indirect
  itrunc_indirect_lem ip₁ s₁ g addrs = elim (ℕ_discrete (ip.addrs 12) 0) [
    | yes z ↦
        let z₁ : ip₁.addrs 12 ≡ 0 = addrs 12 ∙ z in
        (
          ip₁,
          s₁,
          ground (arith, z₁),
          record {
            no_blocks = λ k l. no_slots ip₁ s₁ (λ i h. addrs i ∙ ground (arith, h, z)) k;
            freed = λ k l nz.
                g.freed k (omega arith)
                  (elim (dec_lt k 12) [
                    | yes lt ↦ lt
                    | no ge ↦ absurd (nz (slot_none ip s k z (omega (arith, ge))))
                  ])
                  nz;
            kept = λ j l out. g.kept j l (λ k a b. out k (omega (arith, b)));
            same = g.same;
          },
        )
    | no nz ↦
        let d : ℕ = ip.addrs 12 in
        let d_slot : d ≡ slot ip s 12 = slot_direct ip s 12 (omega arith) in
        let nz₁ : slot ip s 12 ≢ 0 = λ z. nz (d_slot ∙ z) in
        let low : start ≤ d = omega (arith, d_slot, (w.inside 12 (omega arith) nz₁).0) in
        let d₁ : ip₁.addrs 12 ≡ d = addrs 12 in
        let (s₂, e₂, g₂) =
          itrunc_words_lem sb start 128 0 (slot ip s) d s₁ low
            (λ k. ap (λ f. get_word f k) (g.same d low) ∙ slot_word ip s nz k)
            (frees 13 128 s₁ (omega arith) g.is_map (λ k a b n.
              still 0 12 s s₁ k g (omega arith) (omega (arith, b)) (inr (omega (arith, a))) n)) in
        let words : itrunc_words sb 128 0 (ip₁.addrs 12) s₁ ≡ ran s₂ =
          ap (λ x. itrunc_words sb 128 0 x s₁) d₁ ∙ e₂ in
        let (s₃, e₃, g₃, v) =
          bfree_first sb start (slot ip s) 12 0 s₂
            (frees 12 1 s₂ (omega arith) g₂.is_map (λ k a b n.
              still 13 128 s₁ s₂ k g₂ (omega arith) (omega (arith, b)) (inl (omega (arith, b))) n
              ∙ still 0 12 s s₁ k g (omega arith) (omega (arith, b)) (inr (omega (arith, a))) n))
            nz₁ in
        let last : bfree sb (ip₁.addrs 12) s₂ ≡ ran s₃ =
          ap (λ x. bfree sb x s₂) (d₁ ∙ d_slot) ∙ e₃ in
        let nz₂ : ip₁.addrs 12 ≢ 0 = λ z. nz (sym d₁ ∙ z) in
        let ip₂ : Inode = record ip₁ { addrs = update ip₁.addrs 12 0 } in
        (
          ip₂,
          s₃,
          ground (arith, words, last, nz₂),
          record {
            no_blocks = λ k l. no_slots ip₂ s₃ (λ i h. ground (arith, h, addrs i)) k;
            freed = λ k l n. elim (dec_lt k 12) [
              | yes lt ↦
                  still 12 1 s₂ s₃ k g₃ (omega arith) l (inl lt) n
                  ∙ still 13 128 s₁ s₂ k g₂ (omega arith) l (inl (omega (arith, lt))) n
                  ∙ g.freed k (omega arith) lt n
              | no ge ↦ elim (dec_lt 12 k) [
                | yes gt ↦
                    still 12 1 s₂ s₃ k g₃ (omega arith) l (inr (omega (arith, gt))) n
                    ∙ g₂.freed k (omega (arith, gt)) (omega (arith, l)) n
                | no le ↦ g₃.freed k (omega (arith, ge)) (omega (arith, le)) n
              ]
            ];
            kept = λ j l out.
                g₃.kept j l (λ k a b. out k (omega (arith, b)))
                ∙ g₂.kept j l (λ k a b. out k (omega (arith, b)))
                ∙ g.kept j l (λ k a b. out k (omega (arith, b)));
            same = λ x l. g₃.same x l ∙ g₂.same x l ∙ g.same x l;
          },
        )
  ]

  resize_Emptied :
      (ip' : Inode) (s' : Blocks) (z : ℕ) → Emptied ip' s' → Emptied (record ip' { size = z }) s'
  unfolding slot
  resize_Emptied ip' s' z e = record {
    no_blocks = e.no_blocks;
    freed = e.freed;
    kept = e.kept;
    same = e.same;
  }

  -- itrunc ends without a panic, with the file empty.
  abbrev pub Truncates : Ran (Inode × Blocks) → Type 0
  Truncates r =
      (ip' : Inode) × (s' : Blocks) × (r ≡ ran (ip', s')) × (ip'.size ≡ 0) × Emptied ip' s'

  -- itrunc of a well-formed file ends without a panic: the file has size 0 and no blocks, every
  -- block it had, its indirect block included, is free, and the bits of all other blocks and the
  -- bytes of the blocks of files are as they were.
  pub itrunc-Truncates : Truncates (itrunc sb ip s)
  unfolding itrunc
  itrunc-Truncates =
      let (ip₁, s₁, e₁, g, addrs) =
        itrunc_direct_lem sb start 12 0 (slot ip s) ip s
          (λ k a b. slot_direct ip s k (omega (arith, b)))
          (frees 0 12 s (omega arith) w.is_map (λ k a b n. refl)) in
      let (ip₂, s₂, e₂, done) = itrunc_indirect_lem ip₁ s₁ g addrs in
      (record ip₂ { size = 0 }, s₂, ground (arith, e₁, e₂), refl, resize_Emptied ip₂ s₂ 0 done)
