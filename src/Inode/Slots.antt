-- ===== src/Inode/Slots.antt =====
-- A file's blocks by slot: the direct ones, the indirect block, and the words of the latter; and
-- what changes in them when balloc gives a file a block.
use modificacion_sistema_ope.Base.{
  ℕ, ◌+◌, ◌-◌, ◌/◌, ◌%◌, ◌<◌, ◌≤◌, ◌≡◌, ◌≢◌, arith, sym, ap, ◌∙◌, ◌==◌, ltb, if◌then◌else◌,
  ℕ_discrete,
}
use modificacion_sistema_ope.Inode.Defs.{Superblock, Blocks, Inode, bsize, get_word}
use modificacion_sistema_ope.Inode.Alloc.{used, IsMap, fresh, free, free-less}

abbrev pub nslots : ℕ
nslots = 141

unfoldable pub slot : Inode → Blocks → ℕ → ℕ
slot ip s k =
    if ltb k 13
    then ip.addrs k
    else if ip.addrs 12 == 0
    then 0
    else get_word (s (ip.addrs 12)) (k - 13)

-- The slot of a file's block.
unfoldable pub index : ℕ → ℕ
index bn = if ltb bn 12 then bn else bn + 1

-- A file's byte; a block that was never written is zero.
unfoldable pub content : Inode → Blocks → ℕ → ℕ
content ip s off =
    if slot ip s (index (off / bsize)) == 0
    then 0
    else s (slot ip s (index (off / bsize))) (off % bsize)

pub index_lt : (bn : ℕ) → bn < 140 → index bn < nslots
unfolding index
index_lt bn h = ground arith

pub index_ne : (bn : ℕ) → index bn ≢ 12
unfolding index
index_ne bn = ground arith

pub index_inj : (a b : ℕ) → index a ≡ index b → a ≡ b
unfolding index
index_inj a b e = ground (arith, e)

module _ (sb : Superblock) (start : ℕ) where
  -- Each block of the file is a block for files, used, and in one slot only.
  pub record Wf (ip : Inode) (s : Blocks) : Type 0 where
    pub is_map : IsMap sb start s
    pub inside :
        (k : ℕ) → k < nslots → slot ip s k ≢ 0 → (start ≤ slot ip s k) × (slot ip s k < sb.size)
    pub taken : (k : ℕ) → k < nslots → slot ip s k ≢ 0 → used sb s (slot ip s k) ≢ 0
    pub apart :
        (j k : ℕ) → j < nslots → k < nslots → slot ip s j ≢ 0 → slot ip s j ≡ slot ip s k → j ≡ k

  -- Slot `k`, empty before, got block `a`, free before.
  pub record Grown (k a : ℕ) (ip : Inode) (s : Blocks) (ip' : Inode) (s' : Blocks) : Type 0 where
    pub empty : slot ip s k ≡ 0
    pub was_free : used sb s a ≡ 0
    pub in_disk : a < sb.size
    pub same_size : ip'.size ≡ ip.size
    pub is_map : IsMap sb start s'
    pub slots : (j : ℕ) → j < nslots → slot ip' s' j ≡ (if j == k then a else slot ip s j)
    pub uses : (j : ℕ) → j < sb.size → used sb s' j ≡ (if j == a then 1 else used sb s j)
    pub rest : (b : ℕ) → start ≤ b → b ≢ a → b ≢ slot ip' s' 12 → s' b ≡ s b
    pub zeroed : k ≢ 12 → (o : ℕ) → s' a o ≡ 0

  pub start_pos : (s : Blocks) (a : ℕ) → IsMap sb start s → a < sb.size → 0 < start
  start_pos s a v h = omega (arith, v.below 0 (omega arith))

  pub Grown-Wf :
      (k a : ℕ) (ip : Inode) (s : Blocks) (ip' : Inode) (s' : Blocks)
      → Wf ip s
      → Grown k a ip s ip' s'
      → Wf ip' s'
  Grown-Wf k a ip s ip' s' w g =
      let low : start ≤ a = fresh sb start s a w.is_map g.was_free in
      let new : (j : ℕ) → j < nslots → j ≡ k → slot ip' s' j ≡ a =
        λ j l e. g.slots j l ∙ ground (arith, e) in
      let old : (j : ℕ) → j < nslots → j ≢ k → slot ip' s' j ≡ slot ip s j =
        λ j l ne. g.slots j l ∙ ground (arith, ne) in
      let now : used sb s' a ≡ 1 = g.uses a g.in_disk ∙ ground arith in
      let ne_a = λ (j : ℕ) (l : j < nslots) (nz : slot ip s j ≢ 0) (e : slot ip s j ≡ a).
        w.taken j l nz (ap (used sb s) e ∙ g.was_free) in
      record {
        is_map = g.is_map;
        inside = λ j l nz. elim (ℕ_discrete j k) [
          | yes e ↦ (omega (arith, new j l e), omega (arith, new j l e, g.in_disk))
          | no ne ↦
              let i = w.inside j l (λ z. nz (old j l ne ∙ z)) in
              (omega (arith, old j l ne, i.0), omega (arith, old j l ne, i.1))
        ];
        taken = λ j l nz z. elim (ℕ_discrete j k) [
          | yes e ↦ absurd (omega (arith, ap (used sb s') (sym (new j l e)) ∙ z, now))
          | no ne ↦
              let nz₁ : slot ip s j ≢ 0 = λ q. nz (old j l ne ∙ q) in
              let i = w.inside j l nz₁ in
              let u : used sb s' (slot ip s j) ≡ used sb s (slot ip s j) =
                g.uses (slot ip s j) i.1 ∙ ground (arith, ne_a j l nz₁) in
              w.taken j l nz₁ (sym u ∙ ap (used sb s') (sym (old j l ne)) ∙ z)
        ];
        apart = λ i j hi hj nz e. elim (ℕ_discrete i k) [
          | yes p ↦ elim (ℕ_discrete j k) [
            | yes q ↦ p ∙ sym q
            | no q ↦
                absurd
                  (ne_a j hj (λ z. nz (e ∙ old j hj q ∙ z)) (sym (old j hj q) ∙ sym e ∙ new i hi p))
          ]
          | no p ↦ elim (ℕ_discrete j k) [
            | yes q ↦
                absurd (ne_a i hi (λ z. nz (old i hi p ∙ z)) (sym (old i hi p) ∙ e ∙ new j hj q))
            | no q ↦
                w.apart i j hi hj (λ z. nz (old i hi p ∙ z)) (sym (old i hi p) ∙ e ∙ old j hj q)
          ]
        ];
      }

  pub Grown-content :
      (k a : ℕ) (ip : Inode) (s : Blocks) (ip' : Inode) (s' : Blocks)
      → Wf ip s
      → Grown k a ip s ip' s'
      → (off : ℕ) → off < 71680
      → content ip' s' off ≡ content ip s off
  unfolding content
  Grown-content k a ip s ip' s' w g off h =
      let i : ℕ = index (off / bsize) in
      let l : i < nslots = index_lt (off / bsize) (omega arith) in
      let w' : Wf ip' s' = Grown-Wf k a ip s ip' s' w g in
      elim (ℕ_discrete i k) [
        | yes e ↦
            let new : slot ip' s' i ≡ a = g.slots i l ∙ ground (arith, e) in
            let was : slot ip s i ≡ 0 = ap (slot ip s) e ∙ g.empty in
            let zero_byte : s' (slot ip' s' i) (off % bsize) ≡ 0 =
              ap (λ b. s' b (off % bsize)) new
              ∙ g.zeroed (λ q. index_ne (off / bsize) (e ∙ q)) (off % bsize) in
            ground (arith, was, zero_byte)
        | no ne ↦
            let old : slot ip' s' i ≡ slot ip s i = g.slots i l ∙ ground (arith, ne) in
            elim (ℕ_discrete (slot ip s i) 0) [
              | yes z ↦ ground (arith, z, old ∙ z)
              | no nz ↦
                  let n12 : slot ip s i ≢ slot ip' s' 12 = λ q.
                    index_ne (off / bsize)
                      (w'.apart i 12 l (omega arith) (λ z. nz (sym old ∙ z)) (old ∙ q)) in
                  let na : slot ip s i ≢ a = λ q. w.taken i l nz (ap (used sb s) q ∙ g.was_free) in
                  let block : s' (slot ip' s' i) ≡ s (slot ip s i) =
                    ap s' old ∙ g.rest (slot ip s i) (w.inside i l nz).0 na n12 in
                  let nz' : slot ip' s' i ≢ 0 = λ z. nz (sym old ∙ z) in
                  let byte : s' (slot ip' s' i) (off % bsize) ≡ s (slot ip s i) (off % bsize) =
                    ap (λ f. f (off % bsize)) block in
                  ground (arith, byte, nz, nz')
            ]
      ]

  pub Grown-free :
      (k a : ℕ) (ip : Inode) (s : Blocks) (ip' : Inode) (s' : Blocks)
      → Grown k a ip s ip' s'
      → free sb sb.size s ≡ free sb sb.size s' + 1
  Grown-free k a ip s ip' s' g =
      ground (arith, free-less sb sb.size s s' a g.was_free g.uses, g.in_disk)
