-- ===== src/Inode/WriteLoop.antt =====
-- The loop of writei in xv6-public/fs.c.
use modificacion_sistema_ope.Base.{
  ℕ, zero, suc, ◌+◌, ◌-◌, ◌/◌, ◌%◌, min, ◌<◌, ◌≤◌, ◌≡◌, ◌≢◌, inl, inr, arith, sym, ap, ◌∙◌, subst,
  update, dec_lt, fun_ext,
}
use modificacion_sistema_ope.Inode.Defs.{
  Superblock, Blocks, Inode, ran, bsize, moved, bmap, writei_from,
}
use modificacion_sistema_ope.Inode.Alloc.{free}
use modificacion_sistema_ope.Inode.Slots.{slot, index, Wf}
use modificacion_sistema_ope.Inode.Bmap.{need, bmap-Maps}
use modificacion_sistema_ope.Inode.Store.{store-free}
use modificacion_sistema_ope.Inode.Wrote.{touched, Wrote, round_Wrote, Wrote-trans, Wrote-none}

module _ (sb : Superblock) (start : ℕ) where
  writei_from_lem :
      (fuel : ℕ) (ip : Inode) (src : ℕ → ℕ) (off tot n : ℕ) (s : Blocks)
      → Wf sb start ip s
      → sb.size ≤ 4294967296
      → tot ≤ n
      → n - tot < fuel
      → off + (n - tot) ≤ 71680
      → need ip + touched off (n - tot) ≤ free sb sb.size s
      → (ip' : Inode) × (s' : Blocks) × (writei_from sb fuel ip src off tot n s
          ≡ ran (off + (n - tot), ip', s'))
        × Wrote sb start off (n - tot) (λ i. src (tot + i)) ip s ip' s'
  unfolding writei_from
  writei_from_lem zero ip src off tot n s w big l f b room = absurd (omega arith)
  writei_from_lem (suc fuel) ip src off tot n s w big l f b room = elim (dec_lt tot n) [
    | no end ↦
        let none_left : n - tot ≡ 0 = omega (arith, end) in
        (
          ip,
          s,
          ground (arith, end),
          subst (λ k. Wrote sb start off k (λ i. src (tot + i)) ip s ip s) (sym none_left)
              (Wrote-none sb start off (λ i. src (tot + i)) ip s w),
        )
    | yes more ↦ elim (bmap-Maps sb start ip (off / bsize) s w (omega arith) big) [
      | inr (e, full) ↦ absurd (ground (arith, more, full, room))
      | inl (a, ip₁, s₁, e, g, at, na) ↦
          let m : ℕ = min (n - tot) (bsize - off % bsize) in
          let a' : ℕ = slot ip₁ s₁ (index (off / bsize)) in
          let nz : a' ≢ 0 = λ z. na (sym at ∙ z) in
          let e' : bmap sb ip (off / bsize) s ≡ ran (a', ip₁, s₁) =
            e ∙ ap (λ x. ran (x, ip₁, s₁)) (sym at) in
          let b' : ℕ → ℕ = moved (s₁ a') (off % bsize) src tot m in
          let s₂ : Blocks = update s₁ a' b' in
          let next : writei_from sb (suc fuel) ip src off tot n s
              ≡ writei_from sb fuel ip₁ src (off + m) (tot + m) n s₂ =
            ground (arith, more, e') in
          let first : Wrote sb start off m (λ i. src (tot + i)) ip s ip₁ s₂ =
            round_Wrote sb start off m src tot ip s ip₁ s₁ (omega arith) (omega arith) (omega arith)
              g nz in
          let fr : free sb sb.size s₂ ≡ free sb sb.size s₁ =
            store-free sb start ip₁ s₁ g.wf (off / bsize) (omega arith) nz b' in
          let less : 1 + touched (off + m) (n - (tot + m)) ≤ touched off (n - tot) =
            ground (arith, more, b) in
          let (ip₂, s₃, e₂, g₂) =
            writei_from_lem fuel ip₁ src (off + m) (tot + m) n s₂ first.wf big (omega arith)
              (omega arith) (omega arith) (omega (arith, room, fr, g.room, less)) in
          let blocks : touched off m + touched (off + m) (n - (tot + m))
              ≤ touched off (m + (n - (tot + m))) =
            ground (arith, more, b) in
          let last : off + m + (n - (tot + m)) ≡ off + (n - tot) = omega arith in
          let all : m + (n - (tot + m)) ≡ n - tot = omega arith in
          (
            ip₂,
            s₃,
            next ∙ e₂ ∙ ap (λ x. ran (x, ip₂, s₃)) last,
            subst (λ k. Wrote sb start off k (λ i. src (tot + i)) ip s ip₂ s₃) all
                (Wrote-trans sb start off m (n - (tot + m)) src tot ip s ip₁ s₂ ip₂ s₃ (omega arith)
                  blocks first g₂),
          )
    ]
  ]

  pub writei_loop :
      (ip : Inode) (src : ℕ → ℕ) (off n : ℕ) (s : Blocks)
      → Wf sb start ip s
      → sb.size ≤ 4294967296
      → off + n ≤ 71680
      → need ip + touched off n ≤ free sb sb.size s
      → (ip' : Inode) × (s' : Blocks) × (writei_from sb (n + 1) ip src off 0 n s
          ≡ ran (off + n, ip', s'))
        × Wrote sb start off n src ip s ip' s'
  writei_loop ip src off n s w big h room =
      let whole : n - 0 ≡ n = omega arith in
      let from_0 : (λ i. src (0 + i)) ≡ src = fun_ext (λ i. ap src (omega arith)) in
      let room' : need ip + touched off (n - 0) ≤ free sb sb.size s =
        subst (λ k. need ip + touched off k ≤ free sb sb.size s) (sym whole) room in
      let (ip', s', e, g) =
        writei_from_lem (n + 1) ip src off 0 n s w big (omega arith) (omega arith) (omega arith)
          room' in
      (
        ip',
        s',
        e ∙ ap (λ k. ran (off + k, ip', s')) whole,
        subst (λ f. Wrote sb start off n f ip s ip' s') from_0
            (subst (λ k. Wrote sb start off k (λ i. src (0 + i)) ip s ip' s') whole g),
      )
