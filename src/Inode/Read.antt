-- ===== src/Inode/Read.antt =====
-- readi of a file.
use modificacion_sistema_ope.Base.{
  ℕ, zero, suc, ◌+◌, ◌-◌, ◌/◌, ◌%◌, ◌^◌, min, ◌<◌, ◌≤◌, ◌≡◌, ◌≢◌, arith, ap, ◌∙◌, ◌&&◌, some, ltb,
  leb, if◌then◌else◌, dec_lt,
}
use modificacion_sistema_ope.Inode.Defs.{
  Superblock, Blocks, Inode, ran, bsize, moved, bmap, readi_from, readi,
}
use modificacion_sistema_ope.Inode.Slots.{slot, index, content}
use modificacion_sistema_ope.Inode.Bmap.{bmap_same}
use modificacion_sistema_ope.Inode.Store.{content_at}

-- The blocks of the bytes from `off` on, `k` of them, have addresses.
abbrev pub Mapped : Inode → Blocks → ℕ → ℕ → Type 0
Mapped ip s off k = (o : ℕ) → off ≤ o → o < off + k → slot ip s (index (o / bsize)) ≢ 0

module _ (sb : Superblock) where
  readi_from_lem :
      (fuel : ℕ) (ip : Inode) (dst : ℕ → ℕ) (off tot n : ℕ) (s : Blocks)
      → tot ≤ n
      → n - tot < fuel
      → off + (n - tot) ≤ 71680
      → Mapped ip s off (n - tot)
      → (d : ℕ → ℕ) × (readi_from sb fuel ip dst off tot n s ≡ ran (d, ip, s))
        × ((j : ℕ) → d j ≡ (if leb tot j && ltb j n then content ip s (off + (j - tot)) else dst j))
  unfolding readi_from
  readi_from_lem zero ip dst off tot n s l f b mapped = absurd (omega arith)
  readi_from_lem (suc fuel) ip dst off tot n s l f b mapped = elim (dec_lt tot n) [
    | no end ↦ (dst, ground (arith, end), λ j. ground (arith, end))
    | yes more ↦
        let m : ℕ = min (n - tot) (bsize - off % bsize) in
        let a : ℕ = slot ip s (index (off / bsize)) in
        let nz : a ≢ 0 = mapped off (omega arith) (omega arith) in
        let dst' : ℕ → ℕ = moved dst tot (s a) (off % bsize) m in
        let e : bmap sb ip (off / bsize) s ≡ ran (a, ip, s) =
          bmap_same sb ip (off / bsize) s (omega arith) nz in
        let next : readi_from sb (suc fuel) ip dst off tot n s
            ≡ readi_from sb fuel ip dst' (off + m) (tot + m) n s =
          ground (arith, more, e) in
        let ih =
          readi_from_lem fuel ip dst' (off + m) (tot + m) n s (omega arith) (omega arith)
            (omega arith) (λ o lo hi. mapped o (omega arith) (omega arith)) in
        (
          ih.0,
          next ∙ ih.1,
          λ j. elim (dec_lt j tot) [
            | yes before ↦ ih.2 j ∙ ground (arith, before)
            | no after ↦ elim (dec_lt j (tot + m)) [
              | yes now ↦
                  let byte : content ip s (off + (j - tot)) ≡ s a (off % bsize + (j - tot)) =
                    content_at ip s off (j - tot) nz (omega (arith, now, after)) in
                  ih.2 j ∙ ground (arith, after, now, byte)
              | no later ↦
                  let same : off + m + (j - (tot + m)) ≡ off + (j - tot) = omega (arith, later) in
                  ih.2 j ∙ ground (arith, after, later, ap (content ip s) same)
            ]
          ],
        )
  ]

  -- readi inside a file whose blocks all have addresses: the bytes up to the file's end, and
  -- nothing changes.
  pub readi_lem :
      (ip : Inode) (dst : ℕ → ℕ) (off n : ℕ) (s : Blocks)
      → off ≤ ip.size
      → off + n < 2 ^ 32
      → ip.size ≤ 71680
      → Mapped ip s 0 ip.size
      → (d : ℕ → ℕ) × (readi sb ip dst off n s ≡ ran (some (min n (ip.size - off)), d, ip, s))
        × ((j : ℕ)
            → d j ≡ (if ltb j (min n (ip.size - off)) then content ip s (off + j) else dst j))
  unfolding readi
  readi_lem ip dst off n s ho hn hs mapped =
      let m : ℕ = min n (ip.size - off) in
      let count : (if ltb ip.size ((off + n) % 2 ^ 32) then ip.size - off else n) ≡ m =
        ground (arith, hn) in
      let loop =
        readi_from_lem (m + 1) ip dst off 0 m s (omega arith) (omega arith) (omega arith)
          (λ o lo hi. mapped o (omega arith) (omega arith)) in
      (loop.0, ground (arith, loop.1, count, hn), λ j. loop.2 j ∙ ground arith)
