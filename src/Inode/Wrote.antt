-- ===== src/Inode/Wrote.antt =====
-- What rounds of writei's loop leave of a file.
use modificacion_sistema_ope.Base.{
  ℕ, ◌+◌, ◌-◌, ◌/◌, ◌%◌, ◌<◌, ◌≤◌, ◌≡◌, ◌≢◌, refl, arith, sym, ap, ap₂, ◌∙◌, Bool, true, false,
  ◌&&◌, update, ◌==◌, ltb, leb, if◌then◌else◌, ℕ_discrete, dec_lt,
}
use modificacion_sistema_ope.Inode.Defs.{Superblock, Blocks, Inode, bsize, moved}
use modificacion_sistema_ope.Inode.Alloc.{free}
use modificacion_sistema_ope.Inode.Slots.{nslots, slot, index, index_lt, content, Wf}
use modificacion_sistema_ope.Inode.Bmap.{need, Grows}
use modificacion_sistema_ope.Inode.Store.{store_slot, store-Wf, store-free, store_content}
use modificacion_sistema_ope.Inode.Read.{Mapped}

-- The blocks that `k` bytes from `off` on touch.
abbrev pub touched : ℕ → ℕ → ℕ
touched off k = if k == 0 then 0 else (off + k - 1) / bsize - off / bsize + 1

module _ (sb : Superblock) (start : ℕ) where
  -- The file after `k` bytes of `f` were written at `off`.
  pub record Wrote (off k : ℕ) (f : ℕ → ℕ) (ip : Inode) (s : Blocks) (ip' : Inode) (s' : Blocks)
      : Type 0 where
    pub wf : Wf sb start ip' s'
    pub same_size : ip'.size ≡ ip.size
    pub bytes :
        (o : ℕ)
        → o < 71680
        → content ip' s' o ≡ (if leb off o && ltb o (off + k) then f (o - off) else content ip s o)
    pub stay : (j : ℕ) → j < nslots → slot ip s j ≢ 0 → slot ip' s' j ≢ 0
    pub mapped : Mapped ip' s' off k
    pub room : free sb sb.size s + need ip' ≤ free sb sb.size s' + need ip + touched off k

  -- One round: bmap's block, and the bytes copied into it.
  pub round_Wrote :
      (off m : ℕ) (src : ℕ → ℕ) (tot : ℕ) (ip : Inode) (s : Blocks) (ip' : Inode) (s' : Blocks)
      → off < 71680
      → 0 < m
      → off % bsize + m ≤ bsize
      → Grows sb start 1 ip s ip' s'
      → slot ip' s' (index (off / bsize)) ≢ 0
      → Wrote off m
          (λ i. src (tot + i))
          ip
          s
          ip'
          (update s'
            (slot ip' s' (index (off / bsize)))
            (moved (s' (slot ip' s' (index (off / bsize)))) (off % bsize) src tot m))
  unfolding content
  round_Wrote off m src tot ip s ip' s' l pos hm g nz =
      let a : ℕ = slot ip' s' (index (off / bsize)) in
      let b : ℕ → ℕ = moved (s' a) (off % bsize) src tot m in
      record {
        wf = store-Wf sb start ip' s' g.wf (off / bsize) (omega arith) nz b;
        same_size = g.same_size;
        bytes = λ o ho.
            let new : content ip' (update s' a b) o
                ≡ (if o / bsize == off / bsize then b (o % bsize) else content ip' s' o) =
              store_content sb start ip' s' g.wf (off / bsize) (omega arith) nz b o ho in
            elim (ℕ_discrete (o / bsize) (off / bsize)) [
              | no far ↦
                  let out : (leb off o && ltb o (off + m)) ≡ false = ground (arith, far, hm) in
                  let differs : (o / bsize == off / bsize) ≡ false = ground (arith, far) in
                  new
                  ∙ ap (λ (t : Bool). if t then b (o % bsize) else content ip' s' o) differs
                  ∙ g.same o ho
                  ∙ ap (λ (t : Bool). if t then src (tot + (o - off)) else content ip s o) (sym out)
              | yes near ↦
                  let here : slot ip' s' (index (o / bsize)) ≡ a =
                    ap (λ x. slot ip' s' (index x)) near in
                  let n : slot ip' s' (index (o / bsize)) ≢ 0 = λ z. nz (sym here ∙ z) in
                  let old : content ip' s' o ≡ s' a (o % bsize) =
                    (let q : content ip' s' o ≡ s' (slot ip' s' (index (o / bsize))) (o % bsize) =
                        ground (arith, n) in
                      q ∙ ap (λ x. s' x (o % bsize)) here) in
                  let at : leb (off % bsize) (o % bsize) ≡ leb off o = ground (arith, near) in
                  let up_to : ltb (o % bsize) (off % bsize + m) ≡ ltb o (off + m) =
                    ground (arith, near) in
                  let index_same : o % bsize - off % bsize ≡ o - off = omega (arith, near) in
                  let in_range : (leb (off % bsize) (o % bsize)
                        && ltb (o % bsize) (off % bsize + m))
                      ≡ (leb off o && ltb o (off + m)) =
                    ap₂ (λ (x y : Bool). x && y) at up_to in
                  let equal : (o / bsize == off / bsize) ≡ true = ground (arith, near) in
                  new
                  ∙ ap (λ (t : Bool). if t then b (o % bsize) else content ip' s' o) equal
                  ∙ ap₂ (λ (t : Bool) (x : ℕ). if t then x else s' a (o % bsize)) in_range
                      (ap (λ i. src (tot + i)) index_same)
                  ∙ ap
                      (λ (x : ℕ). if leb off o && ltb o (off + m) then src (tot + (o - off)) else x)
                      (sym old ∙ g.same o ho)
            ];
        stay = λ j hj n z. n (
            sym (g.stay j hj n)
            ∙ sym (store_slot sb start ip' s' g.wf (off / bsize) (omega arith) nz b j)
            ∙ z);
        mapped = λ o lo hi z.
            let q : o / bsize ≡ off / bsize = omega arith in
            nz (
              sym (
                store_slot sb start ip' s' g.wf (off / bsize) (omega arith) nz b
                  (index (off / bsize)))
              ∙ ap (λ x. slot ip' (update s' a b) (index x)) (sym q)
              ∙ z);
        room =
            (let one : touched off m ≡ 1 = ground (arith, pos, hm) in
              omega (
                arith,
                one,
                g.room,
                store-free sb start ip' s' g.wf (off / bsize) (omega arith) nz b,
              ));
      }

  -- A round and the rest.
  pub Wrote-trans :
      (off m k : ℕ) (src : ℕ → ℕ) (tot : ℕ) (ip : Inode) (s : Blocks) (ip₁ : Inode) (s₁ : Blocks)
      (ip₂ : Inode) (s₂ : Blocks)
      → off + (m + k) ≤ 71680
      → touched off m + touched (off + m) k ≤ touched off (m + k)
      → Wrote off m (λ i. src (tot + i)) ip s ip₁ s₁
      → Wrote (off + m) k (λ i. src (tot + m + i)) ip₁ s₁ ip₂ s₂
      → Wrote off (m + k) (λ i. src (tot + i)) ip s ip₂ s₂
  Wrote-trans off m k src tot ip s ip₁ s₁ ip₂ s₂ l blocks g h = record {
    room = omega (arith, g.room, h.room, blocks);
    wf = h.wf;
    same_size = h.same_size ∙ g.same_size;
    bytes = λ o ho. elim (dec_lt o (off + m)) [
      | yes low ↦ h.bytes o ho ∙ ground (arith, low, g.bytes o ho)
      | no high ↦
          let i : tot + m + (o - (off + m)) ≡ tot + (o - off) = omega (arith, high) in
          h.bytes o ho ∙ ground (arith, high, g.bytes o ho, ap src i)
    ];
    stay = λ j hj n. h.stay j hj (g.stay j hj n);
    mapped = λ o lo hi. elim (dec_lt o (off + m)) [
      | yes low ↦
          h.stay (index (o / bsize)) (index_lt (o / bsize) (omega arith)) (g.mapped o lo low)
      | no high ↦ h.mapped o (omega arith) (omega arith)
    ];
  }

  pub Wrote-none :
      (off : ℕ) (f : ℕ → ℕ) (ip : Inode) (s : Blocks) → Wf sb start ip s → Wrote off 0 f ip s ip s
  Wrote-none off f ip s w = record {
    room = omega arith;
    wf = w;
    same_size = refl;
    bytes = λ o ho. ground arith;
    stay = λ j hj n. n;
    mapped = λ o lo hi. absurd (omega arith);
  }
