-- ===== src/Inode/Write.antt =====
-- writei of a file.
use modificacion_sistema_ope.Base.{
  ℕ, ◌+◌, ◌-◌, ◌/◌, ◌%◌, ◌^◌, min, max, ◌<◌, ◌≤◌, ◌≡◌, ◌≢◌, ◌⊎◌, ◌↔◌, inl, inr, refl, arith, ap,
  ◌∙◌, ◌&&◌, Option, some, none, ltb, leb, if◌then◌else◌, dec_lt,
}
use modificacion_sistema_ope.Inode.Defs.{
  Superblock, Blocks, Inode, Ran, ran, panic, no_end, bsize, readi, writei_from, writei,
}
use modificacion_sistema_ope.Inode.Alloc.{free}
use modificacion_sistema_ope.Inode.Slots.{slot, index, index_lt, content, Wf}
use modificacion_sistema_ope.Inode.Bmap.{need}
use modificacion_sistema_ope.Inode.Read.{Mapped, readi_lem}
use modificacion_sistema_ope.Inode.Wrote.{touched}
use modificacion_sistema_ope.Inode.WriteLoop.{writei_loop}

module _ (sb : Superblock) (start : ℕ) where
  -- The size is not looked at.
  resize-Wf :
      (ip : Inode) (s : Blocks) (z : ℕ) → Wf sb start ip s → Wf sb start (record ip { size = z }) s
  unfolding slot
  resize-Wf ip s z w = record {
    is_map = w.is_map;
    inside = w.inside;
    taken = w.taken;
    apart = w.apart;
  }

  resize_slot :
      (ip : Inode) (s : Blocks) (z k : ℕ) → slot ip s k ≢ 0 → slot (record ip { size = z }) s k ≢ 0
  unfolding slot
  resize_slot ip s z k n = n

  resize_content :
      (ip : Inode) (s : Blocks) (z o : ℕ) → content (record ip { size = z }) s o ≡ content ip s o
  unfolding content slot
  resize_content ip s z o = refl

  -- The file after writei: the bytes written, the rest as it was, and the size.
  abbrev pub Written : ℕ → ℕ → (ℕ → ℕ) → Inode → Blocks → Ran (Option ℕ × Inode × Blocks) → Type 0
  Written off n src ip s r =
      (ip' : Inode) × (s' : Blocks) × (r ≡ ran (some n, ip', s'))
      × Wf sb start ip' s'
      × (ip'.size ≡ max ip.size (off + n))
      × Mapped ip' s' 0 ip'.size
      × (free sb sb.size s + need ip' ≤ free sb sb.size s' + need ip + touched off n)
      × ((o : ℕ)
          → o < 71680
          → content ip' s' o
            ≡ (if leb off o && ltb o (off + n) then src (o - off) else content ip s o))

  -- On a well-formed file without holes and with enough free blocks, writei at an offset inside it,
  -- up to MAXFILE blocks, returns n, stores the n bytes there, leaves every other byte of the file
  -- as it was, makes the size the larger of the old one and the end of the write, takes no more
  -- free blocks than the bytes touch and an indirect block, and keeps the file well formed and
  -- without holes.
  pub writei_lem :
      (ip : Inode) (src : ℕ → ℕ) (off n : ℕ) (s : Blocks)
      → Wf sb start ip s
      → Mapped ip s 0 ip.size
      → sb.size ≤ 4294967296
      → off ≤ ip.size
      → ip.size ≤ 71680
      → off + n ≤ 71680
      → need ip + touched off n ≤ free sb sb.size s
      → Written off n src ip s (writei sb ip src off n s)
  unfolding writei
  writei_lem ip src off n s w old big l hs h room =
      let (ip₁, s₁, e, g) = writei_loop sb start ip src off n s w big h room in
      let ip' : Inode = record ip₁ { size = max ip.size (off + n) } in
      let kept : ¬ ip₁.size < off + n → ip₁ ≡ ip' =
        λ le. ap (λ z. record ip₁ { size = z }) (omega (arith, le, g.same_size)) in
      let grown : ip₁.size < off + n → record ip₁ { size = off + n } ≡ ip' =
        λ lt. ap (λ z. record ip₁ { size = z }) (omega (arith, lt, g.same_size)) in
      let result : (if ltb 0 n && ltb ip₁.size (off + n)
            then record ip₁ { size = off + n }
            else ip₁)
          ≡ ip' =
        elim (dec_lt ip₁.size (off + n)) [
          | yes lt ↦ ground (arith, lt, grown lt, l, g.same_size)
          | no le ↦ ground (arith, le, kept le)
        ] in
      (
        ip',
        s₁,
        ground (arith, l, h, e, result),
        resize-Wf ip₁ s₁ (max ip.size (off + n)) g.wf,
        refl,
        λ o lo hi. elim (dec_lt o ip.size) [
          | yes inside ↦ resize_slot ip₁ s₁ (max ip.size (off + n)) (index (o / bsize)) (
              g.stay (index (o / bsize)) (index_lt (o / bsize) (omega arith))
                (old o (omega arith) (omega arith)))
          | no new ↦
              resize_slot ip₁ s₁ (max ip.size (off + n)) (index (o / bsize))
                (g.mapped o (omega arith) (omega arith))
        ],
        g.room,
        λ o ho. resize_content ip₁ s₁ (max ip.size (off + n)) o ∙ g.bytes o ho,
      )

  -- What readi gives for `n` bytes at `off` after writei wrote `src` there.
  abbrev pub ReadsBack : ℕ → ℕ → (ℕ → ℕ) → (ℕ → ℕ) → Inode → Blocks → Type 0
  ReadsBack off n src dst ip s =
      (ip' : Inode) × (s' : Blocks) × (d : ℕ → ℕ) × (writei sb ip src off n s
        ≡ ran (some n, ip', s'))
      × (readi sb ip' dst off n s' ≡ ran (some n, d, ip', s'))
      × ((j : ℕ) → d j ≡ (if ltb j n then src j else dst j))

  -- On a well-formed file without holes and with enough free blocks, writei of n bytes at an offset
  -- inside the file, up to MAXFILE blocks, returns n, and readi of n bytes there then returns n and
  -- exactly those bytes.
  pub readi-writei :
      (ip : Inode) (src dst : ℕ → ℕ) (off n : ℕ) (s : Blocks)
      → Wf sb start ip s
      → Mapped ip s 0 ip.size
      → sb.size ≤ 4294967296
      → off ≤ ip.size
      → ip.size ≤ 71680
      → off + n ≤ 71680
      → need ip + touched off n ≤ free sb sb.size s
      → ReadsBack off n src dst ip s
  readi-writei ip src dst off n s w old big l hs h room =
      let (ip', s', e, w', size, mapped, left, bytes) =
        writei_lem ip src off n s w old big l hs h room in
      let (d, q, read) =
        readi_lem sb ip' dst off n s' (omega (arith, size)) (omega (arith, h)) (omega (arith, size))
          mapped in
      let all : min n (ip'.size - off) ≡ n = omega (arith, size) in
      (
        ip',
        s',
        d,
        e,
        q ∙ ap (λ k. ran (some k, d, ip', s')) all,
        λ j.
            read j
            ∙ ap (λ (k : ℕ). if ltb j k then content ip' s' (off + j) else dst j) all
            ∙ elim (dec_lt j n) [
              | yes lt ↦
                  let here : off + j - off ≡ j = omega arith in
                  ground (arith, lt, bytes (off + j) (omega arith), ap src here)
              | no ge ↦ ground (arith, ge)
            ],
      )

Ran-cases :
    (r : Ran (ℕ × Inode × Blocks))
    → ((k : ℕ) × (ip : Inode) × (s : Blocks) × (r ≡ ran (k, ip, s))) ⊎ (r ≡ panic) ⊎ (r ≡ no_end)
Ran-cases (ran (k, ip, s)) = inl (k, ip, s, refl)
Ran-cases panic = inr (inl refl)
Ran-cases no_end = inr (inr refl)

module _ (sb : Superblock) where
  -- writei of a file fails and changes nothing exactly if the offset is past the end of the file or
  -- the write would end past MAXFILE blocks, also where the sum of the two wraps.
  pub writei-none_iff :
      (ip : Inode) (src : ℕ → ℕ) (off n : ℕ) (s : Blocks)
      → off < 2 ^ 32
      → n < 2 ^ 32
      → (writei sb ip src off n s ≡ ran (none, ip, s)) ↔ ((ip.size < off) ⊎ (71680 < off + n))
  unfolding writei
  writei-none_iff ip src off n s ho hn = (
    (λ e. elim (dec_lt ip.size off) [
      | yes y ↦ inl y
      | no n₁ ↦ elim (dec_lt 71680 (off + n)) [
        | yes y ↦ inr y
        | no n₂ ↦
            let goes : (off + n) % 2 ^ 32 ≡ off + n = omega (arith, n₂) in
            elim (Ran-cases (writei_from sb (n + 1) ip src off 0 n s)) [
              | inl (end, ip₁, s₁, q) ↦ absurd (ground (arith, e, n₁, n₂, goes, q))
              | inr (inl q) ↦ absurd (ground (arith, e, n₁, n₂, goes, q))
              | inr (inr q) ↦ absurd (ground (arith, e, n₁, n₂, goes, q))
            ]
      ]
    ]),
    (λ c. elim c [
      | inl y ↦ ground (arith, y)
      | inr y ↦ elim (dec_lt (off + n) (2 ^ 32)) [
        | yes fits ↦ ground (arith, y, fits)
        | no wraps ↦ ground (arith, y, wraps, hn, ho)
      ]
    ]),
  )
