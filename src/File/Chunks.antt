-- ===== src/File/Chunks.antt =====
-- filewrite in pieces that fit a transaction writes what one writei would.
use modificacion_sistema_ope.Base.{
  ℕ, zero, suc, ◌+◌, ◌-◌, ◌*◌, ◌/◌, ◌^◌, min, max, ◌<◌, ◌≤◌, ◌≡◌, arith, sym, ap, ap₂, ◌∙◌, subst,
  true, ◌&&◌, Option, some, ltb, leb, if◌then◌else◌, dec_lt, List, [], ◌∷◌,
}
use modificacion_sistema_ope.Inode.{Superblock, Blocks, Inode, Ran, ran}
use modificacion_sistema_ope.Inode.Alloc.{free}
use modificacion_sistema_ope.Inode.Slots.{content, Wf}
use modificacion_sistema_ope.Inode.Bmap.{need}
use modificacion_sistema_ope.Inode.Read.{Mapped, readi_lem}
use modificacion_sistema_ope.Inode.Wrote.{touched}
use modificacion_sistema_ope.Inode.Write.{writei_lem}
use modificacion_sistema_ope.File.Defs.{fd_inode, File}
use modificacion_sistema_ope.File.Io.{max_write, filewrite_from, filewrite, fileread}

-- Each piece is at most 1536 bytes, and none is empty.
abbrev pub Fit : List ℕ → Type 0
Fit [] = Unit
Fit (x ∷ xs) = (0 < x) × (x ≤ 1536) × Fit xs

abbrev pub total : List ℕ → ℕ
total [] = 0
total (x ∷ xs) = x + total xs

-- Blocks enough for `n` bytes in pieces: each touches at most four.
abbrev pub enough : ℕ → ℕ
enough n = 4 * ((n + 1535) / 1536)

touched_four : (off n : ℕ) → n ≤ 1536 → touched off n ≤ 4
touched_four off n h = ground (arith, h)

nothing : (o off end x y : ℕ) → end ≡ off → y ≡ (if leb off o && ltb o end then x else y)
nothing o off end x y e = ground (arith, e)

module _ (sb : Superblock) (start : ℕ) where
  -- `k` bytes of `src` from the file's offset on were written, in pieces that fit and make up the
  -- `k` bytes with the pieces `done`, and the offset moved past them.
  abbrev pub Stores :
      ℕ
      → ℕ
      → List ℕ
      → (ℕ → ℕ)
      → File
      → Inode
      → Blocks
      → Ran (Option ℕ × List ℕ × File × Inode × Blocks)
      → Type 0
  Stores n k done src f ip s r =
      (ip' : Inode) × (s' : Blocks) × (pieces : List ℕ) × (r
        ≡ ran (some n, pieces, record f { off = f.off + k }, ip', s'))
      × Fit pieces
      × (total pieces ≡ total done + k)
      × Wf sb start ip' s'
      × (ip'.size ≡ max ip.size (f.off + k))
      × Mapped ip' s' 0 ip'.size
      × ((o : ℕ)
          → o < 71680
          → content ip' s' o
            ≡ (if leb f.off o && ltb o (f.off + k) then src (o - f.off) else content ip s o))

  filewrite_from-Stores :
      (fuel : ℕ) (done : List ℕ) (f : File) (ip : Inode) (addr : ℕ → ℕ) (i n : ℕ) (s : Blocks)
      → Fit done
      → i ≤ n
      → n - i < fuel
      → Wf sb start ip s
      → Mapped ip s 0 ip.size
      → sb.size ≤ 4294967296
      → f.off ≤ ip.size
      → ip.size ≤ 71680
      → f.off + (n - i) ≤ 71680
      → need ip + enough (n - i) ≤ free sb sb.size s
      → Stores n
          (n - i)
          done
          (λ j. addr (i + j))
          f
          ip
          s
          (filewrite_from sb fuel done f ip addr i n s)
  unfolding filewrite_from
  filewrite_from-Stores zero done f ip addr i n s fit l fu w m big ho hs hn room =
      absurd (omega arith)
  filewrite_from-Stores (suc fuel) done f ip addr i n s fit l fu w m big ho hs hn room =
      elim (dec_lt i n) [
        | no end ↦
            let none_left : f.off + (n - i) ≡ f.off = omega (arith, end) in
            let stops : filewrite_from sb (suc fuel) done f ip addr i n s
                ≡ ran (some n, done, f, ip, s) =
              ground (arith, end, l) in
            (
              ip,
              s,
              done,
              stops ∙ ap (λ x. ran (some n, done, record f { off = x }, ip, s)) (sym none_left),
              fit,
              omega (arith, end, l),
              w,
              omega (arith, none_left, ho),
              m,
              λ o h.
                  nothing o (f.off) (f.off + (n - i)) (addr (i + (o - f.off))) (content ip s o)
                    none_left,
            )
        | yes more ↦
            let n1 : ℕ = min (n - i) max_write in
            let k : ℕ = n - (i + n1) in
            let (ip₁, s₁, e, w₁, size, m₁, left, bytes) =
              writei_lem sb start ip (λ j. addr (i + j)) f.off n1 s w m big ho hs (omega arith)
                (omega (arith, room, more, touched_four f.off n1 (omega arith))) in
            let f₁ : File = record f { off = f.off + n1 } in
            let (ip₂, s₂, pieces, e₂, fit₂, whole, w₂, size₂, m₂, bytes₂) =
              filewrite_from-Stores fuel (n1 ∷ done) f₁ ip₁ addr (i + n1) n s₁
                (omega (arith, more), omega arith, fit) (omega arith) (omega arith) w₁ m₁ big
                (omega (arith, size)) (omega (arith, size)) (omega arith)
                (omega (arith, room, more, left, touched_four f.off n1 (omega arith))) in
            let next : filewrite_from sb (suc fuel) done f ip addr i n s
                ≡ filewrite_from sb fuel (n1 ∷ done) f₁ ip₁ addr (i + n1) n s₁ =
              ground (arith, more, e) in
            let all : f.off + n1 + k ≡ f.off + (n - i) = omega arith in
            (
              ip₂,
              s₂,
              pieces,
              next ∙ e₂ ∙ ap (λ x. ran (some n, pieces, record f { off = x }, ip₂, s₂)) all,
              fit₂,
              omega (arith, whole, more),
              w₂,
              omega (arith, size, size₂, all),
              m₂,
              λ o h. elim (dec_lt o (f.off + n1)) [
                | yes low ↦ bytes₂ o h ∙ ground (arith, low, bytes o h, all)
                | no high ↦
                    let j : i + n1 + (o - (f.off + n1)) ≡ i + (o - f.off) = omega (arith, high) in
                    bytes₂ o h ∙ ground (arith, high, bytes o h, ap addr j, all)
              ],
            )
      ]

  -- filewrite of n bytes to a file opened for writing on a well-formed inode without holes, at an
  -- offset inside it, up to MAXFILE blocks and with enough free blocks, returns n and stores the
  -- bytes in pieces of 1 to 1536 bytes, a transaction each, which add up to n; every other byte
  -- stays, the offset moves past the bytes, and the size is the larger of the old one and the new
  -- offset.
  pub filewrite-Stores :
      (piped : Option ℕ) (f : File) (ip : Inode) (addr : ℕ → ℕ) (n : ℕ) (s : Blocks)
      → f.kind ≡ fd_inode
      → f.writable ≡ true
      → Wf sb start ip s
      → Mapped ip s 0 ip.size
      → sb.size ≤ 4294967296
      → f.off ≤ ip.size
      → ip.size ≤ 71680
      → f.off + n ≤ 71680
      → need ip + enough n ≤ free sb sb.size s
      → Stores n n [] addr f ip s (filewrite sb piped f ip addr n s)
  unfolding filewrite
  filewrite-Stores piped f ip addr n s kind writable w m big ho hs hn room =
      let whole : n - 0 ≡ n = omega arith in
      let (ip', s', pieces, e, fit, sums, w', size, m', bytes) =
        filewrite_from-Stores (n + 1) [] f ip addr 0 n s tt (omega arith) (omega arith) w m big ho
          hs (omega (arith, hn))
          (subst (λ k. need ip + enough k ≤ free sb sb.size s) (sym whole) room) in
      let run : filewrite sb piped f ip addr n s ≡ filewrite_from sb (n + 1) [] f ip addr 0 n s =
        ground (arith, kind, writable) in
      (
        ip',
        s',
        pieces,
        run ∙ e ∙ ap (λ k. ran (some n, pieces, record f { off = f.off + k }, ip', s')) whole,
        fit,
        omega (arith, sums),
        w',
        omega (arith, size),
        m',
        λ o h.
            let from_0 : 0 + (o - f.off) ≡ o - f.off = omega arith in
            bytes o h
            ∙ ap₂ (λ (k x : ℕ). if leb f.off o && ltb o (f.off + k) then x else content ip s o)
                whole (ap addr from_0),
      )

  -- fileread of an inode's file: the bytes from the offset on, up to the file's end, and the offset
  -- moves past them.
  pub fileread_lem :
      (piped : Option ℕ) (f : File) (ip : Inode) (addr : ℕ → ℕ) (n : ℕ) (s : Blocks)
      → f.kind ≡ fd_inode
      → f.readable ≡ true
      → f.off ≤ ip.size
      → f.off + n < 2 ^ 32
      → ip.size ≤ 71680
      → Mapped ip s 0 ip.size
      → (d : ℕ → ℕ) × (fileread sb piped f ip addr n s
          ≡ ran (
            some (min n (ip.size - f.off)),
            d,
            record f { off = f.off + min n (ip.size - f.off) },
            ip,
            s,
          ))
        × ((j : ℕ)
            → d j ≡ (if ltb j (min n (ip.size - f.off)) then content ip s (f.off + j) else addr j))
  unfolding fileread
  fileread_lem piped f ip addr n s kind readable ho hn hs m =
      let (d, e, bytes) = readi_lem sb ip addr f.off n s ho hn hs m in
      (d, ground (arith, kind, readable, e), bytes)
