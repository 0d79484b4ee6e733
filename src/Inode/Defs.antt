-- ===== src/Inode/Defs.antt =====
-- The superblock, inodes and the functions on a file's blocks of xv6-public/fs.c and fs.h. Blocks
-- are read and written through the buffer cache, in a transaction, so `bread` and `log_write`
-- give and change the block's bytes.
use modificacion_sistema_ope.Base.{
  ℕ, zero, suc, ◌+◌, ◌-◌, ◌*◌, ◌/◌, ◌%◌, ◌^◌, min, not, ◌&&◌, ◌||◌, Option, none, some, update,
  ◌==◌, ltb, leb, if◌then◌else◌,
}

abbrev pub bsize : ℕ
bsize = 512

-- BPB
abbrev pub bits_per_block : ℕ
bits_per_block = 4096

abbrev pub ndirect : ℕ
ndirect = 12

abbrev pub nindirect : ℕ
nindirect = 128

-- MAXFILE * BSIZE
abbrev pub max_bytes : ℕ
max_bytes = 71680

pub record Superblock : Type 0 where
  pub size : ℕ
  pub bmapstart : ℕ

-- The bytes of the blocks.
abbrev pub Blocks : Type 0
Blocks = ℕ → ℕ → ℕ

-- A file's size and block addresses; `addrs 12` is the indirect block.
pub record Inode : Type 0 where
  pub size : ℕ
  pub addrs : ℕ → ℕ

-- A block as the array of uint that bmap sees: the word at `k`, and the block with it set.
abbrev pub get_word : (ℕ → ℕ) → ℕ → ℕ
get_word f k = f (4 * k) + 256 * f (4 * k + 1) + 65536 * f (4 * k + 2) + 16777216 * f (4 * k + 3)

abbrev pub put_word : (ℕ → ℕ) → ℕ → ℕ → ℕ → ℕ
put_word f k v =
    update
      (update (update (update f (4 * k) (v % 256)) (4 * k + 1) (v / 256 % 256)) (4 * k + 2)
        (v / 65536 % 256))
      (4 * k + 3) (v / 16777216 % 256)

-- Bit `bi % 8` of `data[bi/8]`.
abbrev pub bit : (ℕ → ℕ) → ℕ → ℕ
bit f bi = f (bi / 8) / 2 ^ (bi % 8) % 2

-- `data[bi/8] |= m` of a clear bit, and `data[bi/8] &= ~m` of a set one.
abbrev pub set_bit : (ℕ → ℕ) → ℕ → ℕ → ℕ
set_bit f bi = update f (bi / 8) (f (bi / 8) + 2 ^ (bi % 8))

abbrev pub clear_bit : (ℕ → ℕ) → ℕ → ℕ → ℕ
clear_bit f bi = update f (bi / 8) (f (bi / 8) - 2 ^ (bi % 8))

-- A result, a panic, or more rounds than the loop was given.
pub data Ran (A : Type 0) : Type 0 where
  ran : A → Ran A
  panic : Ran A
  no_end : Ran A

-- Bytes `from`, `from + 1`, … of `src` in `dst` at `at`, `n` of them: memmove.
abbrev pub moved : (ℕ → ℕ) → ℕ → (ℕ → ℕ) → ℕ → ℕ → ℕ → ℕ
moved dst at src from n j = if leb at j && ltb j (at + n) then src (from + (j - at)) else dst j

module _ (sb : Superblock) where
  -- BBLOCK
  abbrev pub bblock : ℕ → ℕ
  bblock b = b / bits_per_block + sb.bmapstart

  abbrev pub bzero : ℕ → Blocks → Blocks
  bzero b s = update s b (λ o. 0)

  -- balloc's inner loop over the `n` bits from `bi` on of the map block for `b`.
  unfoldable pub balloc_bits : ℕ → ℕ → ℕ → Blocks → Option (ℕ × Blocks)
  balloc_bits zero b bi s = none
  balloc_bits (suc n) b bi s =
      let rest : Option (ℕ × Blocks) = balloc_bits n b (bi + 1) s in
      if not (ltb (b + bi) sb.size)
      then none
      else if bit (s (bblock b)) bi == 0
      then some (b + bi, bzero (b + bi) (update s (bblock b) (set_bit (s (bblock b)) bi)))
      else rest

  unfoldable pub balloc_from : ℕ → ℕ → Blocks → Ran (ℕ × Blocks)
  balloc_from zero b s = no_end
  balloc_from (suc fuel) b s =
      let rest : Ran (ℕ × Blocks) = balloc_from fuel (b + bits_per_block) s in
      if ltb b sb.size
      then elim (balloc_bits bits_per_block b 0 s) [ some r ↦ ran r | none ↦ rest ]
      else panic

  -- The rounds over map blocks are at most the blocks of the disk and the last test.
  unfoldable pub balloc : Blocks → Ran (ℕ × Blocks)
  balloc s = balloc_from (sb.size + 1) 0 s

  unfoldable pub bfree : ℕ → Blocks → Ran Blocks
  bfree b s =
      if bit (s (bblock b)) (b % bits_per_block) == 0
      then panic
      else ran (update s (bblock b) (clear_bit (s (bblock b)) (b % bits_per_block)))

  -- bmap: the block's address, the inode and the blocks after.
  unfoldable pub bmap : Inode → ℕ → Blocks → Ran (ℕ × Inode × Blocks)
  bmap ip bn s =
      if ltb bn ndirect
      then if ip.addrs bn == 0
        then elim (balloc s) [
          | ran (a, s₁) ↦ ran (a, record ip { addrs = update ip.addrs bn a }, s₁)
          | panic ↦ panic
          | no_end ↦ no_end
        ]
        else ran (ip.addrs bn, ip, s)
      else if ltb (bn - ndirect) nindirect
      then elim (if ip.addrs ndirect == 0 then balloc s else ran (ip.addrs ndirect, s)) [
        | panic ↦ panic
        | no_end ↦ no_end
        | ran (d, s₁) ↦
            let ip₁ : Inode = record ip { addrs = update ip.addrs ndirect d } in
            let a : ℕ = get_word (s₁ d) (bn - ndirect) in
            if a == 0
            then elim (balloc s₁) [
              | ran (a', s₂) ↦ ran (a', ip₁, update s₂ d (put_word (s₂ d) (bn - ndirect) a'))
              | panic ↦ panic
              | no_end ↦ no_end
            ]
            else ran (a, ip₁, s₁)
      ]
      else panic

  -- readi's loop: what it leaves at `dst`, with the inode and blocks, where bmap may allocate.
  unfoldable pub readi_from :
      ℕ → Inode → (ℕ → ℕ) → ℕ → ℕ → ℕ → Blocks → Ran ((ℕ → ℕ) × Inode × Blocks)
  readi_from zero ip dst off tot n s = no_end
  readi_from (suc fuel) ip dst off tot n s =
      let more : Ran ((ℕ → ℕ) × Inode × Blocks) = elim (bmap ip (off / bsize) s) [
        | ran (a, ip₁, s₁) ↦
            let m : ℕ = min (n - tot) (bsize - off % bsize) in
            readi_from fuel ip₁ (moved dst tot (s₁ a) (off % bsize) m) (off + m) (tot + m) n s₁
        | panic ↦ panic
        | no_end ↦ no_end
      ] in
      if ltb tot n then more else ran (dst, ip, s)

  -- readi of a file: the bytes read, or `none` for -1.
  unfoldable pub readi :
      Inode → (ℕ → ℕ) → ℕ → ℕ → Blocks → Ran (Option ℕ × (ℕ → ℕ) × Inode × Blocks)
  readi ip dst off n s =
      if ltb ip.size off || ltb ((off + n) % 2 ^ 32) off
      then ran (none, dst, ip, s)
      else (let n' : ℕ = if ltb ip.size ((off + n) % 2 ^ 32) then ip.size - off else n in
          elim (readi_from (n' + 1) ip dst off 0 n' s) [
            | ran (d, ip₁, s₁) ↦ ran (some n', d, ip₁, s₁)
            | panic ↦ panic
            | no_end ↦ no_end
          ])

  unfoldable pub writei_from : ℕ → Inode → (ℕ → ℕ) → ℕ → ℕ → ℕ → Blocks → Ran (ℕ × Inode × Blocks)
  writei_from zero ip src off tot n s = no_end
  writei_from (suc fuel) ip src off tot n s =
      let more : Ran (ℕ × Inode × Blocks) = elim (bmap ip (off / bsize) s) [
        | ran (a, ip₁, s₁) ↦
            let m : ℕ = min (n - tot) (bsize - off % bsize) in
            writei_from fuel ip₁ src (off + m) (tot + m) n
              (update s₁ a (moved (s₁ a) (off % bsize) src tot m))
        | panic ↦ panic
        | no_end ↦ no_end
      ] in
      if ltb tot n then more else ran (off, ip, s)

  -- writei of a file; iupdate, which copies the inode to its block, is not part of the blocks here.
  unfoldable pub writei : Inode → (ℕ → ℕ) → ℕ → ℕ → Blocks → Ran (Option ℕ × Inode × Blocks)
  writei ip src off n s =
      if ltb ip.size off || ltb ((off + n) % 2 ^ 32) off
      then ran (none, ip, s)
      else if ltb max_bytes ((off + n) % 2 ^ 32)
      then ran (none, ip, s)
      else elim (writei_from (n + 1) ip src off 0 n s) [
        | ran (end, ip₁, s₁) ↦
            ran (some n, if ltb 0 n && ltb ip₁.size end then record ip₁ { size = end } else ip₁, s₁)
        | panic ↦ panic
        | no_end ↦ no_end
      ]

  -- itrunc's loops, over `n` entries from `i` on: the direct addresses, and the words of block `d`.
  unfoldable pub itrunc_direct : ℕ → ℕ → Inode → Blocks → Ran (Inode × Blocks)
  itrunc_direct zero i ip s = ran (ip, s)
  itrunc_direct (suc n) i ip s =
      if ip.addrs i == 0 then itrunc_direct n (i + 1) ip s else elim (bfree (ip.addrs i) s) [
        | ran s₁ ↦ itrunc_direct n (i + 1) (record ip { addrs = update ip.addrs i 0 }) s₁
        | panic ↦ panic
        | no_end ↦ no_end
      ]

  unfoldable pub itrunc_words : ℕ → ℕ → ℕ → Blocks → Ran Blocks
  itrunc_words zero j d s = ran s
  itrunc_words (suc n) j d s =
      elim (if get_word (s d) j == 0 then ran s else bfree (get_word (s d) j) s) [
        | ran s₁ ↦ itrunc_words n (j + 1) d s₁
        | panic ↦ panic
        | no_end ↦ no_end
      ]

  unfoldable pub itrunc_indirect : Inode → Blocks → Ran (Inode × Blocks)
  itrunc_indirect ip s =
      if ip.addrs ndirect == 0
      then ran (ip, s)
      else elim (itrunc_words nindirect 0 (ip.addrs ndirect) s) [
        | panic ↦ panic
        | no_end ↦ no_end
        | ran s₁ ↦ elim (bfree (ip.addrs ndirect) s₁) [
          | ran s₂ ↦ ran (record ip { addrs = update ip.addrs ndirect 0 }, s₂)
          | panic ↦ panic
          | no_end ↦ no_end
        ]
      ]

  -- itrunc, but for iupdate.
  unfoldable pub itrunc : Inode → Blocks → Ran (Inode × Blocks)
  itrunc ip s = elim (itrunc_direct ndirect 0 ip s) [
    | panic ↦ panic
    | no_end ↦ no_end
    | ran (ip₁, s₁) ↦ elim (itrunc_indirect ip₁ s₁) [
      | ran (ip₂, s₂) ↦ ran (record ip₂ { size = 0 }, s₂)
      | panic ↦ panic
      | no_end ↦ no_end
    ]
  ]
