-- ===== src/File/Io.antt =====
-- fileread and filewrite of xv6-public/file.c, over the inode's blocks of fs.c. What piperead and
-- pipewrite return is an argument; ilock, begin_op and end_op change neither file nor blocks.
use modificacion_sistema_ope.Base.{
  ℕ, zero, suc, ◌+◌, ◌-◌, min, not, Option, none, some, ◌==◌, ltb, if◌then◌else◌, List, [], ◌∷◌,
}
use modificacion_sistema_ope.Inode.{
  Superblock, Blocks, Inode, Ran, ran, panic, no_end, readi, writei,
}
use modificacion_sistema_ope.File.Defs.{fd_none, fd_pipe, fd_inode, File}

-- ((MAXOPBLOCKS-1-1-2) / 2) * 512
abbrev pub max_write : ℕ
max_write = 1536

module _ (sb : Superblock) where
  -- filewrite's loop from `i` on, of `n` bytes; the result is `none` for -1. `pieces` has the sizes
  -- of the writes so far, each between a begin_op and an end_op, the last one first.
  unfoldable pub filewrite_from :
      ℕ
      → List ℕ
      → File
      → Inode
      → (ℕ → ℕ)
      → ℕ
      → ℕ
      → Blocks
      → Ran (Option ℕ × List ℕ × File × Inode × Blocks)
  filewrite_from zero pieces f ip addr i n s = no_end
  filewrite_from (suc fuel) pieces f ip addr i n s =
      let n1 : ℕ = min (n - i) max_write in
      let round : Ran (Option ℕ × List ℕ × File × Inode × Blocks) =
        elim (writei sb ip (λ j. addr (i + j)) f.off n1 s) [
          | panic ↦ panic
          | no_end ↦ no_end
          | ran (r, ip₁, s₁) ↦ elim r [
            | none ↦ ran (if i == n then some n else none, n1 ∷ pieces, f, ip₁, s₁)
            | some r' ↦
                let rest : Ran (Option ℕ × List ℕ × File × Inode × Blocks) =
                  filewrite_from fuel (n1 ∷ pieces) (record f { off = f.off + r' }) ip₁ addr
                    (i + r') n s₁ in
                if r' == n1 then rest else panic
          ]
        ] in
      if ltb i n then round else ran (if i == n then some n else none, pieces, f, ip, s)

  -- filewrite, where pipewrite would return `piped`.
  unfoldable pub filewrite :
      Option ℕ
      → File
      → Inode
      → (ℕ → ℕ)
      → ℕ
      → Blocks
      → Ran (Option ℕ × List ℕ × File × Inode × Blocks)
  filewrite piped f ip addr n s = if not f.writable then ran (none, [], f, ip, s) else elim f.kind [
    | fd_pipe ↦ ran (piped, [], f, ip, s)
    | fd_inode ↦ filewrite_from (n + 1) [] f ip addr 0 n s
    | fd_none ↦ panic
  ]

  -- fileread to `addr`, where piperead would return `piped`.
  unfoldable pub fileread :
      Option ℕ
      → File
      → Inode
      → (ℕ → ℕ)
      → ℕ
      → Blocks
      → Ran (Option ℕ × (ℕ → ℕ) × File × Inode × Blocks)
  fileread piped f ip addr n s =
      if not f.readable then ran (none, addr, f, ip, s) else elim f.kind [
        | fd_pipe ↦ ran (piped, addr, f, ip, s)
        | fd_inode ↦ elim (readi sb ip addr f.off n s) [
          | panic ↦ panic
          | no_end ↦ no_end
          | ran (r, addr', ip', s') ↦ elim r [
            | none ↦ ran (none, addr', f, ip', s')
            | some r' ↦ ran (some r', addr', record f { off = f.off + r' }, ip', s')
          ]
        ]
        | fd_none ↦ panic
      ]
