-- ===== src/Inode/Tests.antt =====
-- Runs on the example file.
use modificacion_sistema_ope.Base.{ℕ, ◌<◌, ◌≡◌, ◌↔◌, ◌⊎◌, arith, none}
use modificacion_sistema_ope.Inode.Defs.{ran, writei, itrunc}
use modificacion_sistema_ope.Inode.Write.{
  Written, writei_lem, ReadsBack, readi-writei, writei-none_iff,
}
use modificacion_sistema_ope.Inode.Truncate.{Truncates, itrunc-Truncates}
use modificacion_sistema_ope.Inode.Example.{disk, blocks, file, file-Wf, file-Mapped}

-- 600 bytes from byte 2 on: the rest of block 5 and a new block.
abbrev letters : ℕ → ℕ
letters i = 97

writei_lem_example :
    Written disk 3 2 600 letters file blocks (writei disk file letters 2 600 blocks)
writei_lem_example =
    writei_lem disk 3 file letters 2 600 blocks file-Wf file-Mapped (omega arith) (omega arith)
      (omega arith) (omega arith) (omega arith)

readi-writei_example : ReadsBack disk 3 2 600 letters (λ j. 0) file blocks
readi-writei_example =
    readi-writei disk 3 file letters (λ j. 0) 2 600 blocks file-Wf file-Mapped (omega arith)
      (omega arith) (omega arith) (omega arith) (omega arith)

writei-none_iff_example :
    (writei disk file letters 4 1 blocks ≡ ran (none, file, blocks)) ↔ ((3 < 4) ⊎ (71680 < 5))
writei-none_iff_example = writei-none_iff disk file letters 4 1 blocks (omega arith) (omega arith)

itrunc-Truncates_example : Truncates disk 3 file blocks file-Wf (itrunc disk file blocks)
itrunc-Truncates_example = itrunc-Truncates disk 3 file blocks file-Wf
