-- ===== src/File/Tests.antt =====
-- Process 1 opens inode 7 for reading and writing, and then dups the descriptor.
use modificacion_sistema_ope.Base.{◌≡◌, refl, arith, pos, none, some, [], ◌∷◌, update}
use modificacion_sistema_ope.File.Defs.{File, end_op, set_ref, filealloc_from, filealloc}
use modificacion_sistema_ope.File.Calls.{opened, fdalloc_from, fdalloc, open_file}
use modificacion_sistema_ope.Inode.Example.{disk, blocks, file, file-Wf, file-Mapped}
use modificacion_sistema_ope.File.Io.{filewrite}
use modificacion_sistema_ope.File.Chunks.{Stores, filewrite-Stores}
use modificacion_sistema_ope.File.Reach.{
  Sys, open_op, dup_op, step, boot, at_boot, after, Steps, reach-Steps,
}

abbrev one_open : Sys
one_open = record {
  fds = update boot.fds 1 (update (boot.fds 1) 0 (some 0));
  table = record {
    file = update (set_ref 0 1 boot.table).file 0 (opened 2 7 ((set_ref 0 1 boot.table).file 0));
    made = end_op ∷ [];
  };
}

boot-open : step (open_op 1 2 7) boot ≡ some one_open
unfolding step open_file filealloc filealloc_from fdalloc fdalloc_from
boot-open = refl

reach-Steps_example : Steps (dup_op 1 (pos 0)) one_open
reach-Steps_example =
    reach-Steps one_open (dup_op 1 (pos 0)) (after (open_op 1 2 7) at_boot (omega arith) boot-open)
      (omega arith)

-- 2000 bytes, in two pieces, at the end of a file of three bytes.
abbrev at_end : File
at_end = record (opened 2 7 (boot.table.file 0)) { ref = 1; off = 3 }

filewrite-Stores_example :
    Stores disk 3 2000 2000 []
      (λ j. 97)
      at_end
      file
      blocks
      (filewrite disk none at_end file (λ j. 97) 2000 blocks)
filewrite-Stores_example =
    filewrite-Stores disk 3 none at_end file (λ j. 97) 2000 blocks refl refl file-Wf file-Mapped
      (omega arith) (omega arith) (omega arith) (omega arith) (omega arith)
