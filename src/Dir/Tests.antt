-- ===== src/Dir/Tests.antt =====
-- The example directory gets a first entry, for inode 9.
use modificacion_sistema_ope.Base.{ℕ, ◌≡◌, refl, arith, ap, ◌∙◌, none}
use modificacion_sistema_ope.Inode.{ran}
use modificacion_sistema_ope.Inode.Slots.{slot, index, content}
use modificacion_sistema_ope.Inode.Example.{disk, blocks, directory, directory-Wf, directory-Mapped}
use modificacion_sistema_ope.Dir.Defs.{dirlookup}
use modificacion_sistema_ope.Dir.Search.{is_for, search, dirlookup_lem}
use modificacion_sistema_ope.Dir.Link.{Links, dirlink-Links}

-- "aaaaaaaaaaaaaa"
abbrev name : ℕ → ℕ
name j = 97

no_entry : search 1 (content directory blocks) name 0 ≡ none
unfolding search is_for content slot index
no_entry = refl

absent : dirlookup disk directory name blocks ≡ ran (none, directory, blocks)
absent =
    dirlookup_lem disk directory blocks (omega arith) directory-Mapped 1 name refl
    ∙ ap (λ x. ran (x, directory, blocks)) no_entry

dirlink-Links_example : Links disk 3 name 9 directory blocks
dirlink-Links_example =
    dirlink-Links disk 3 name 9 directory blocks directory-Wf directory-Mapped (omega arith) refl
      (omega arith) (omega arith) (omega arith) (omega arith) absent
