-- ===== src/Dir/Defs.antt =====
-- Directories in xv6-public/fs.c: namecmp, dirlookup and dirlink. A name is a function to bytes. The
-- inode that dirlookup gets by iget is its number here, and the iput of dirlink is left out.
use modificacion_sistema_ope.Base.{
  ℕ, zero, suc, ◌+◌, ◌-◌, ◌*◌, ◌/◌, ◌%◌, Bool, true, not, ◌&&◌, Option, none, some, ◌==◌, ltb,
  if◌then◌else◌,
}
use modificacion_sistema_ope.Inode.{
  Superblock, Blocks, Inode, Ran, ran, panic, no_end, readi, writei,
}

-- strncmp(s, t, n) == 0, of the bytes from `i` on
unfoldable pub same_from : ℕ → ℕ → (ℕ → ℕ) → (ℕ → ℕ) → Bool
same_from zero i s t = true
same_from (suc n) i s t =
    let rest : Bool = same_from n (i + 1) s t in
    if not (s i == 0) && (s i == t i) then rest else s i == t i

-- namecmp(s, t) == 0
abbrev pub same_name : (ℕ → ℕ) → (ℕ → ℕ) → Bool
same_name s t = same_from 14 0 s t

-- de.inum and de.name in the 16 bytes of a struct dirent
abbrev pub inum_of : (ℕ → ℕ) → ℕ
inum_of d = d 0 + 256 * d 1

abbrev pub name_of : (ℕ → ℕ) → ℕ → ℕ
name_of d j = d (2 + j)

-- strncpy to a name: the bytes from `i` on, `n` of them, up to NUL, and then zeros.
unfoldable pub copied : ℕ → ℕ → (ℕ → ℕ) → ℕ → ℕ
copied zero i name j = 0
copied (suc n) i name j =
    let rest : ℕ = copied n (i + 1) name j in
    if j == i then name i else if name i == 0 then 0 else rest

-- The bytes of the entry that dirlink writes.
unfoldable pub new_entry : (ℕ → ℕ) → ℕ → ℕ → ℕ
new_entry name inum j =
    if j == 0 then inum % 256 else if j == 1 then inum / 256 % 256 else copied 14 0 name (j - 2)

module _ (sb : Superblock) where
  -- dirlookup's loop: the number and the offset of the entry found.
  unfoldable pub dirlookup_from :
      ℕ → ℕ → Inode → (ℕ → ℕ) → Blocks → Ran (Option (ℕ × ℕ) × Inode × Blocks)
  dirlookup_from zero off dp name s = no_end
  dirlookup_from (suc fuel) off dp name s =
      let round : Ran (Option (ℕ × ℕ) × Inode × Blocks) = elim (readi sb dp (λ j. 0) off 16 s) [
        | panic ↦ panic
        | no_end ↦ no_end
        | ran (r, de, dp₁, s₁) ↦ elim r [
          | none ↦ panic
          | some n ↦
              let rest : Ran (Option (ℕ × ℕ) × Inode × Blocks) =
                dirlookup_from fuel (off + 16) dp₁ name s₁ in
              if not (n == 16)
              then panic
              else if inum_of de == 0
              then rest
              else if same_name name (name_of de)
              then ran (some (inum_of de, off), dp₁, s₁)
              else rest
        ]
      ] in
      if ltb off dp.size then round else ran (none, dp, s)

  -- The rounds are at most one for each 16 bytes and the last test.
  unfoldable pub dirlookup : Inode → (ℕ → ℕ) → Blocks → Ran (Option (ℕ × ℕ) × Inode × Blocks)
  dirlookup dp name s = dirlookup_from (dp.size / 16 + 2) 0 dp name s

  -- dirlink's loop: the offset of the first free entry.
  unfoldable pub free_entry : ℕ → ℕ → Inode → Blocks → Ran (ℕ × Inode × Blocks)
  free_entry zero off dp s = no_end
  free_entry (suc fuel) off dp s =
      let round : Ran (ℕ × Inode × Blocks) = elim (readi sb dp (λ j. 0) off 16 s) [
        | panic ↦ panic
        | no_end ↦ no_end
        | ran (r, de, dp₁, s₁) ↦ elim r [
          | none ↦ panic
          | some n ↦
              let rest : Ran (ℕ × Inode × Blocks) = free_entry fuel (off + 16) dp₁ s₁ in
              if not (n == 16) then panic else if inum_of de == 0 then ran (off, dp₁, s₁) else rest
        ]
      ] in
      if ltb off dp.size then round else ran (off, dp, s)

  -- dirlink: 0, or `none` for -1.
  unfoldable pub dirlink : Inode → (ℕ → ℕ) → ℕ → Blocks → Ran (Option ℕ × Inode × Blocks)
  dirlink dp name inum s = elim (dirlookup dp name s) [
    | panic ↦ panic
    | no_end ↦ no_end
    | ran (found, dp₁, s₁) ↦ elim found [
      | some ip ↦ ran (none, dp₁, s₁)
      | none ↦ elim (free_entry (dp₁.size / 16 + 2) 0 dp₁ s₁) [
        | panic ↦ panic
        | no_end ↦ no_end
        | ran (off, dp₂, s₂) ↦ elim (writei sb dp₂ (new_entry name inum) off 16 s₂) [
          | panic ↦ panic
          | no_end ↦ no_end
          | ran (r, dp₃, s₃) ↦ elim r [
            | none ↦ panic
            | some n ↦ if n == 16 then ran (some 0, dp₃, s₃) else panic
          ]
        ]
      ]
    ]
  ]
