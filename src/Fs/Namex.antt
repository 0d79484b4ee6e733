-- ===== src/Fs/Namex.antt =====
-- namex, namei and nameiparent of xv6-public/fs.c, with the reference counts of the inodes.
use modificacion_sistema_ope.Base.{
  ℕ, zero, suc, ◌+◌, ◌-◌, Bool, true, false, not, ◌&&◌, ◌==◌, if◌then◌else◌, List, [], ◌∷◌, length,
  Option, none, some, update,
}
use modificacion_sistema_ope.Fs.Defs.{slash, skipelem}
use modificacion_sistema_ope.Fs.Directory.{Directory}

-- The reference counts of inodes: iget and idup add one, iput takes one.
abbrev pub iget : ℕ → (ℕ → ℕ) → ℕ → ℕ
iget i refs = update refs i (refs i + 1)

abbrev pub iput : ℕ → (ℕ → ℕ) → ℕ → ℕ
iput i refs = update refs i (refs i - 1)

-- The inode that namex returns, what it left in `name`, and the counts.
pub record Resolved : Type 0 where
  pub ip : Option ℕ
  pub name : List ℕ
  pub refs : ℕ → ℕ

abbrev pub is_end : List ℕ → Bool
is_end [] = true
is_end (c ∷ s) = false

-- namex's loop at `ip` with the rest of the path; `none` where the fuel ends.
unfoldable pub namex_from : Directory → Bool → ℕ → ℕ → List ℕ → List ℕ → (ℕ → ℕ) → Option Resolved
namex_from dir parent zero ip path name refs = none
namex_from dir parent (suc fuel) ip path name refs = elim (skipelem path) [
  | none ↦
      if parent
      then some (record { ip = none; name = name; refs = iput ip refs })
      else some (record { ip = some ip; name = name; refs = refs })
  | some (rest, element) ↦
      if not (dir.is_dir ip)
      then some (record { ip = none; name = element; refs = iput ip refs })
      else if parent && is_end rest
      then some (record { ip = some ip; name = element; refs = refs })
      else elim (dir.dirlookup ip element) [
        | none ↦ some (record { ip = none; name = element; refs = iput ip refs })
        | some next ↦ namex_from dir parent fuel next rest element (iput ip (iget next refs))
      ]
]

abbrev pub rootino : ℕ
rootino = 1

abbrev pub starts_at_root : List ℕ → Bool
starts_at_root [] = false
starts_at_root (c ∷ s) = c == slash

-- namex in the directory `cwd`: namei is namex without `parent`, nameiparent with it.
unfoldable pub namex : Directory → Bool → ℕ → List ℕ → List ℕ → (ℕ → ℕ) → Option Resolved
namex dir parent cwd path name refs =
    let ip : ℕ = if starts_at_root path then rootino else cwd in
    namex_from dir parent (suc (length path)) ip path name (iget ip refs)
