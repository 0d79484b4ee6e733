-- ===== src/Fs/Directory.antt =====
-- What namex calls: the type of an inode, and the lookup of a name in a directory.
use modificacion_sistema_ope.Base.{ℕ, Bool, Option, List}

-- Inodes are numbers. ilock and iunlock only exclude other processes, and are implicit.
pub record Directory : Type 0 where
  pub is_dir : ℕ → Bool
  pub dirlookup : ℕ → List ℕ → Option ℕ
