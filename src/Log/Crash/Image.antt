-- ===== src/Log/Crash/Image.antt =====
-- The file system that a disk stands for, once its log is installed.
use modificacion_sistema_ope.Base.{
  ℕ, zero, suc, ◌+◌, ◌<◌, ◌≤◌, ◌≡◌, ◌≢◌, ◌⊎◌, inl, inr, arith, ℕ_discrete, sym, ◌∙◌,
}
use modificacion_sistema_ope.Disk.{Block, Io}
use modificacion_sistema_ope.Log.Defs.{Log}

-- Block `b` lies outside the log's `size` blocks from `start` on.
abbrev pub IsHome : ℕ → ℕ → ℕ → Type 0
IsHome start size b = (b < start) ⊎ (start + size ≤ b)

-- The header on the disk lists the blocks `block 0 … block (n - 1)`; they are distinct home
-- blocks, whose contents in `fs` stand in the log. The other home blocks hold theirs.
pub record Logged (start size n : ℕ) (block : ℕ → ℕ) (disk fs : ℕ → Block) : Type 0 where
  pub count : disk start 0 ≡ n
  pub words : (j : ℕ) → j < n → disk start (j + 1) ≡ block j
  pub room : n < size
  pub distinct : (i j : ℕ) → i < n → j < n → block i ≡ block j → i ≡ j
  pub home : (j : ℕ) → j < n → IsHome start size (block j)
  pub slot : (j : ℕ) → j < n → disk (start + j + 1) ≡ fs (block j)
  pub other : (b : ℕ) → IsHome start size b → ((j : ℕ) → j < n → block j ≢ b) → disk b ≡ fs b

abbrev pub StandsFor : ℕ → ℕ → (ℕ → Block) → (ℕ → Block) → Type 0
StandsFor start size disk fs = (n : ℕ) × (block : ℕ → ℕ) × Logged start size n block disk fs

-- The log in memory before commit: a transaction of at most `size - 1` distinct home blocks, whose
-- new contents are in the cache; nothing is committed on the disk, and the cache agrees with the
-- disk on the blocks that are not logged.
pub record IsReady (l : Log) (s : Io) : Type 0 where
  pub room : l.n < l.size
  pub distinct : (i j : ℕ) → i < l.n → j < l.n → l.block i ≡ l.block j → i ≡ j
  pub home : (j : ℕ) → j < l.n → IsHome l.start l.size (l.block j)
  pub clean : s.disk l.start 0 ≡ 0
  pub synced :
      (b : ℕ) → IsHome l.start l.size b → ((j : ℕ) → j < l.n → l.block j ≢ b) → s.cache b ≡ s.disk b

-- A bounded search.
pub find_below :
    (n : ℕ) (block : ℕ → ℕ) (b : ℕ)
    → ((j : ℕ) × (j < n) × (block j ≡ b)) ⊎ ((j : ℕ) → j < n → block j ≢ b)
find_below zero block b = inr (λ j h. absurd (omega arith))
find_below (suc n) block b = elim (ℕ_discrete (block n) b) [
  | yes e ↦ inl (n, omega arith, e)
  | no ne ↦ elim (find_below n block b) [
    | inl (j, h, e) ↦ inl (j, omega arith, e)
    | inr none_below ↦
        inr (λ j h. elim (ℕ_discrete j n) [ yes q ↦ rw q ne | no q ↦ none_below j (omega arith) ])
  ]
]

-- `Logged` reads `block` below `n` only.
pub Logged-ext :
    {start size n : ℕ} {block : ℕ → ℕ} {disk fs : ℕ → Block} (block' : ℕ → ℕ)
    → ((j : ℕ) → j < n → block' j ≡ block j)
    → Logged start size n block disk fs
    → Logged start size n block' disk fs
Logged-ext block' same g = record {
  count = g.count;
  words = λ j h. g.words j h ∙ sym (same j h);
  room = g.room;
  distinct = λ i j hi hj e. g.distinct i j hi hj (sym (same i hi) ∙ e ∙ same j hj);
  home = λ j h. rw (same j h) (g.home j h);
  slot = λ j h. rw (same j h) (g.slot j h);
  other = λ b hb o. g.other b hb (λ j h e. o j h (same j h ∙ e));
}
