-- ===== src/Log/Header.antt =====
-- The header block on the disk: what write_head writes, read_head reads.
use modificacion_sistema_ope.Base.{
  ℕ, zero, suc, ◌+◌, ◌≤◌, ◌<◌, ◌≡◌, refl, arith, update, ◌∙◌, ℕ_discrete,
}
use modificacion_sistema_ope.Disk.{Block}
use modificacion_sistema_ope.Log.Defs.{copy_words, read_words}

copy_words-other :
    (k i : ℕ) (from : ℕ → ℕ) (to : Block) (j : ℕ) → j ≤ i → copy_words k i from to j ≡ to j
unfolding copy_words
copy_words-other zero i from to j h = refl
copy_words-other (suc k) i from to j h =
    ground (arith, copy_words-other k (i + 1) from (update to (i + 1) (from i)) j (omega arith))

pub copy_words-count : (k : ℕ) (from : ℕ → ℕ) (to : Block) → copy_words k 0 from to 0 ≡ to 0
copy_words-count k from to = copy_words-other k 0 from to 0 (omega arith)

pub copy_words-word :
    (k i : ℕ) (from : ℕ → ℕ) (to : Block) (j : ℕ)
    → i ≤ j
    → j < i + k
    → copy_words k i from to (j + 1) ≡ from j
unfolding copy_words
copy_words-word zero i from to j l h = absurd (omega arith)
copy_words-word (suc k) i from to j l h = elim (ℕ_discrete i j) [
  | yes q ↦ rw (← q) (
      copy_words-other k (i + 1) from (update to (i + 1) (from i)) (i + 1) (omega arith)
      ∙ ground arith)
  | no q ↦ copy_words-word k (i + 1) from (update to (i + 1) (from i)) j (omega arith) (omega arith)
]

read_words-other :
    (k i : ℕ) (from : Block) (to : ℕ → ℕ) (j : ℕ) → j < i → read_words k i from to j ≡ to j
unfolding read_words
read_words-other zero i from to j h = refl
read_words-other (suc k) i from to j h =
    ground (arith, read_words-other k (i + 1) from (update to i (from (i + 1))) j (omega arith))

pub read_words-word :
    (k i : ℕ) (from : Block) (to : ℕ → ℕ) (j : ℕ)
    → i ≤ j
    → j < i + k
    → read_words k i from to j ≡ from (j + 1)
unfolding read_words
read_words-word zero i from to j l h = absurd (omega arith)
read_words-word (suc k) i from to j l h = elim (ℕ_discrete i j) [
  | yes q ↦
      rw (← q) (
        read_words-other k (i + 1) from (update to i (from (i + 1))) i (omega arith) ∙ ground arith)
  | no q ↦ read_words-word k (i + 1) from (update to i (from (i + 1))) j (omega arith) (omega arith)
]
