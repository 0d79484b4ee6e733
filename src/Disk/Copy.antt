-- ===== src/Disk/Copy.antt =====
-- The loop that write_log and install_trans share, and what it leaves on the disk when the power
-- fails after any number of writes.
use modificacion_sistema_ope.Base.{
  ℕ, zero, suc, ◌+◌, ◌-◌, ◌≤◌, ◌<◌, ◌≡◌, ◌≢◌, refl, arith, ℕ_discrete, ◌∙◌,
}
use modificacion_sistema_ope.Disk.Words.{Io, copy_block}

-- `for (tail = t; tail < t + k; tail++)` copy block `from tail` to block `to tail`.
unfoldable pub copy_blocks : ℕ → ℕ → (ℕ → ℕ) → (ℕ → ℕ) → Io → Io
copy_blocks zero t to from s = s
copy_blocks (suc k) t to from s = copy_blocks k (t + 1) to from (copy_block (to t) (from t) s)

-- Block `b` is no target of the rounds from `t` on to `n`.
abbrev pub IsOther : (ℕ → ℕ) → ℕ → ℕ → ℕ → Type 0
IsOther to t n b = (j : ℕ) → t ≤ j → j < n → to j ≢ b

module _ (to from : ℕ → ℕ) (n : ℕ) (distinct : (i j : ℕ) → i < n → j < n → to i ≡ to j → i ≡ j)
    (apart : (i j : ℕ) → i < n → j < n → from i ≢ to j) where
  -- No other buffer changes.
  pub copy_blocks-cache_other :
      (k t b : ℕ) (s : Io)
      → t + k ≡ n
      → IsOther to t n b
      → (copy_blocks k t to from s).cache b ≡ s.cache b
  unfolding copy_blocks
  copy_blocks-cache_other zero t b s e o = refl
  copy_blocks-cache_other (suc k) t b s e o =
      copy_blocks-cache_other k (t + 1) b (copy_block (to t) (from t) s) (omega arith)
        (λ j l h. o j (omega arith) h)
      ∙ ground (arith, o t (omega arith) (omega arith))

  -- No other block of the disk changes.
  pub copy_blocks-disk_other :
      (k t b : ℕ) (s : Io)
      → t + k ≡ n
      → IsOther to t n b
      → (copy_blocks k t to from s).disk b ≡ s.disk b
  unfolding copy_blocks
  copy_blocks-disk_other zero t b s e o = refl
  copy_blocks-disk_other (suc k) t b s e o =
      copy_blocks-disk_other k (t + 1) b (copy_block (to t) (from t) s) (omega arith)
        (λ j l h. o j (omega arith) h)
      ∙ ground (arith, o t (omega arith) (omega arith))

  -- Each target's buffer holds its source.
  pub copy_blocks-cache_to :
      (k t j : ℕ) (s : Io)
      → t + k ≡ n
      → t ≤ j
      → j < n
      → (copy_blocks k t to from s).cache (to j) ≡ s.cache (from j)
  unfolding copy_blocks
  copy_blocks-cache_to zero t j s e l h = absurd (omega arith)
  copy_blocks-cache_to (suc k) t j s e l h = elim (ℕ_discrete t j) [
    | yes q ↦ rw (← q) (
        copy_blocks-cache_other k (t + 1) (to t) (copy_block (to t) (from t) s) (omega arith)
          (λ i l' h' r. absurd (omega (arith, distinct i t h' (omega arith) r)))
        ∙ ground arith)
    | no q ↦
        copy_blocks-cache_to k (t + 1) j (copy_block (to t) (from t) s) (omega arith) (omega arith)
          h
        ∙ ground (arith, apart j t h (omega arith))
  ]

  -- Each target that the power reaches holds its source.
  pub copy_blocks-disk_to :
      (k t j : ℕ) (s : Io)
      → t + k ≡ n
      → t ≤ j
      → j < n
      → j < t + s.power
      → (copy_blocks k t to from s).disk (to j) ≡ s.cache (from j)
  unfolding copy_blocks
  copy_blocks-disk_to zero t j s e l h p = absurd (omega arith)
  copy_blocks-disk_to (suc k) t j s e l h p = elim (ℕ_discrete t j) [
    | yes q ↦ rw (← q) (
        copy_blocks-disk_other k (t + 1) (to t) (copy_block (to t) (from t) s) (omega arith)
          (λ i l' h' r. absurd (omega (arith, distinct i t h' (omega arith) r)))
        ∙ ground arith)
    | no q ↦
        copy_blocks-disk_to k (t + 1) j (copy_block (to t) (from t) s) (omega arith) (omega arith) h
          (omega arith)
        ∙ ground (arith, apart j t h (omega arith))
  ]

  -- The others hold what they held: a block is written whole or not at all.
  pub copy_blocks-disk_lost :
      (k t j : ℕ) (s : Io)
      → t + k ≡ n
      → t ≤ j
      → j < n
      → t + s.power ≤ j
      → (copy_blocks k t to from s).disk (to j) ≡ s.disk (to j)
  unfolding copy_blocks
  copy_blocks-disk_lost zero t j s e l h p = absurd (omega arith)
  copy_blocks-disk_lost (suc k) t j s e l h p = elim (ℕ_discrete t j) [
    | yes q ↦ rw (← q) (
        copy_blocks-disk_other k (t + 1) (to t) (copy_block (to t) (from t) s) (omega arith)
          (λ i l' h' r. absurd (omega (arith, distinct i t h' (omega arith) r)))
        ∙ ground arith)
    | no q ↦
        copy_blocks-disk_lost k (t + 1) j (copy_block (to t) (from t) s) (omega arith) (omega arith)
          h (omega arith)
        ∙ ground (arith, λ (r : to j ≡ to t). distinct j t h (omega arith) r)
  ]

pub copy_blocks-power :
    (to from : ℕ → ℕ) (k t : ℕ) (s : Io) → (copy_blocks k t to from s).power ≡ s.power - k
unfolding copy_blocks
copy_blocks-power to from zero t s = omega arith
copy_blocks-power to from (suc k) t s =
    omega (arith, copy_blocks-power to from k (t + 1) (copy_block (to t) (from t) s))
