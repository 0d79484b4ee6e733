-- ===== src/Str/Compare.antt =====
-- memcmp, strncmp and strlen.
use modificacion_sistema_ope.Base.{
  ℕ, zero, suc, ◌+◌, ◌<◌, ◌≤◌, ◌≡◌, ◌≢◌, ◌⊎◌, refl, arith, ◌∙◌, ◌==◌, ◌&&◌, not, Bool-cases, inl,
  inr, pos, sub_ℕ, ℕ_discrete, some,
}
use modificacion_sistema_ope.Str.Defs.{Mem, memcmp, strncmp, strlen, strlen_from}

-- The first `n` bytes agree; or they agree up to a first byte that differs, below `n`.
abbrev pub Agree : Mem → ℕ → ℕ → ℕ → Type 0
Agree m p q k = (i : ℕ) → i < k → m (p + i) ≡ m (q + i)

at : (m : Mem) {a b : ℕ} → a ≡ b → m a ≡ m b
at m e i = m (e i)

Agree-cons : (m : Mem) (p q k : ℕ) → m p ≡ m q → Agree m (p + 1) (q + 1) k → Agree m p q (suc k)
Agree-cons m p q k e f zero h = at m (omega arith) ∙ e ∙ at m (omega arith)
Agree-cons m p q k e f (suc i) h =
    at m {b = p + 1 + i} (omega arith) ∙ f i (omega arith) ∙ at m {a = q + 1 + i} (omega arith)

-- memcmp is 0 where the n bytes agree, and else the difference of the first two that differ.
pub memcmp_lem :
    (p q n : ℕ) (m : Mem)
    → (Agree m p q n × (memcmp p q n m ≡ pos 0))
      ⊎ ((k : ℕ) × (k < n)
          × Agree m p q k
          × (m (p + k) ≢ m (q + k))
          × (memcmp p q n m ≡ sub_ℕ (m (p + k)) (m (q + k))))
unfolding memcmp
memcmp_lem p q zero m = inl ((λ i h. absurd (omega arith)), refl)
memcmp_lem p q (suc n) m = elim (ℕ_discrete (m p) (m q)) [
  | yes e ↦ elim (memcmp_lem (p + 1) (q + 1) n m) [
    | inl (f, r) ↦ inl (Agree-cons m p q n e f, ground arith)
    | inr (k, h, f, ne, r) ↦
        inr (suc k, omega arith, Agree-cons m p q k e f, ground arith, ground arith)
  ]
  | no ne ↦ inr (0, omega arith, (λ i h. absurd (omega arith)), ground arith, ground arith)
]

-- No string ends within its first `k` bytes from `p` up.
abbrev pub Nonzero : Mem → ℕ → ℕ → Type 0
Nonzero m p k = (i : ℕ) → i < k → m (p + i) ≢ 0

Nonzero-cons : (m : Mem) (p k : ℕ) → m p ≢ 0 → Nonzero m (p + 1) k → Nonzero m p (suc k)
Nonzero-cons m p k e f zero h = λ z. e (at m (omega arith) ∙ z)
Nonzero-cons m p k e f (suc i) h = λ z. f i (omega arith) (at m (omega arith) ∙ z)

-- strncmp is 0 where the two strings agree on n bytes and neither ends there, and else the
-- difference of the bytes at the first place where they differ or the first of them ends.
pub strncmp_lem :
    (p q n : ℕ) (m : Mem)
    → (Agree m p q n × Nonzero m p n × (strncmp p q n m ≡ pos 0))
      ⊎ ((k : ℕ) × (k < n)
          × Agree m p q k
          × Nonzero m p k
          × ((m (p + k) ≡ 0) ⊎ (m (p + k) ≢ m (q + k)))
          × (strncmp p q n m ≡ sub_ℕ (m (p + k)) (m (q + k))))
unfolding strncmp
strncmp_lem p q zero m = inl ((λ i h. absurd (omega arith)), (λ i h. absurd (omega arith)), refl)
strncmp_lem p q (suc n) m = elim (Bool-cases (not (m p == 0) && (m p == m q))) [
  | inl goes ↦
      let e : (m p ≡ m q) × (m p ≢ 0) = ground arith in
      elim (strncmp_lem (p + 1) (q + 1) n m) [
        | inl (f, z, r) ↦ inl (Agree-cons m p q n e.0 f, Nonzero-cons m p n e.1 z, rw goes r)
        | inr (k, h, f, z, stop, r) ↦ inr (
          suc k,
          omega arith,
          Agree-cons m p q k e.0 f,
          Nonzero-cons m p k e.1 z,
          ground arith,
          rw goes (ground arith),
        )
      ]
  | inr stops ↦ inr (
    0,
    omega arith,
    (λ i h. absurd (omega arith)),
    (λ i h. absurd (omega arith)),
    ground arith,
    rw stops (ground arith),
  )
]

strlen_from_lem :
    (fuel s n k : ℕ) (m : Mem)
    → m (s + k) ≡ 0
    → n ≤ k
    → k < n + fuel
    → ((i : ℕ) → n ≤ i → i < k → m (s + i) ≢ 0)
    → strlen_from fuel s n m ≡ some k
unfolding strlen_from
strlen_from_lem zero s n k m e le h z = absurd (omega arith)
strlen_from_lem (suc fuel) s n k m e le h z = elim (ℕ_discrete n k) [
  | yes q ↦ ground arith
  | no q ↦
      let ih =
        strlen_from_lem fuel s (n + 1) k m e (omega arith) (omega arith)
          (λ i l h'. z i (omega arith) h') in
      ground (arith, z n (omega arith) (omega arith), ih)
]

-- strlen is the number of bytes before the first NUL; it ends after that many rounds and one.
pub strlen_lem :
    (fuel s k : ℕ) (m : Mem) → m (s + k) ≡ 0 → Nonzero m s k → k < fuel → strlen fuel s m ≡ some k
unfolding strlen
strlen_lem fuel s k m e z h =
    strlen_from_lem fuel s 0 k m e (omega arith) (omega arith) (λ i _ h'. z i h')
