-- ===== src/Str/Copy.antt =====
-- strncpy and safestrcpy.
use modificacion_sistema_ope.Base.{
  ℕ, zero, suc, ◌+◌, ◌-◌, ◌<◌, ◌≤◌, ◌≡◌, ◌⊎◌, arith, ◌∙◌, sym, subst, update, ltb, leb, ◌==◌, ◌&&◌,
  if◌then◌else◌, Bool-cases, inl, inr, false, ap,
}
use modificacion_sistema_ope.Str.Defs.{Mem, copy_string, zero_fill, strncpy, safe_copy, safestrcpy}

-- Byte `i` of the string at `t`, with NUL for every byte past its end.
abbrev pub byte : Mem → ℕ → ℕ → ℕ
byte m t zero = m t
byte m t (suc i) = if m t == 0 then 0 else byte m (t + 1) i

-- A write outside the string's first bytes leaves them alone.
byte-update : (m : Mem) (a b t i : ℕ) → (a < t) ⊎ (t + i < a) → byte (update m a b) t i ≡ byte m t i
byte-update m a b t zero h = ground arith
byte-update m a b t (suc i) h = ground (arith, byte-update m a b (t + 1) i)

zero_fill_lem :
    (s n : ℕ) (m : Mem) (a : ℕ) → zero_fill s n m a ≡ (if leb s a && ltb a (s + n) then 0 else m a)
unfolding zero_fill
zero_fill_lem s zero m a = ground arith
zero_fill_lem s (suc n) m a = zero_fill_lem (s + 1) n (update m s 0) a ∙ ground arith

-- The target's `n` bytes and the source's do not overlap.
abbrev pub Apart : ℕ → ℕ → ℕ → Type 0
Apart s t n = (s + n ≤ t) ⊎ (t + n ≤ s)

strncpy_other : (s t n : ℕ) (m : Mem) (a : ℕ) → (a < s) ⊎ (s + n ≤ a) → strncpy s t n m a ≡ m a
unfolding strncpy copy_string
strncpy_other s t zero m a h = zero_fill_lem s 0 m a ∙ ground arith
strncpy_other s t (suc n) m a h = elim (Bool-cases (m t == 0)) [
  | inl ends ↦ rw ends (zero_fill_lem (s + 1) n (update m s (m t)) a ∙ ground arith)
  | inr goes ↦
      rw goes (strncpy_other (s + 1) (t + 1) n (update m s (m t)) a (omega arith) ∙ ground arith)
]

strncpy-byte :
    (s t n : ℕ) (m : Mem) (i : ℕ) → Apart s t n → i < n → strncpy s t n m (s + i) ≡ byte m t i
unfolding strncpy copy_string
strncpy-byte s t zero m i a h = absurd (omega arith)
strncpy-byte s t (suc n) m zero a h = elim (Bool-cases (m t == 0)) [
  | inl ends ↦ rw ends (zero_fill_lem (s + 1) n (update m s (m t)) (s + 0) ∙ ground arith)
  | inr goes ↦
      rw goes
        (strncpy_other (s + 1) (t + 1) n (update m s (m t)) (s + 0) (omega arith) ∙ ground arith)
]
strncpy-byte s t (suc n) m (suc i) a h = elim (Bool-cases (m t == 0)) [
  | inl ends ↦ rw ends (zero_fill_lem (s + 1) n (update m s (m t)) (s + suc i) ∙ ground arith)
  | inr goes ↦ rw goes (
      ap (strncpy (s + 1) (t + 1) n (update m s (m t))) (omega arith)
      ∙ strncpy-byte (s + 1) (t + 1) n (update m s (m t)) i (omega arith) (omega arith)
      ∙ byte-update m s (m t) (t + 1) i (omega arith))
]

-- strncpy leaves the string at s as the first n bytes of the one at t, padded with NULs, and
-- changes no other address; the regions do not overlap.
pub strncpy_lem :
    (s t n : ℕ) (m : Mem)
    → Apart s t n
    → ((i : ℕ) → i < n → strncpy s t n m (s + i) ≡ byte m t i)
      × ((a : ℕ) → (a < s) ⊎ (s + n ≤ a) → strncpy s t n m a ≡ m a)
strncpy_lem s t n m a = (λ i. strncpy-byte s t n m i a, strncpy_other s t n m)

safe_copy_other : (s t n : ℕ) (m : Mem) (a : ℕ) → (a < s) ⊎ (s + n < a) → safe_copy s t n m a ≡ m a
unfolding safe_copy
safe_copy_other s t zero m a h = ground arith
safe_copy_other s t (suc n) m a h =
    ground (arith, safe_copy_other (s + 1) (t + 1) n (update m s (m t)) a)

safe_copy_goes :
    (s t n : ℕ) (m : Mem)
    → (m t == 0) ≡ false
    → safe_copy s t (suc n) m ≡ safe_copy (s + 1) (t + 1) n (update m s (m t))
unfolding safe_copy
safe_copy_goes s t n m goes = rw goes

byte-safe_copy :
    (s t n : ℕ) (m : Mem) (i : ℕ)
    → Apart s t (n + 1)
    → byte (safe_copy s t n m) s i ≡ (if ltb i n then byte m t i else 0)
unfolding safe_copy
byte-safe_copy s t zero m zero a = ground arith
byte-safe_copy s t zero m (suc i) a = ground arith
byte-safe_copy s t (suc n) m zero a = elim (Bool-cases (m t == 0)) [
  | inl ends ↦ rw ends (ground arith)
  | inr goes ↦
      rw goes (safe_copy_other (s + 1) (t + 1) n (update m s (m t)) s (omega arith) ∙ ground arith)
]
byte-safe_copy s t (suc n) m (suc i) a = elim (Bool-cases (m t == 0)) [
  | inl ends ↦ rw ends (ground arith)
  | inr goes ↦
      let m' : Mem = update m s (m t) in
      let head : safe_copy (s + 1) (t + 1) n m' s ≡ m t =
        safe_copy_other (s + 1) (t + 1) n m' s (omega arith) ∙ ground arith in
      let ih = byte-safe_copy (s + 1) (t + 1) n m' i (omega arith) in
      subst (λ r. byte r s (suc i) ≡ (if ltb (suc i) (suc n) then byte m t (suc i) else 0))
        (sym (safe_copy_goes s t n m goes))
        (ground (arith, goes, head, ih, byte-update m s (m t) (t + 1) i))
]

-- safestrcpy of n > 0 bytes leaves at s a string that ends: the first n - 1 bytes of the one at t,
-- and NUL after them. It changes only the n bytes from s up; the regions do not overlap.
pub safestrcpy_lem :
    (s t n : ℕ) (m : Mem)
    → 0 < n
    → Apart s t n
    → ((i : ℕ) → byte (safestrcpy s t n m) s i ≡ (if ltb i (n - 1) then byte m t i else 0))
      × ((a : ℕ) → (a < s) ⊎ (s + n ≤ a) → safestrcpy s t n m a ≡ m a)
unfolding safestrcpy
safestrcpy_lem s t zero m h a = absurd (omega arith)
safestrcpy_lem s t (suc n) m h a = (
  (λ i. rw (pred_suc n) (byte-safe_copy s t n m i (omega arith))),
  λ b o. safe_copy_other s t n m b (omega arith),
)
  where
    pred_suc : (k : ℕ) → suc k - 1 ≡ k
    pred_suc k = omega arith
