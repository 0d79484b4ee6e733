-- ===== src/File/Loops.antt =====
-- The loops of fork and exit over the descriptors of a process.
use modificacion_sistema_ope.Base.{
  ℕ, zero, suc, ◌+◌, ◌<◌, ◌≤◌, ◌≡◌, ◌≢◌, inl, inr, refl, arith, ap, ◌∙◌, Option, none, some, update,
  update_ne, ltb, leb, ◌&&◌, if◌then◌else◌, ℕ_discrete, Option-cases,
}
use modificacion_sistema_ope.File.Defs.{nfile, Ftable}
use modificacion_sistema_ope.File.Calls.{Fds, dup_all, close_all}
use modificacion_sistema_ope.File.Counts.{refs, refs_pos, Counts, put_fd, take_fd}
use modificacion_sistema_ope.File.Table.{filedup-Counts, fileclose-Counts}
use modificacion_sistema_ope.File.Keeps.{in_table}

module _ (fds : ℕ → ℕ → Option ℕ) (p : ℕ) (hp : p < 64) where
  pub close_all-Counts :
      (n i : ℕ) (e : ℕ → ℕ) (o : Fds) (t : Ftable)
      → Counts e (update fds p o) t
      → i + n ≤ 16
      → (o' : Fds) × (t' : Ftable) × (close_all n i o t ≡ some (o', t'))
        × Counts e (update fds p o') t'
        × ((d : ℕ) → o' d ≡ (if leb i d && ltb d (i + n) then none else o d))
  unfolding close_all
  close_all-Counts zero i e o t c h = (o, t, refl, c, λ d. ground arith)
  close_all-Counts (suc n) i e o t c h = elim (Option-cases (o i)) [
    | inl z ↦
        let (o', t', d, c', all) = close_all-Counts n (i + 1) e o t c (omega arith) in
        (
          o',
          t',
          ground (arith, z, d),
          c',
          λ k. all k ∙ elim (ℕ_discrete k i) [
            | yes q ↦ ground (arith, q, ap o q ∙ z)
            | no q ↦ ground (arith, q)
          ],
        )
    | inr (f, z) ↦
        let o₁ : Fds = update o i none in
        let hf : f < nfile = in_table fds p hp e o t c i f z in
        let (t₁, d₁, c₁, m) =
          fileclose-Counts (update fds p o₁) e t f (take_fd fds p hp e o t i f (omega arith) z c)
            hf in
        let (o', t', d, c', all) = close_all-Counts n (i + 1) e o₁ t₁ c₁ (omega arith) in
        (o', t', ground (arith, z, d₁, d), c', λ k. all k ∙ ground arith)
  ]

  -- fork's loop, for a child `p` and a parent `q`.
  pub dup_all-Counts :
      (n i : ℕ) (e : ℕ → ℕ) (q : ℕ) (o : Fds) (t : Ftable)
      → q < 64
      → q ≢ p
      → ((d : ℕ) → i ≤ d → o d ≡ none)
      → Counts e (update fds p o) t
      → i + n ≤ 16
      → (o' : Fds) × (t' : Ftable) × (dup_all n i (fds q) o t ≡ some (o', t'))
        × Counts e (update fds p o') t'
        × ((d : ℕ) → o' d ≡ (if leb i d && ltb d (i + n) then fds q d else o d))
  unfolding dup_all
  dup_all-Counts zero i e q o t hq ne empty c h = (o, t, refl, c, λ d. ground arith)
  dup_all-Counts (suc n) i e q o t hq ne empty c h = elim (Option-cases (fds q i)) [
    | inl z ↦
        let (o', t', d, c', all) =
          dup_all-Counts n (i + 1) e q o t hq ne (λ k l. empty k (omega arith)) c (omega arith) in
        (
          o',
          t',
          ground (arith, z, d),
          c',
          λ k. all k ∙ elim (ℕ_discrete k i) [
            | yes x ↦
                let a : fds q k ≡ none = ap (fds q) x ∙ z in
                let b : o k ≡ none = empty k (omega (arith, x)) in ground (arith, x, a, b)
            | no x ↦ ground (arith, x)
          ],
        )
    | inr (f, z) ↦
        let z' : update fds p o q i ≡ some f = ap (λ y. y i) (update_ne fds p o q ne) ∙ z in
        let there : 0 < refs (update fds p o) f =
          refs_pos (update fds p o) q i f hq (omega arith) z' in
        let hf : f < nfile = c.files q i f z' in
        let (t₁, d₁, c₁) = filedup-Counts (update fds p o) e t f c hf (omega (arith, there)) in
        let o₁ : Fds = update o i (some f) in
        let (o', t', d, c', all) =
          dup_all-Counts n (i + 1) e q o₁ t₁ hq ne
            (λ k l. update_ne o i (some f) k (omega arith) ∙ empty k (omega arith))
            (put_fd fds p hp e o t₁ i f (omega arith) (empty i (omega arith)) hf c₁)
            (omega arith) in
        (
          o',
          t',
          ground (arith, z, d₁, d),
          c',
          λ k. all k ∙ elim (ℕ_discrete k i) [
            | yes x ↦ ground (arith, x, ap (fds q) x ∙ z)
            | no x ↦ ground (arith, x)
          ],
        )
  ]
