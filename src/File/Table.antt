-- ===== src/File/Table.antt =====
-- filealloc, filedup and fileclose keep the counts.
use modificacion_sistema_ope.Base.{
  ℕ, zero, suc, ◌+◌, ◌-◌, ◌<◌, ◌≤◌, ◌≡◌, ◌≢◌, ◌⊎◌, inl, inr, refl, arith, sym, ap, ◌∙◌, Option,
  none, some, ◌++◌, update, update_self, update_ne, ◌==◌, if◌then◌else◌, ℕ_discrete,
}
use modificacion_sistema_ope.File.Defs.{
  nfile, fd_none, File, Ftable, set_ref, close_calls, filealloc_from, filealloc, filedup, fileclose,
}
use modificacion_sistema_ope.File.Counts.{refs, Counts, plus, plus_self, Counts-made}

filealloc_from_lem :
    (n i : ℕ) (t : Ftable)
    → ((f : ℕ) × (filealloc_from n i t ≡ some (f, set_ref f 1 t))
        × (i ≤ f)
        × (f < i + n)
        × ((t.file f).ref ≡ 0))
      ⊎ (filealloc_from n i t ≡ none)
unfolding filealloc_from
filealloc_from_lem zero i t = inr refl
filealloc_from_lem (suc n) i t = elim (ℕ_discrete (t.file i).ref 0) [
  | yes z ↦ inl (i, ground (arith, z), omega arith, omega arith, z)
  | no nz ↦ elim (filealloc_from_lem n (i + 1) t) [
    | inl (f, e, lo, hi, z) ↦
        inl (f, ground (arith, nz, e), omega (arith, lo), omega (arith, hi), z)
    | inr e ↦ inr (ground (arith, nz, e))
  ]
]

module _ (fds : ℕ → ℕ → Option ℕ) where
  -- A file of the table changed, and its count with those in hand.
  change :
      (e e' : ℕ → ℕ) (t : Ftable) (f : ℕ) (x : File)
      → Counts e fds t
      → (f < nfile → x.ref ≡ refs fds f + e' f)
      → (x.ref ≡ 0 → x.kind ≡ fd_none)
      → ((g : ℕ) → g ≢ f → e' g ≡ e g)
      → Counts e' fds (record t { file = update t.file f x })
  change e e' t f x c at gone other = record {
    ref_lem = λ g hg. elim (ℕ_discrete g f) [
      | yes q ↦
          let here : update t.file f x g ≡ x = ap (update t.file f x) q ∙ update_self t.file f x in
          ap (λ y. y.ref) here ∙ at (omega (arith, q, hg)) ∙ ap (λ y. refs fds y + e' y) (sym q)
      | no ne ↦
          ap (λ y. y.ref) (update_ne t.file f x g ne)
          ∙ c.ref_lem g hg
          ∙ ap (λ y. refs fds g + y) (sym (other g ne))
    ];
    unused = λ g hg z. elim (ℕ_discrete g f) [
      | yes q ↦
          let here : update t.file f x g ≡ x = ap (update t.file f x) q ∙ update_self t.file f x in
          ap (λ y. y.kind) here ∙ gone (sym (ap (λ y. y.ref) here) ∙ z)
      | no ne ↦
          ap (λ y. y.kind) (update_ne t.file f x g ne)
          ∙ c.unused g hg (sym (ap (λ y. y.ref) (update_ne t.file f x g ne)) ∙ z)
    ];
    files = c.files;
  }

  pub filealloc-Counts :
      (e : ℕ → ℕ) (t : Ftable)
      → Counts e fds t
      → ((f : ℕ) × (filealloc t ≡ some (f, set_ref f 1 t))
          × (f < nfile)
          × Counts (plus f e) fds (set_ref f 1 t))
        ⊎ (filealloc t ≡ none)
  unfolding filealloc
  filealloc-Counts e t c = elim (filealloc_from_lem nfile 0 t) [
    | inr q ↦ inr q
    | inl (f, q, lo, hi, z) ↦ inl (
      f,
      q,
      hi,
      change e (plus f e) t f (record (t.file f) { ref = 1 }) c
          (λ h. omega (arith, c.ref_lem f hi, z, plus_self f e)) (λ s. absurd (omega (arith, s)))
          (λ g ne. ground (arith, ne)),
    )
  ]

  pub filedup-Counts :
      (e : ℕ → ℕ) (t : Ftable) (f : ℕ)
      → Counts e fds t
      → f < nfile
      → 0 < refs fds f + e f
      → (t' : Ftable) × (filedup f t ≡ some t') × Counts (plus f e) fds t'
  unfolding filedup
  filedup-Counts e t f c hf pos = (
    set_ref f ((t.file f).ref + 1) t,
    ground (arith, c.ref_lem f hf, pos),
    change e (plus f e) t f (record (t.file f) { ref = (t.file f).ref + 1 }) c
        (λ h. omega (arith, c.ref_lem f hf, plus_self f e)) (λ s. absurd (omega (arith, s)))
        (λ g ne. ground (arith, ne)),
  )

  -- The calls are made exactly when the last reference goes.
  pub fileclose-Counts :
      (e : ℕ → ℕ) (t : Ftable) (f : ℕ)
      → Counts (plus f e) fds t
      → f < nfile
      → (t' : Ftable) × (fileclose f t ≡ some t')
        × Counts e fds t'
        × (t'.made ≡ (if refs fds f + e f == 0 then close_calls (t.file f) ++ t.made else t.made))
  unfolding fileclose
  fileclose-Counts e t f c hf =
      let r : (t.file f).ref ≡ refs fds f + e f + 1 =
        omega (arith, c.ref_lem f hf, plus_self f e) in
      elim (ℕ_discrete (refs fds f + e f) 0) [
        | yes z ↦ (
          record t {
            file = update t.file f (record (t.file f) { ref = 0; kind = fd_none });
            made = close_calls (t.file f) ++ t.made;
          },
          ground (arith, r, z),
          Counts-made e fds
              (record t { file = update t.file f (record (t.file f) { ref = 0; kind = fd_none }) })
              (close_calls (t.file f) ++ t.made)
              (change (plus f e) e t f (record (t.file f) { ref = 0; kind = fd_none }) c
                (λ h. sym z) (λ s. refl) (λ g ne. ground (arith, ne))),
          ground (arith, z),
        )
        | no nz ↦ (
          set_ref f ((t.file f).ref - 1) t,
          ground (arith, r, nz),
          change (plus f e) e t f (record (t.file f) { ref = (t.file f).ref - 1 }) c
              (λ h. omega (arith, r)) (λ s. absurd (omega (arith, s, r, nz)))
              (λ g ne. ground (arith, ne)),
          ground (arith, nz),
        )
      ]

  -- A file in use gets another kind, with its count.
  pub retype-Counts :
      (e : ℕ → ℕ) (t : Ftable) (f : ℕ) (x : File)
      → Counts e fds t
      → f < nfile
      → 0 < e f
      → x.ref ≡ (t.file f).ref
      → Counts e fds (record t { file = update t.file f x })
  retype-Counts e t f x c hf pos same =
      change e e t f x c (λ h. omega (arith, same, c.ref_lem f hf))
        (λ z. absurd (omega (arith, z, same, c.ref_lem f hf, pos))) (λ g ne. refl)
