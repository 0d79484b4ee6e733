-- ===== src/File/Keeps.antt =====
-- The calls on descriptors keep the counts and do not panic.
use modificacion_sistema_ope.Base.{
  ℕ, zero, suc, ◌+◌, ◌<◌, ◌≡◌, ◌⊎◌, inl, inr, refl, arith, ap, ◌∙◌, subst, true, false, Option,
  none, some, ℤ, pos, negsuc, ◌∷◌, update, update_self, ℕ_discrete, dec_lt, Option-cases, fun_ext,
}
use modificacion_sistema_ope.File.Defs.{nfile, end_op, File, Ftable, set_ref}
use modificacion_sistema_ope.File.Calls.{
  Fds, Outcome, argfd, fdalloc_from, fdalloc, sys_dup, sys_close, put_inode, opened, open_file,
  pipe_end, pipealloc, close_both, sys_pipe,
}
use modificacion_sistema_ope.File.Counts.{
  refs, refs_pos, Counts, Counts-made, plus, plus_self, put_fd, take_fd,
}
use modificacion_sistema_ope.File.Table.{
  filealloc-Counts, filedup-Counts, fileclose-Counts, retype-Counts,
}

fdalloc_from_lem :
    (n i f : ℕ) (o : Fds)
    → (fdalloc_from n i f o ≡ none)
      ⊎ ((fd : ℕ) × (fdalloc_from n i f o ≡ some (fd, update o fd (some f)))
          × (fd < i + n)
          × (o fd ≡ none))
unfolding fdalloc_from
fdalloc_from_lem zero i f o = inl refl
fdalloc_from_lem (suc n) i f o = elim (Option-cases (o i)) [
  | inl z ↦ inr (i, ground (arith, z), omega arith, z)
  | inr (g, z) ↦ elim (fdalloc_from_lem n (i + 1) f o) [
    | inl e ↦ inl (ground (arith, z, e))
    | inr (fd, e, l, q) ↦ inr (fd, ground (arith, z, e), omega (arith, l), q)
  ]
]

fdalloc_lem :
    (f : ℕ) (o : Fds)
    → (fdalloc f o ≡ none)
      ⊎ ((fd : ℕ) × (fdalloc f o ≡ some (fd, update o fd (some f))) × (fd < 16) × (o fd ≡ none))
unfolding fdalloc
fdalloc_lem f o = fdalloc_from_lem 16 0 f o

argfd_lem :
    (n : ℤ) (o : Fds)
    → (argfd n o ≡ none)
      ⊎ ((fd : ℕ) × (f : ℕ) × (argfd n o ≡ some (fd, f)) × (fd < 16) × (o fd ≡ some f))
unfolding argfd
argfd_lem (negsuc n) o = inl refl
argfd_lem (pos fd) o = elim (Option-cases (o fd)) [
  | inl z ↦ inl (ground (arith, z))
  | inr (f, z) ↦ elim (dec_lt fd 16) [
    | yes l ↦ inr (fd, f, ground (arith, z, l), l, z)
    | no l ↦ inl (ground (arith, l))
  ]
]

module _ (fds : ℕ → ℕ → Option ℕ) (p : ℕ) (hp : p < 64) where
  -- The descriptors of process `p` being `o`.
  abbrev at : Fds → ℕ → ℕ → Option ℕ
  at o = update fds p o

  -- The call returns, with the counts kept.
  abbrev pub Keeps : (ℕ → ℕ) → Outcome → Type 0
  Keeps e out =
      (r : Option ℕ) × (o : Fds) × (t : Ftable) × (out ≡ some (r, o, t))
      × Counts e (update fds p o) t

  module _ (e : ℕ → ℕ) (o : Fds) (t : Ftable) (c : Counts e (update fds p o) t) where
    pub in_table : (fd f : ℕ) → o fd ≡ some f → f < nfile
    in_table fd f q = c.files p fd f (ap (λ y. y fd) (update_self fds p o) ∙ q)

    pub sys_dup-Keeps : (n : ℤ) → Keeps e (sys_dup n o t)
    unfolding sys_dup
    sys_dup-Keeps n = elim (argfd_lem n o) [
      | inl z ↦ (none, o, t, ground (arith, z), c)
      | inr (fd, f, z, l, q) ↦ elim (fdalloc_lem f o) [
        | inl y ↦ (none, o, t, ground (arith, z, y), c)
        | inr (fd', y, l', q') ↦
            let there : 0 < refs (update fds p o) f =
              refs_pos (update fds p o) p fd f hp l (ap (λ y. y fd) (update_self fds p o) ∙ q) in
            let (t', d, c') =
              filedup-Counts (update fds p o) e t f c (in_table fd f q) (omega (arith, there)) in
            (
              some fd',
              update o fd' (some f),
              t',
              ground (arith, z, y, d),
              put_fd fds p hp e o t' fd' f l' q' (in_table fd f q) c',
            )
      ]
    ]

    pub sys_close-Keeps : (n : ℤ) → Keeps e (sys_close n o t)
    unfolding sys_close
    sys_close-Keeps n = elim (argfd_lem n o) [
      | inl z ↦ (none, o, t, ground (arith, z), c)
      | inr (fd, f, z, l, q) ↦
          let o' : Fds = update o fd none in
          let (t', d, c', m) =
            fileclose-Counts (update fds p o') e t f (take_fd fds p hp e o t fd f l q c)
              (in_table fd f q) in
          (some 0, o', t', ground (arith, z, d), c')
    ]

    pub open_file-Keeps : (omode ip : ℕ) → Keeps e (open_file omode ip o t)
    unfolding open_file
    open_file-Keeps omode ip = elim (filealloc-Counts (update fds p o) e t c) [
      | inr z ↦ (
        none,
        o,
        put_inode ip t,
        ground (arith, z),
        Counts-made e (update fds p o) t (put_inode ip t).made c,
      )
      | inl (f, z, hf, c₁) ↦ elim (fdalloc_lem f o) [
        | inl y ↦
            let (t₂, d, c₂, m) = fileclose-Counts (update fds p o) e (set_ref f 1 t) f c₁ hf in
            (
              none,
              o,
              put_inode ip t₂,
              ground (arith, z, y, d),
              Counts-made e (update fds p o) t₂ (put_inode ip t₂).made c₂,
            )
        | inr (fd, y, l, q) ↦
            let t₁ : Ftable = set_ref f 1 t in
            let x : File = opened omode ip (t₁.file f) in
            let t₂ : Ftable = record t₁ { file = update t₁.file f x } in
            let t₃ : Ftable = record t₂ { made = end_op ∷ t₁.made } in
            let c₂ : Counts (plus f e) (update fds p o) t₂ =
              retype-Counts (update fds p o) (plus f e) t₁ f x c₁ hf (omega (arith, plus_self f e))
                refl in
            (
              some fd,
              update o fd (some f),
              t₃,
              ground (arith, z, y),
              put_fd fds p hp e o t₃ fd f l q hf
                  (Counts-made (plus f e) (update fds p o) t₂ (end_op ∷ t₁.made) c₂),
            )
      ]
    ]

    -- pipealloc gives two files in hand, or leaves the counts.
    pub pipealloc-Counts :
        (page : ℕ)
        → ((t' : Ftable) × (pipealloc page t ≡ some (none, t')) × Counts e (update fds p o) t')
          ⊎ ((f0 : ℕ) × (f1 : ℕ) × (t' : Ftable) × (pipealloc page t ≡ some (some (f0, f1), t'))
              × (f0 < nfile)
              × (f1 < nfile)
              × Counts (plus f0 (plus f1 e)) (update fds p o) t')
    unfolding pipealloc
    pipealloc-Counts page = elim (filealloc-Counts (update fds p o) e t c) [
      | inr z ↦ inl (t, ground (arith, z), c)
      | inl (f0, z, h0, c₁) ↦
          let t₁ : Ftable = set_ref f0 1 t in
          elim (filealloc-Counts (update fds p o) (plus f0 e) t₁ c₁) [
            | inr y ↦
                let (t₂, d, c₂, m) = fileclose-Counts (update fds p o) e t₁ f0 c₁ h0 in
                inl (t₂, ground (arith, z, y, d), c₂)
            | inl (f1, y, h1, c₂) ↦
                let t₂ : Ftable = set_ref f1 1 t₁ in
                let swap : plus f1 (plus f0 e) ≡ plus f0 (plus f1 e) = fun_ext (λ g. omega arith) in
                let c₂' : Counts (plus f0 (plus f1 e)) (update fds p o) t₂ =
                  subst (λ k. Counts k (update fds p o) t₂) swap c₂ in
                elim (ℕ_discrete page 0) [
                  | yes q ↦
                      let (t₃, d, c₃, m) =
                        fileclose-Counts (update fds p o) (plus f1 e) t₂ f0 c₂' h0 in
                      let (t₄, d', c₄, m') = fileclose-Counts (update fds p o) e t₃ f1 c₃ h1 in
                      inl (t₄, ground (arith, z, y, q, d, d'), c₄)
                  | no q ↦
                      let x : File = pipe_end page false (t₂.file f0) in
                      let t₃ : Ftable = record t₂ { file = update t₂.file f0 x } in
                      let c₃ : Counts (plus f0 (plus f1 e)) (update fds p o) t₃ =
                        retype-Counts (update fds p o) (plus f0 (plus f1 e)) t₂ f0 x c₂' h0
                          (omega (arith, plus_self f0 (plus f1 e))) refl in
                      let w : File = pipe_end page true (t₃.file f1) in
                      let t₄ : Ftable = record t₃ { file = update t₃.file f1 w } in
                      inr (
                        f0,
                        f1,
                        t₄,
                        ground (arith, z, y, q),
                        h0,
                        h1,
                        retype-Counts (update fds p o) (plus f0 (plus f1 e)) t₃ f1 w c₃ h1
                            (omega (arith, plus_self f1 e)) refl,
                      )
                ]
          ]
    ]

  close_both-Keeps :
      (e : ℕ → ℕ) (o : Fds) (t : Ftable) (f0 f1 : ℕ)
      → f0 < nfile
      → f1 < nfile
      → Counts (plus f0 (plus f1 e)) (update fds p o) t
      → Keeps e (close_both f0 f1 o t)
  unfolding close_both
  close_both-Keeps e o t f0 f1 h0 h1 c =
      let (t₁, d, c₁, m) = fileclose-Counts (update fds p o) (plus f1 e) t f0 c h0 in
      let (t₂, d', c₂, m') = fileclose-Counts (update fds p o) e t₁ f1 c₁ h1 in
      (none, o, t₂, ground (arith, d, d'), c₂)

  pub sys_pipe-Keeps :
      (e : ℕ → ℕ) (o : Fds) (t : Ftable)
      → Counts e (update fds p o) t
      → (page : ℕ) → Keeps e (sys_pipe page o t)
  unfolding sys_pipe
  sys_pipe-Keeps e o t c page = elim (pipealloc-Counts e o t c page) [
    | inl (t', z, c') ↦ (none, o, t', ground (arith, z), c')
    | inr (f0, f1, t', z, h0, h1, c') ↦ elim (fdalloc_lem f0 o) [
      | inl y ↦
          let (r, o', t'', d, c'') = close_both-Keeps e o t' f0 f1 h0 h1 c' in
          (r, o', t'', ground (arith, z, y, d), c'')
      | inr (fd0, y, l0, q0) ↦
          let o₁ : Fds = update o fd0 (some f0) in
          let c₁ : Counts (plus f1 e) (update fds p o₁) t' =
            put_fd fds p hp (plus f1 e) o t' fd0 f0 l0 q0 h0 c' in
          elim (fdalloc_lem f1 o₁) [
            | inr (fd1, x, l1, q1) ↦ (
              some 0,
              update o₁ fd1 (some f1),
              t',
              ground (arith, z, y, x),
              put_fd fds p hp e o₁ t' fd1 f1 l1 q1 h1 c₁,
            )
            | inl x ↦
                let c₂ : Counts (plus f0 (plus f1 e)) (update fds p (update o₁ fd0 none)) t' =
                  take_fd fds p hp (plus f1 e) o₁ t' fd0 f0 l0 (update_self o fd0 (some f0)) c₁ in
                let (r, o', t'', d, c'') =
                  close_both-Keeps e (update o₁ fd0 none) t' f0 f1 h0 h1 c₂ in
                (r, o', t'', ground (arith, z, y, x, d), c'')
          ]
    ]
  ]
