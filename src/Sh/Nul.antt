-- ===== src/Sh/Nul.antt =====
-- nulterminate of xv6-public/sh.c: which bytes it writes.
use modificacion_sistema_ope.Base.{
  ℕ, ◌-◌, ◌≡◌, ◌≢◌, refl, arith, ◌∙◌, List, [], ◌∷◌, length, update,
}
use modificacion_sistema_ope.Str.{Mem}
use modificacion_sistema_ope.Sh.Defs.{
  Word, Cmd, exec, redir, pipe, list, back, nul_args, nulterminate,
}
use modificacion_sistema_ope.Sh.Shape.{AllWords, Keeps}

module _ {ℓ κ} (P : Word → Type ℓ) (Q : Word → Type κ) (f : (w : Word) → P w → Q w) where
  AllWords-map : (ws : List Word) → AllWords P ws → AllWords Q ws
  AllWords-map [] h = tt
  AllWords-map (w ∷ ws) (h, hs) = (f w h, AllWords-map ws hs)

  pub Keeps-map : (cmd : Cmd Word) → Keeps P cmd → Keeps Q cmd
  Keeps-map (exec args) h = AllWords-map args h
  Keeps-map (redir cmd file mode fd) (h, k) = (Keeps-map cmd h, f file k)
  Keeps-map (pipe left right) (h, k) = (Keeps-map left h, Keeps-map right k)
  Keeps-map (list left right) (h, k) = (Keeps-map left h, Keeps-map right k)
  Keeps-map (back cmd) h = Keeps-map cmd h

module _ {ℓ κ} (P : Word → Type ℓ) (Q : Word → Type κ) where
  AllWords-both : (ws : List Word) → AllWords P ws → AllWords Q ws → AllWords (λ w. P w × Q w) ws
  AllWords-both [] h k = tt
  AllWords-both (w ∷ ws) (h, hs) (k, ks) = ((h, k), AllWords-both ws hs ks)

  pub Keeps-both : (cmd : Cmd Word) → Keeps P cmd → Keeps Q cmd → Keeps (λ w. P w × Q w) cmd
  Keeps-both (exec args) h k = AllWords-both args h k
  Keeps-both (redir cmd file mode fd) (h, f) (k, g) = (Keeps-both cmd h k, (f, g))
  Keeps-both (pipe left right) (h, i) (k, j) = (Keeps-both left h k, Keeps-both right i j)
  Keeps-both (list left right) (h, i) (k, j) = (Keeps-both left h k, Keeps-both right i j)
  Keeps-both (back cmd) h k = Keeps-both cmd h k

module _ (es : ℕ) where
  abbrev pub end_of : Word → ℕ
  end_of w = es - length w.end

  module _ (a : ℕ) where
    nul_args-other :
        (ws : List Word) (m : Mem) → AllWords (λ w. a ≢ end_of w) ws → nul_args es ws m a ≡ m a
    unfolding nul_args
    nul_args-other [] m h = refl
    nul_args-other (w ∷ ws) m (h, hs) =
        ground (arith, h, nul_args-other ws (update m (end_of w) 0) hs)

    -- Where no word ends, nothing changes.
    pub nulterminate-other :
        (cmd : Cmd Word) (m : Mem) → Keeps (λ w. a ≢ end_of w) cmd → nulterminate es cmd m a ≡ m a
    unfolding nulterminate
    nulterminate-other (exec args) m h = nul_args-other args m h
    nulterminate-other (redir cmd file mode fd) m (h, k) =
        ground (arith, k, nulterminate-other cmd m h)
    nulterminate-other (pipe left right) m (h, k) =
        nulterminate-other right _ k ∙ nulterminate-other left m h
    nulterminate-other (list left right) m (h, k) =
        nulterminate-other right _ k ∙ nulterminate-other left m h
    nulterminate-other (back cmd) m h = nulterminate-other cmd m h

    nul_args-zero : (ws : List Word) (m : Mem) → m a ≡ 0 → nul_args es ws m a ≡ 0
    unfolding nul_args
    nul_args-zero [] m h = h
    nul_args-zero (w ∷ ws) m h = nul_args-zero ws (update m (end_of w) 0) (ground (arith, h))

    nulterminate-zero : (cmd : Cmd Word) (m : Mem) → m a ≡ 0 → nulterminate es cmd m a ≡ 0
    unfolding nulterminate
    nulterminate-zero (exec args) m h = nul_args-zero args m h
    nulterminate-zero (redir cmd file mode fd) m h = ground (arith, nulterminate-zero cmd m h)
    nulterminate-zero (pipe left right) m h = nulterminate-zero right _ (nulterminate-zero left m h)
    nulterminate-zero (list left right) m h = nulterminate-zero right _ (nulterminate-zero left m h)
    nulterminate-zero (back cmd) m h = nulterminate-zero cmd m h

  -- The byte after each word is NUL.
  nul_args-ends : (ws : List Word) (m : Mem) → AllWords (λ w. nul_args es ws m (end_of w) ≡ 0) ws
  unfolding nul_args
  nul_args-ends [] m = tt
  nul_args-ends (w ∷ ws) m =
      let m₁ : Mem = update m (end_of w) 0 in
      (nul_args-zero (end_of w) ws m₁ (ground arith), nul_args-ends ws m₁)

  pub nulterminate-ends :
      (cmd : Cmd Word) (m : Mem) → Keeps (λ w. nulterminate es cmd m (end_of w) ≡ 0) cmd
  unfolding nulterminate
  nulterminate-ends (exec args) m = nul_args-ends args m
  nulterminate-ends (redir cmd file mode fd) m =
      (Keeps-map _ _ (λ w h. ground (arith, h)) cmd (nulterminate-ends cmd m), ground arith)
  nulterminate-ends (pipe left right) m = (
    Keeps-map _ _ (λ w h. nulterminate-zero (end_of w) right _ h) left (nulterminate-ends left m),
    nulterminate-ends right (nulterminate es left m),
  )
  nulterminate-ends (list left right) m = (
    Keeps-map _ _ (λ w h. nulterminate-zero (end_of w) right _ h) left (nulterminate-ends left m),
    nulterminate-ends right (nulterminate es left m),
  )
  nulterminate-ends (back cmd) m = nulterminate-ends cmd m
