-- ===== src/Kalloc/Range.antt =====
-- freerange: which pages it frees.
use modificacion_sistema_ope.Base.{
  subst, sym, ℕ, zero, suc, ◌+◌, ◌-◌, ◌*◌, ◌/◌, ◌%◌, ◌<◌, ◌≤◌, ◌≡◌, ◌≢◌, refl, arith, List, [], ◌∷◌,
  some, gt→leb, le→leb,
}
use modificacion_sistema_ope.Kalloc.Defs.{
  Kmem, free_pages, freerange, pg_round_up, kern_base, phys_top,
}
use modificacion_sistema_ope.Kalloc.FreeList.{IsPage, All, Holds, kfree-push}

-- `n` whole pages from `p` up, each pushed on `pages`.
abbrev pub push_pages : ℕ → ℕ → List ℕ → List ℕ
push_pages zero p pages = pages
push_pages (suc n) p pages = push_pages n (p + 4096) (p ∷ pages)

-- A range that kfree accepts: above the kernel, in the memory that the kernel maps.
pub record IsRange (kernel_end vstart vend : ℕ) : Type 0 where
  pub kernel : kernel_end ≤ vstart
  pub mapped : kern_base ≤ vstart
  pub top : vend ≤ kern_base + phys_top

-- No free page from `p` up.
abbrev pub Below : ℕ → List ℕ → Type 0
Below p pages = All (λ q. q < p) pages

Below-ne : (p : ℕ) (pages : List ℕ) → Below p pages → All (λ q. p ≢ q) pages
Below-ne p [] b = tt
Below-ne p (q ∷ qs) b = (omega arith, Below-ne p qs b.1)

Below-up : (p q : ℕ) (pages : List ℕ) → p ≤ q → Below p pages → Below q pages
Below-up p q [] le b = tt
Below-up p q (r ∷ rs) le b = (omega arith, Below-up p q rs le b.1)

Below-next : (p : ℕ) (pages : List ℕ) → Below p pages → Below (p + 4096) pages
Below-next p [] b = tt
Below-next p (q ∷ qs) b = (omega arith, Below-next p qs b.1)

module _ (kernel_end vend : ℕ) where
  free_pages-Holds :
      (rounds n p : ℕ) (k : Kmem) (pages : List ℕ)
      → n ≡ (vend - p) / 4096
      → n ≤ rounds
      → p % 4096 ≡ 0
      → IsRange kernel_end p vend
      → Below p pages
      → Holds kernel_end k pages
      → (k' : Kmem) × (free_pages kernel_end rounds p vend k ≡ some k')
        × Holds kernel_end k' (push_pages n p pages)
  unfolding free_pages
  free_pages-Holds zero zero p k pages e le al r b h = (k, refl, h)
  free_pages-Holds zero (suc n) p k pages e le al r b h = absurd (omega arith)
  free_pages-Holds (suc rounds) zero p k pages e le al r b h =
      (k, rw (gt→leb (p + 4096) vend (omega arith)), h)
  free_pages-Holds (suc rounds) (suc n) p k pages e le al r b h =
      let page : IsPage kernel_end p = ground (arith, r) in
      let (k', e', h') = kfree-push kernel_end p k pages page (Below-ne p pages b) h in
      let (k'', e'', h'') =
        free_pages-Holds rounds n (p + 4096) k' (p ∷ pages) (omega arith) (omega arith)
          (omega arith) (omega arith) (omega arith, Below-next p pages b) h' in
      (k'', rw (le→leb (p + 4096) vend (omega arith), e', free_pages) e'', h'')

  -- freerange of a range of pages that kfree accepts, with no free page above its start, frees
  -- every whole page in it once, from the rounded start up, and none else.
  pub freerange-Holds :
      (vstart : ℕ) (k : Kmem) (pages : List ℕ)
      → IsRange kernel_end vstart vend
      → vstart ≤ vend
      → Below vstart pages
      → Holds kernel_end k pages
      → let first : ℕ = (vstart + 4095) / 4096 * 4096 in
        (k' : Kmem) × (freerange kernel_end vstart vend k ≡ some k')
        × Holds kernel_end k' (push_pages ((vend - first) / 4096) first pages)
  unfolding freerange
  freerange-Holds vstart k pages r le b h =
      let first : ℕ = (vstart + 4095) / 4096 * 4096 in
      let rounded : pg_round_up vstart ≡ first = omega (arith, r.top) in
      subst
        (λ f.
          (k' : Kmem) × (free_pages kernel_end (vend / 4096) f vend k ≡ some k')
          × Holds kernel_end k' (push_pages ((vend - first) / 4096) first pages))
        (sym rounded)
        (free_pages-Holds (vend / 4096) ((vend - first) / 4096) first k pages refl (omega arith)
          (omega arith) (omega (arith, r.top, r.mapped, r.kernel))
          (Below-up vstart first pages (omega arith) b) h)
