-- ===== src/Kalloc/Ownership.antt =====
-- Clients of the allocator: each page is free or owned by whoever kalloc gave it to.
use modificacion_sistema_ope.Base.{
  ℕ, ◌≡◌, ◌≢◌, refl, List, [], ◌∷◌, some, update, update_ne, update_self, Bool, true, false, ap,
  sym, ◌∙◌, ℕ_discrete,
}
use mathlib.Core.Bool.{false≢true}
use modificacion_sistema_ope.Kalloc.Defs.{Kmem, kfree, kalloc}
use modificacion_sistema_ope.Kalloc.FreeList.{
  IsPage, All, Holds, kfree-push, kalloc-pop, kalloc-empty,
}

pub record Pages : Type 0 where
  pub kmem : Kmem
  pub owned : ℕ → Bool

-- A client takes a page, or frees one that is owned.
pub data Step (kernel_end : ℕ) : Pages → Pages → Type 0 where
  takes :
      (s : Pages)
      → (kalloc s.kmem).0 ≢ 0
      → Step kernel_end s
          (record { kmem = (kalloc s.kmem).1; owned = update s.owned (kalloc s.kmem).0 true })
  frees :
      (s : Pages) (v : ℕ) (k : Kmem)
      → s.owned v ≡ true
      → kfree kernel_end v s.kmem ≡ some k
      → Step kernel_end s (record { kmem = k; owned = update s.owned v false })

-- The pages are free at first.
pub data Reach (kernel_end : ℕ) (pages : List ℕ) : Pages → Type 0 where
  booted :
      (k : Kmem)
      → Holds kernel_end k pages
      → Reach kernel_end pages (record { kmem = k; owned = λ _. false })
  later : {s t : Pages} → Reach kernel_end pages s → Step kernel_end s t → Reach kernel_end pages t

record Inv (kernel_end : ℕ) (s : Pages) (free : List ℕ) : Type 0 where
  holds : Holds kernel_end s.kmem free
  unowned : All (λ p. s.owned p ≡ false) free
  pages : (v : ℕ) → s.owned v ≡ true → IsPage kernel_end v

abbrev SomeInv : ℕ → Pages → Type 0
SomeInv kernel_end s = (free : List ℕ) × Inv kernel_end s free

All-unowned : (free : List ℕ) → All (λ p. false ≡ false) free
All-unowned [] = tt
All-unowned (p ∷ ps) = (refl, All-unowned ps)

-- An owned page is none of the free ones.
owned-apart :
    (owned : ℕ → Bool) (v : ℕ) (free : List ℕ)
    → owned v ≡ true
    → All (λ p. owned p ≡ false) free
    → All (λ p. v ≢ p) free
owned-apart owned v [] o u = tt
owned-apart owned v (p ∷ ps) o u =
    ((λ e. absurd (false≢true (sym u.0 ∙ ap owned (sym e) ∙ o))), owned-apart owned v ps o u.1)

unowned-update :
    (owned : ℕ → Bool) (v : ℕ) (b : Bool) (free : List ℕ)
    → All (λ p. v ≢ p) free
    → All (λ p. owned p ≡ false) free
    → All (λ p. update owned v b p ≡ false) free
unowned-update owned v b [] a u = tt
unowned-update owned v b (p ∷ ps) a u =
    (update_ne owned v b p (λ e. a.0 (sym e)) ∙ u.0, unowned-update owned v b ps a.1 u.1)

module _ (kernel_end : ℕ) where
  takes-Inv :
      (s : Pages) (free : List ℕ)
      → (kalloc s.kmem).0 ≢ 0
      → Inv kernel_end s free
      → SomeInv kernel_end
          (record { kmem = (kalloc s.kmem).1; owned = update s.owned (kalloc s.kmem).0 true })
  takes-Inv s [] ne i = absurd (ne (ap (λ r. r.0) (kalloc-empty kernel_end s.kmem i.holds)))
  takes-Inv s (p ∷ ps) ne i =
      let pop = kalloc-pop kernel_end s.kmem p ps i.holds in
      (
        ps,
        rw pop.0 (record {
          holds = pop.1;
          unowned = unowned-update s.owned p true ps i.holds.distinct.0 i.unowned.1;
          pages = λ v o. elim (ℕ_discrete v p) [
            | yes e ↦ rw e i.holds.valid.0
            | no e ↦ i.pages v (sym (update_ne s.owned p true v e) ∙ o)
          ];
        }),
      )

  frees-Inv :
      (s : Pages) (v : ℕ) (k : Kmem) (free : List ℕ)
      → s.owned v ≡ true
      → kfree kernel_end v s.kmem ≡ some k
      → Inv kernel_end s free
      → SomeInv kernel_end (record { kmem = k; owned = update s.owned v false })
  frees-Inv s v k free o e i =
      let apart = owned-apart s.owned v free o i.unowned in
      let (k', e', h) = kfree-push kernel_end v s.kmem free (i.pages v o) apart i.holds in
      let same : k' ≡ k = cc (e', e) in
      (
        v ∷ free,
        rw (← same) (record {
          holds = h;
          unowned =
              (update_self s.owned v false, unowned-update s.owned v false free apart i.unowned);
          pages = λ u o'. elim (ℕ_discrete u v) [
            | yes q ↦ rw q (i.pages v o)
            | no q ↦ i.pages u (sym (update_ne s.owned v false u q) ∙ o')
          ];
        }),
      )

  Reach-Inv : {pages : List ℕ} {s : Pages} → Reach kernel_end pages s → SomeInv kernel_end s
  Reach-Inv {pages} (booted k h) = (
    pages,
    record { holds = h; unowned = All-unowned pages; pages = λ v o. absurd (false≢true o) },
  )
  Reach-Inv (later r (takes s ne)) = let (free, i) = Reach-Inv r in takes-Inv s free ne i
  Reach-Inv (later r (frees s v k o e)) = let (free, i) = Reach-Inv r in frees-Inv s v k free o e i

  -- Clients that free only what they own never share a page: in every reachable state a page that
  -- kalloc gives is a page of the kernel's range that nobody owns.
  pub kalloc-unowned :
      {pages : List ℕ} {s : Pages}
      → Reach kernel_end pages s
      → (kalloc s.kmem).0 ≢ 0
      → IsPage kernel_end (kalloc s.kmem).0 × (s.owned (kalloc s.kmem).0 ≡ false)
  kalloc-unowned {s = s} r ne = let (free, i) = Reach-Inv r in first free i
    where
      first :
          (free : List ℕ)
          → Inv kernel_end s free
          → IsPage kernel_end (kalloc s.kmem).0 × (s.owned (kalloc s.kmem).0 ≡ false)
      first [] i = absurd (ne (ap (λ r. r.0) (kalloc-empty kernel_end s.kmem i.holds)))
      first (p ∷ ps) i =
          rw (kalloc-pop kernel_end s.kmem p ps i.holds).0 (i.holds.valid.0, i.unowned.0)

  -- And kfree of a page that is owned never panics; kalloc gives that page next.
  pub kfree-owned :
      {pages : List ℕ} {s : Pages} (v : ℕ)
      → Reach kernel_end pages s
      → s.owned v ≡ true
      → (k : Kmem) × (kfree kernel_end v s.kmem ≡ some k) × ((kalloc k).0 ≡ v)
  kfree-owned {s = s} v r o =
      let (free, i) = Reach-Inv r in
      let (k, e, h) =
        kfree-push kernel_end v s.kmem free (i.pages v o) (owned-apart s.owned v free o i.unowned)
          i.holds in
      (k, e, (kalloc-pop kernel_end k v free h).0)
