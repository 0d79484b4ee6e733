-- ===== src/Kalloc/FreeList.antt =====
-- The linked list through the free pages refines a stack of pages.
use modificacion_sistema_ope.Base.{
  ℕ, ◌%◌, ◌<◌, ◌≤◌, ◌≡◌, ◌≢◌, refl, arith, List, [], ◌∷◌, some, update, update_self, ◌==◌, false,
}
use modificacion_sistema_ope.Kalloc.Defs.{Kmem, phys_top, v2p, junk, kfree, kalloc}

-- What kfree accepts.
pub record IsPage (kernel_end v : ℕ) : Type 0 where
  pub aligned : v % 4096 ≡ 0
  pub above : kernel_end ≤ v
  pub below : v2p v < phys_top
  pub nonzero : v ≢ 0

-- From `head` on, the list runs through `pages` and ends.
abbrev pub Chain : (ℕ → ℕ) → ℕ → List ℕ → Type 0
Chain word head [] = head ≡ 0
Chain word head (p ∷ ps) = (head ≡ p) × Chain word (word p) ps

abbrev pub All {ℓ} : (ℕ → Type ℓ) → List ℕ → Type ℓ
All P [] = Unit
All P (x ∷ xs) = P x × All P xs

abbrev pub Distinct : List ℕ → Type 0
Distinct [] = Unit
Distinct (x ∷ xs) = All (λ y. x ≢ y) xs × Distinct xs

-- The free pages, most recently freed first.
pub record Holds (kernel_end : ℕ) (k : Kmem) (pages : List ℕ) : Type 0 where
  pub chain : Chain k.word k.freelist pages
  pub valid : All (IsPage kernel_end) pages
  pub distinct : Distinct pages

-- Filling page `v` touches no word of another page.
Chain-junk :
    (kernel_end : ℕ) (word : ℕ → ℕ) (v head old : ℕ) (ps : List ℕ)
    → v % 4096 ≡ 0
    → All (IsPage kernel_end) ps
    → All (λ p. v ≢ p) ps
    → Chain word head ps
    → Chain (update (junk v word) v old) head ps
Chain-junk kernel_end word v head old [] a ok away c = c
Chain-junk kernel_end word v head old (p ∷ ps) a ok away c =
    (c.0, rw kept (Chain-junk kernel_end word v (word p) old ps a ok.1 away.1 c.1))
  where
    kept : update (junk v word) v old p ≡ word p
    kept = ground (arith, ok.0, away.0)

-- kfree of a page that is not free pushes it.
pub kfree-push :
    (kernel_end v : ℕ) (k : Kmem) (pages : List ℕ)
    → IsPage kernel_end v
    → All (λ p. v ≢ p) pages
    → Holds kernel_end k pages
    → (k' : Kmem) × (kfree kernel_end v k ≡ some k') × Holds kernel_end k' (v ∷ pages)
unfolding kfree
kfree-push kernel_end v k pages ok away h = (
  record k { word = update (junk v k.word) v k.freelist; freelist = v },
  ground (arith, ok),
  record {
    chain = (
      refl,
      rw (update_self (junk v k.word) v k.freelist) (
          Chain-junk kernel_end k.word v k.freelist k.freelist pages ok.aligned h.valid away
            h.chain),
    );
    valid = (ok, h.valid);
    distinct = (away, h.distinct);
  },
)

-- kalloc pops the last page freed, and gives 0 exactly if none is free.
pub kalloc-pop :
    (kernel_end : ℕ) (k : Kmem) (p : ℕ) (ps : List ℕ)
    → Holds kernel_end k (p ∷ ps)
    → ((kalloc k).0 ≡ p) × Holds kernel_end (kalloc k).1 ps
unfolding kalloc
kalloc-pop kernel_end k p ps h =
    let used : (k.freelist == 0) ≡ false = ground (arith, h.chain.0, h.valid.0.nonzero) in
    rw used (
      h.chain.0,
      record { chain = rw h.chain.0 h.chain.1; valid = h.valid.1; distinct = h.distinct.1 },
    )

pub kalloc-empty : (kernel_end : ℕ) (k : Kmem) → Holds kernel_end k [] → kalloc k ≡ (0, k)
unfolding kalloc
kalloc-empty kernel_end k h = ground (arith, h.chain)
