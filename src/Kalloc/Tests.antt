-- ===== src/Kalloc/Tests.antt =====
-- The allocator's theorems at small ranges of pages.
use modificacion_sistema_ope.Base.{◌≡◌, refl, arith, [], ◌∷◌, some, true, false, update}
use modificacion_sistema_ope.Kalloc.Defs.{Kmem, kalloc, freerange}
use modificacion_sistema_ope.Kalloc.FreeList.{IsPage, Holds}
use modificacion_sistema_ope.Kalloc.Ownership.{Pages, Reach, booted, takes, later, kalloc-unowned}
use modificacion_sistema_ope.Kalloc.Range.{freerange-Holds}

abbrev empty : Kmem
empty = record { word = λ _. 0; freelist = 0; use_lock = false }

empty-Holds : Holds 0x80100000 empty []
empty-Holds = record { chain = refl; valid = tt; distinct = tt }

abbrev one_page : Kmem
one_page = record { word = λ _. 0; freelist = 0x80200000; use_lock = true }

one_page-Holds : Holds 0x80100000 one_page (0x80200000 ∷ [])
one_page-Holds = record { chain = (refl, refl); valid = (omega arith, tt); distinct = (tt, tt) }

-- Two whole pages from the start, rounded up.
freerange-Holds_example :
    (k' : Kmem) × (freerange 0x80100000 0x80200001 0x80203000 empty ≡ some k')
    × Holds 0x80100000 k' (0x80202000 ∷ 0x80201000 ∷ [])
freerange-Holds_example =
    freerange-Holds 0x80100000 0x80203000 0x80200001 empty [] (omega arith) (omega arith) tt
      empty-Holds

abbrev one_free : Pages
one_free = record { kmem = one_page; owned = λ _. false }

one_free-Reach : Reach 0x80100000 (0x80200000 ∷ []) one_free
one_free-Reach = booted one_page one_page-Holds

kalloc-unowned_example :
    IsPage 0x80100000 (kalloc one_free.kmem).0 × (one_free.owned (kalloc one_free.kmem).0 ≡ false)
unfolding kalloc
kalloc-unowned_example = kalloc-unowned 0x80100000 one_free-Reach (λ e. omega arith)

abbrev one_taken : Pages
one_taken = record {
  kmem = (kalloc one_page).1;
  owned = update (λ _. false) (kalloc one_page).0 true;
}

one_taken-Reach : Reach 0x80100000 (0x80200000 ∷ []) one_taken
unfolding kalloc
one_taken-Reach =
    later (booted one_page one_page-Holds)
      (takes (record { kmem = one_page; owned = λ _. false }) (λ e. omega arith))
