-- ===== src/Vm/Map.antt =====
-- mappages maps a range of pages.
use modificacion_sistema_ope.Base.{
  ℕ, zero, suc, ◌+◌, ◌-◌, ◌*◌, ◌/◌, ◌%◌, ◌^◌, ◌<◌, ◌≤◌, ◌≡◌, ◌≢◌, ◌⊎◌, inl, inr, refl, arith, sym,
  ap, ◌∙◌, subst, true, false, List, [], update, ◌==◌, if◌then◌else◌,
}
use Prim.Native.Nat.{bit_or}
use modificacion_sistema_ope.Kalloc.{Kmem}
use modificacion_sistema_ope.Vm.Defs.{
  pdx, ptx, is_present, walkpgdir, Mapping, mapped, no_memory, entry, mappages_from, pg_round_down,
  mappages,
}
use modificacion_sistema_ope.Vm.Tables.{table_of, pte_of, IsOwn, Tables, write-Tables, write-pte_of}
use modificacion_sistema_ope.Vm.Walk.{walkpgdir-Walks}
use modificacion_sistema_ope.Vm.Ranges.{
  in_pages, pte_of-there, target, one_page, in_rest, out_rest, more_pages, other_page,
}

module _ (kernel_end pgdir : ℕ) where
  -- The pages translate to those from `pa` on, with the flags and PTE_P (bit 0), and no other translation
  -- changes; or no page is free, and outside of the range no translation has changed.
  abbrev pub Maps : ℕ → ℕ → ℕ → ℕ → Kmem → Mapping → Type 0
  Maps n a pa perm k r =
      (k' : Kmem) × (free' : List ℕ) × Tables kernel_end pgdir k' free'
      × (((r ≡ mapped k')
            × ((va : ℕ)
                → va < 2 ^ 32
                → pte_of k'.word pgdir va ≡ (
                    if in_pages a n va
                    then bit_or (bit_or (target pa a va) perm) 1
                    else pte_of k.word pgdir va)))
          ⊎ ((r ≡ no_memory k')
              × (free' ≡ [])
              × ((va : ℕ)
                  → va < 2 ^ 32
                  → in_pages a n va ≡ false
                  → pte_of k'.word pgdir va ≡ pte_of k.word pgdir va)))

  -- The first round: no page is free, or the entry of `a` is written.
  first_page :
      (a v : ℕ) (k : Kmem) (free : List ℕ)
      → Tables kernel_end pgdir k free
      → a < 2 ^ 32
      → is_present (pte_of k.word pgdir a) ≡ false
      → ((walkpgdir pgdir a true k ≡ (0, k)) × (free ≡ []))
        ⊎ ((pte : ℕ) × (k₁ : Kmem) × (free₁ : List ℕ) × (walkpgdir pgdir a true k ≡ (pte, k₁))
            × (pte ≢ 0)
            × (is_present (k₁.word pte) ≡ false)
            × Tables kernel_end pgdir (record k₁ { word = update k₁.word pte v }) free₁
            × ((va : ℕ)
                → va < 2 ^ 32
                → pte_of (update k₁.word pte v) pgdir va
                  ≡ (if va / 4096 == a / 4096 then v else pte_of k.word pgdir va)))
  first_page a v k free s la clear = elim (walkpgdir-Walks kernel_end pgdir a k free s) [
    | inr none_free ↦ inl none_free
    | inl (k₁, free₁, e, there, s₁, same) ↦
        let t : ℕ = table_of k₁.word pgdir (pdx a) in
        let o : IsOwn kernel_end pgdir free₁ t = s₁.own (pdx a) (omega arith) there in
        inr (
          t + 4 * ptx a,
          k₁,
          free₁,
          e,
          (λ z. o.page.nonzero (omega (arith, z))),
          ap is_present (sym (pte_of-there k₁.word pgdir a there) ∙ same a) ∙ clear,
          write-Tables kernel_end pgdir k₁ free₁ (pdx a) (ptx a) v s₁ (omega arith) (omega arith)
              there,
          λ va l.
              write-pte_of kernel_end pgdir k₁ free₁ a v va s₁ la l there
              ∙ ap (λ (x : ℕ). if va / 4096 == a / 4096 then v else x) (same va),
        )
  ]

  mappages_from-Maps :
      (n a last pa perm : ℕ) (k : Kmem) (free : List ℕ)
      → Tables kernel_end pgdir k free
      → a % 4096 ≡ 0
      → last ≡ a + 4096 * n
      → last < 2 ^ 32
      → pa < 2 ^ 32
      → ((va : ℕ)
          → va < 2 ^ 32
          → in_pages a (suc n) va ≡ true
          → is_present (pte_of k.word pgdir va) ≡ false)
      → Maps (suc n) a pa perm k (mappages_from (suc n) pgdir a last pa perm k)
  unfolding mappages_from
  mappages_from-Maps zero a last pa perm k free s ha e_last la lp clear =
      elim (first_page a (entry pa perm) k free s (omega (arith, e_last))
        (clear a (omega (arith, e_last)) (ground arith))) [
          | inl (e, none_free) ↦ (k, free, s, inr (ground (arith, e), none_free, λ va l out. refl))
          | inr (pte, k₁, free₁, e, nz, absent, s₂, now) ↦ (
            record k₁ { word = update k₁.word pte (entry pa perm) },
            free₁,
            s₂,
            inl (
              ground (arith, e, nz, absent, e_last),
              λ va l. now va l ∙ one_page a pa perm (pte_of k.word pgdir va) va lp,
            ),
          )
        ]
  mappages_from-Maps (suc n) a last pa perm k free s ha e_last la lp clear =
      elim (first_page a (entry pa perm) k free s (omega (arith, e_last))
        (clear a (omega (arith, e_last)) (ground arith))) [
          | inl (e, none_free) ↦ (k, free, s, inr (ground (arith, e), none_free, λ va l out. refl))
          | inr (pte, k₁, free₁, e, nz, absent, s₂, now) ↦
              let k₂ : Kmem = record k₁ { word = update k₁.word pte (entry pa perm) } in
              let pa' : ℕ = (pa + 4096) % 2 ^ 32 in
              let no_wrap : (a + 4096) % 2 ^ 32 ≡ a + 4096 = omega (arith, e_last, la) in
              let next : mappages_from (suc (suc n)) pgdir a last pa perm k
                  ≡ mappages_from (suc n) pgdir (a + 4096) last pa' perm k₂ =
                ground (arith, e, nz, absent, e_last, no_wrap) in
              let still_clear : (va : ℕ)
                  → va < 2 ^ 32
                  → in_pages (a + 4096) (suc n) va ≡ true
                  → is_present (pte_of k₂.word pgdir va) ≡ false =
                λ va l inside.
                  ap is_present (
                    now va l
                    ∙ other_page a va (entry pa perm) (pte_of k.word pgdir va)
                        (in_rest a n va ha inside).0)
                  ∙ clear va l (in_rest a n va ha inside).1 in
              let (k', free', s', c) =
                mappages_from-Maps n (a + 4096) last pa' perm k₂ free₁ s₂ (omega (arith, ha))
                  (omega (arith, e_last)) la (omega arith) still_clear in
              (
                k',
                free',
                s',
                elim c [
                  | inl (q, all) ↦ inl (
                    next ∙ q,
                    λ va l.
                        all va l
                        ∙ ap
                            (λ (x : ℕ).
                              if in_pages (a + 4096) (suc n) va
                              then entry (target pa' (a + 4096) va) perm
                              else x)
                            (now va l)
                        ∙ more_pages a n pa perm (pte_of k.word pgdir va) va lp,
                  )
                  | inr (q, none_free, all) ↦ inr (
                    next ∙ q,
                    none_free,
                    λ va l out.
                        all va l (out_rest a n va out).1
                        ∙ now va l
                        ∙ other_page a va (entry pa perm) (pte_of k.word pgdir va)
                            (out_rest a n va out).0,
                  )
                ],
              )
        ]

  -- The pages that `size` bytes from `va` on touch.
  abbrev pub pages : ℕ → ℕ → ℕ
  pages va size = suc ((va + size - 1) / 4096 - va / 4096)

  -- Where size is not 0, the directory and its tables are distinct pages that are not free, and
  -- none of the pages that va to va + size touches is present, mappages ends without a panic, with
  -- the directory and tables again distinct pages that are not free: either the entries of those
  -- pages are the frames from pa on, with the bits of perm and of PTE_P, and no other translation
  -- changes, or it returns -1, no page is free, and no translation outside of the range changes.
  pub mappages-Maps :
      (va size pa perm : ℕ) (k : Kmem) (free : List ℕ)
      → Tables kernel_end pgdir k free
      → 0 < size
      → va + size ≤ 2 ^ 32
      → pa < 2 ^ 32
      → ((u : ℕ)
          → u < 2 ^ 32
          → in_pages (pg_round_down va) (pages va size) u ≡ true
          → is_present (pte_of k.word pgdir u) ≡ false)
      → Maps (pages va size) (pg_round_down va) pa perm k (mappages pgdir va size pa perm k)
  unfolding mappages
  mappages-Maps va size pa perm k free s hs hv hp clear =
      let a : ℕ = pg_round_down va in
      let last : ℕ = pg_round_down ((va + size + 2 ^ 32 - 1) % 2 ^ 32) in
      let n : ℕ = (va + size - 1) / 4096 - va / 4096 in
      let at_last : last ≡ a + 4096 * n = omega (arith, hs, hv) in
      let rounds : (last + 2 ^ 32 - a) % 2 ^ 32 / 4096 + 1 ≡ suc n = omega (arith, at_last, hv) in
      let e : mappages pgdir va size pa perm k ≡ mappages_from (suc n) pgdir a last pa perm k =
        ap (λ r. mappages_from r pgdir a last pa perm k) rounds in
      subst (λ r. Maps (suc n) a pa perm k r) (sym e)
        (mappages_from-Maps n a last pa perm k free s (omega arith) at_last (omega arith) hp clear)
