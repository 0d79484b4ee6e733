-- ===== src/Vm/Defs.antt =====
-- walkpgdir and mappages of xv6-public/vm.c, over the memory of words of kalloc.c, and the macros of
-- mmu.h and memlayout.h that they use.
use modificacion_sistema_ope.Base.{
  ℕ, zero, suc, ◌+◌, ◌-◌, ◌*◌, ◌/◌, ◌%◌, ◌^◌, Bool, true, ◌&&◌, update, ◌==◌, ltb, leb,
  if◌then◌else◌,
}
use Prim.Native.Nat.{bit_or}
use modificacion_sistema_ope.Kalloc.{Kmem, kern_base, v2p, kalloc}

-- PDX, PTX
abbrev pub pdx : ℕ → ℕ
pdx va = va / 4194304 % 1024

abbrev pub ptx : ℕ → ℕ
ptx va = va / 4096 % 1024

-- PTE_ADDR; P2V, whose sum wraps
abbrev pub pte_addr : ℕ → ℕ
pte_addr e = e / 4096 * 4096

abbrev pub p2v : ℕ → ℕ
p2v pa = (pa + kern_base) % 2 ^ 32

-- *pde & PTE_P
abbrev pub is_present : ℕ → Bool
is_present e = e % 2 == 1

-- memset(pgtab, 0, PGSIZE), by words
abbrev pub zeroed : ℕ → (ℕ → ℕ) → ℕ → ℕ
zeroed t word a = if leb t a && ltb a (t + 4096) then 0 else word a

-- walkpgdir: the address of the entry, 0 for none. V2P(pgtab) has its low bits clear, so the
-- flags are added.
unfoldable pub walkpgdir : ℕ → ℕ → Bool → Kmem → ℕ × Kmem
walkpgdir pgdir va alloc k =
    let pde : ℕ = pgdir + 4 * pdx va in
    if is_present (k.word pde)
    then (p2v (pte_addr (k.word pde)) + 4 * ptx va, k)
    else if alloc
    then (let (pgtab, k₁) = kalloc k in
        if pgtab == 0 then (0, k₁) else (
          pgtab + 4 * ptx va,
          record k₁ { word = update (zeroed pgtab k₁.word) pde (v2p pgtab + 7) },
        ))
    else (0, k)

-- What mappages does: return 0 or -1, panic, or go on for more rounds than it was given.
pub data Mapping : Type 0 where
  mapped : Kmem → Mapping
  no_memory : Kmem → Mapping
  remap : Mapping
  no_end : Mapping

-- pa | perm | PTE_P
abbrev pub entry : ℕ → ℕ → ℕ
entry pa perm = bit_or (bit_or pa perm) 1

unfoldable pub mappages_from : ℕ → ℕ → ℕ → ℕ → ℕ → ℕ → Kmem → Mapping
mappages_from zero pgdir a last pa perm k = no_end
mappages_from (suc rounds) pgdir a last pa perm k =
    let (pte, k₁) = walkpgdir pgdir a true k in
    let k₂ : Kmem = record k₁ { word = update k₁.word pte (entry pa perm) } in
    let rest : Mapping =
      mappages_from rounds pgdir ((a + 4096) % 2 ^ 32) last ((pa + 4096) % 2 ^ 32) perm k₂ in
    if pte == 0
    then no_memory k₁
    else if is_present (k₁.word pte)
    then remap
    else if a == last
    then mapped k₂
    else rest

-- PGROUNDDOWN
abbrev pub pg_round_down : ℕ → ℕ
pg_round_down a = a / 4096 * 4096

-- As many rounds as there are pages from the first to the last, by addresses that wrap.
unfoldable pub mappages : ℕ → ℕ → ℕ → ℕ → ℕ → Kmem → Mapping
mappages pgdir va size pa perm k =
    let a : ℕ = pg_round_down va in
    let last : ℕ = pg_round_down ((va + size + 2 ^ 32 - 1) % 2 ^ 32) in
    mappages_from ((last + 2 ^ 32 - a) % 2 ^ 32 / 4096 + 1) pgdir a last pa perm k
