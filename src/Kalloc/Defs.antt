-- ===== src/Kalloc/Defs.antt =====
-- The state and the functions of xv6-public/kalloc.c. The spin lock is held round each change of
-- the list, once kinit2 has set use_lock.
use modificacion_sistema_ope.Base.{
  ℕ, zero, suc, ◌+◌, ◌-◌, ◌*◌, ◌/◌, ◌%◌, ◌^◌, Bool, true, false, not, ◌&&◌, ◌||◌, Option, none,
  some, update, ◌==◌, ltb, leb, if◌then◌else◌,
}

-- mmu.h and memlayout.h
abbrev pub pg_size : ℕ
pg_size = 4096

abbrev pub kern_base : ℕ
kern_base = 0x80000000

abbrev pub phys_top : ℕ
phys_top = 0xE000000

-- PGROUNDUP on uint: (sz + PGSIZE - 1) & ~(PGSIZE - 1)
abbrev pub pg_round_up : ℕ → ℕ
pg_round_up sz = (sz + 4095) % 2 ^ 32 / 4096 * 4096

-- V2P on uint: the subtraction wraps.
abbrev pub v2p : ℕ → ℕ
v2p v = (v + 2 ^ 32 - kern_base) % 2 ^ 32

-- Memory by 32-bit words, `word a` at address `a`; `struct run` is the first word of a free page.
-- `freelist` is an address, 0 for the empty list.
pub record Kmem : Type 0 where
  pub word : ℕ → ℕ
  pub freelist : ℕ
  pub use_lock : Bool

-- memset(v, 1, PGSIZE), by words
abbrev pub junk : ℕ → (ℕ → ℕ) → ℕ → ℕ
junk v word a = if leb v a && ltb a (v + pg_size) then 0x01010101 else word a

-- kfree; `none` is its panic. `kernel_end` is the linker's `end`.
unfoldable pub kfree : ℕ → ℕ → Kmem → Option Kmem
kfree kernel_end v k =
    if not (v % pg_size == 0) || ltb v kernel_end || leb phys_top (v2p v)
    then none
    else some (record k { word = update (junk v k.word) v k.freelist; freelist = v })

-- kalloc, with 0 for "cannot be allocated"
unfoldable pub kalloc : Kmem → ℕ × Kmem
kalloc k =
    if k.freelist == 0 then (0, k) else (k.freelist, record k { freelist = k.word k.freelist })

-- freerange's loop from `p`; the rounds are at most `vend / PGSIZE` (see Range).
unfoldable pub free_pages : ℕ → ℕ → ℕ → ℕ → Kmem → Option Kmem
free_pages kernel_end zero p vend k = some k
free_pages kernel_end (suc rounds) p vend k =
    if leb (p + pg_size) vend
    then elim (kfree kernel_end p k) [
      | none ↦ none
      | some k' ↦ free_pages kernel_end rounds (p + pg_size) vend k'
    ]
    else some k

unfoldable pub freerange : ℕ → ℕ → ℕ → Kmem → Option Kmem
freerange kernel_end vstart vend k =
    free_pages kernel_end (vend / pg_size) (pg_round_up vstart) vend k

unfoldable pub kinit1 : ℕ → ℕ → ℕ → Kmem → Option Kmem
kinit1 kernel_end vstart vend k = freerange kernel_end vstart vend (record k { use_lock = false })

unfoldable pub kinit2 : ℕ → ℕ → ℕ → Kmem → Option Kmem
kinit2 kernel_end vstart vend k = elim (freerange kernel_end vstart vend k) [
  | none ↦ none
  | some k' ↦ some (record k' { use_lock = true })
]
