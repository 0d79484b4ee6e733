-- ===== src/Syscall/Defs.antt =====
-- fetchint, fetchstr, argint, argptr and argstr of xv6-public/syscall.c, for a process of size
-- `sz` with the memory `m` by bytes. An int that is only used as a uint or an address is the uint.
-- `none` is -1.
use modificacion_sistema_ope.Base.{
  ℕ, zero, suc, ◌+◌, ◌-◌, ◌*◌, ◌%◌, ◌^◌, ◌||◌, Option, none, some, ◌==◌, ltb, leb, if◌then◌else◌, ℤ,
  pos, negsuc,
}

abbrev pub UserMem : Type 0
UserMem = ℕ → ℕ

-- The little-endian word at an address.
abbrev pub user_word : UserMem → ℕ → ℕ
user_word m a = m a + 256 * m (a + 1) + 65536 * m (a + 2) + 16777216 * m (a + 3)

unfoldable pub fetchint : ℕ → UserMem → ℕ → Option ℕ
fetchint sz m addr =
    if leb sz addr || ltb sz ((addr + 4) % 2 ^ 32) then none else some (user_word m addr)

-- fetchstr's loop over the `n` bytes from `s` on, to the end of the process: where the NUL is.
unfoldable pub fetchstr_from : ℕ → UserMem → ℕ → Option ℕ
fetchstr_from zero m s = none
fetchstr_from (suc n) m s =
    let rest : Option ℕ = fetchstr_from n m (s + 1) in if m s == 0 then some s else rest

-- The string's address and its length.
unfoldable pub fetchstr : ℕ → UserMem → ℕ → Option (ℕ × ℕ)
fetchstr sz m addr =
    if leb sz addr
    then none
    else elim (fetchstr_from (sz - addr) m addr) [ none ↦ none | some s ↦ some (addr, s - addr) ]

unfoldable pub argint : ℕ → UserMem → ℕ → ℕ → Option ℕ
argint sz m esp n = fetchint sz m ((esp + 4 + 4 * n) % 2 ^ 32)

unfoldable pub argptr : ℕ → UserMem → ℕ → ℕ → ℤ → Option ℕ
argptr sz m esp n (negsuc k) = none
argptr sz m esp n (pos size) = elim (argint sz m esp n) [
  | none ↦ none
  | some i ↦ if leb sz i || ltb sz ((i + size) % 2 ^ 32) then none else some i
]

unfoldable pub argstr : ℕ → UserMem → ℕ → ℕ → Option (ℕ × ℕ)
argstr sz m esp n = elim (argint sz m esp n) [ none ↦ none | some addr ↦ fetchstr sz m addr ]
