-- ===== src/Str/Defs.antt =====
-- The routines of xv6-public/string.c over a memory of bytes. Addresses are numbers: no object
-- wraps round the address space.
use modificacion_sistema_ope.Base.{
  ℕ, zero, suc, ◌+◌, ◌*◌, ◌/◌, ◌%◌, not, ◌&&◌, Option, none, some, update, ◌==◌, ltb, if◌then◌else◌,
  ℤ, pos, sub_ℕ,
}

abbrev pub Mem : Type 0
Mem = ℕ → ℕ

-- x86.h: `rep stosb` stores the byte `c` at `n` addresses from `dst` up.
unfoldable pub stosb : ℕ → ℕ → ℕ → Mem → Mem
stosb dst c zero m = m
stosb dst c (suc n) m = stosb (dst + 1) c n (update m dst (c % 256))

-- One little-endian word.
abbrev pub store_long : ℕ → ℕ → Mem → Mem
store_long a w m =
    update
      (update (update (update m a (w % 256)) (a + 1) (w / 256 % 256)) (a + 2) (w / 65536 % 256))
      (a + 3) (w / 16777216 % 256)

-- x86.h: `rep stosl` stores the word `w` at `n` words from `dst` up.
unfoldable pub stosl : ℕ → ℕ → ℕ → Mem → Mem
stosl dst w zero m = m
stosl dst w (suc n) m = stosl (dst + 4) w n (store_long dst w m)

-- `c` is the int's bit pattern; (c<<24)|(c<<16)|(c<<8)|c of a byte is c * 0x01010101.
unfoldable pub memset : ℕ → ℕ → ℕ → Mem → Mem
memset dst c n m =
    if (dst % 4 == 0) && (n % 4 == 0)
    then stosl dst (c % 256 * 0x01010101) (n / 4) m
    else stosb dst c n m

unfoldable pub memcmp : ℕ → ℕ → ℕ → Mem → ℤ
memcmp s1 s2 zero m = pos 0
memcmp s1 s2 (suc n) m =
    let rest : ℤ = memcmp (s1 + 1) (s2 + 1) n m in
    if not (m s1 == m s2) then sub_ℕ (m s1) (m s2) else rest

-- memmove's loops: from the last byte down, and from the first up.
unfoldable pub move_down : ℕ → ℕ → ℕ → Mem → Mem
move_down d s zero m = m
move_down d s (suc n) m = move_down d s n (update m (d + n) (m (s + n)))

unfoldable pub move_up : ℕ → ℕ → ℕ → Mem → Mem
move_up d s zero m = m
move_up d s (suc n) m = move_up (d + 1) (s + 1) n (update m d (m s))

unfoldable pub memmove : ℕ → ℕ → ℕ → Mem → Mem
memmove dst src n m =
    if ltb src dst && ltb dst (src + n) then move_down dst src n m else move_up dst src n m

unfoldable pub memcpy : ℕ → ℕ → ℕ → Mem → Mem
memcpy dst src n m = memmove dst src n m

unfoldable pub strncmp : ℕ → ℕ → ℕ → Mem → ℤ
strncmp p q zero m = pos 0
strncmp p q (suc n) m =
    let rest : ℤ = strncmp (p + 1) (q + 1) n m in
    if not (m p == 0) && (m p == m q) then rest else sub_ℕ (m p) (m q)

-- The first loop of strncpy: the rounds left, where it stands, and the memory.
pub record Copying : Type 0 where
  pub left : ℕ
  pub at : ℕ
  pub mem : Mem

unfoldable pub copy_string : ℕ → ℕ → ℕ → Mem → Copying
copy_string s t zero m = record { left = 0; at = s; mem = m }
copy_string s t (suc n) m =
    let m' : Mem = update m s (m t) in
    let rest : Copying = copy_string (s + 1) (t + 1) n m' in
    if m t == 0 then record { left = n; at = s + 1; mem = m' } else rest

-- The second.
unfoldable pub zero_fill : ℕ → ℕ → Mem → Mem
zero_fill s zero m = m
zero_fill s (suc n) m = zero_fill (s + 1) n (update m s 0)

-- `n` is an int that is not negative.
unfoldable pub strncpy : ℕ → ℕ → ℕ → Mem → Mem
strncpy s t n m = let c = copy_string s t n m in zero_fill c.at c.left c.mem

-- safestrcpy's loop, `n` being its count after the first decrement, and its last store. Where the
-- copied byte is NUL, `s` has moved past it.
unfoldable pub safe_copy : ℕ → ℕ → ℕ → Mem → Mem
safe_copy s t zero m = update m s 0
safe_copy s t (suc n) m =
    let m' : Mem = update m s (m t) in
    let rest : Mem = safe_copy (s + 1) (t + 1) n m' in
    if m t == 0 then update m' (s + 1) 0 else rest

unfoldable pub safestrcpy : ℕ → ℕ → ℕ → Mem → Mem
safestrcpy s t zero m = m
safestrcpy s t (suc n) m = safe_copy s t n m

-- `n` counts up; `none` where the fuel ends before the string does.
unfoldable pub strlen_from : ℕ → ℕ → ℕ → Mem → Option ℕ
strlen_from zero s n m = none
strlen_from (suc fuel) s n m =
    let rest : Option ℕ = strlen_from fuel s (n + 1) m in if m (s + n) == 0 then some n else rest

unfoldable pub strlen : ℕ → ℕ → Mem → Option ℕ
strlen fuel s m = strlen_from fuel s 0 m
