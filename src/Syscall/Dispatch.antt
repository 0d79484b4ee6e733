-- ===== src/Syscall/Dispatch.antt =====
-- The dispatch of system calls: the numbers of xv6-public/syscall.h, and the table and the function
-- syscall of xv6-public/syscall.c.
use modificacion_sistema_ope.Base.{
  ℕ, zero, suc, ◌+◌, ◌-◌, ◌^◌, ◌≡◌, ◌≢◌, ◌⊎◌, inl, inr, refl, arith, ap, ◌&&◌, Option, none, some,
  List, [], ◌∷◌, ltb, get_elem?, if◌then◌else◌, Bool-cases, Option-cases,
}

-- The functions that the table points to.
pub data Call : Type 0 where
  sys_fork sys_exit sys_wait sys_pipe sys_read sys_kill sys_exec : Call
  sys_fstat sys_chdir sys_dup sys_getpid sys_sbrk sys_sleep sys_uptime : Call
  sys_open sys_write sys_mknod sys_unlink sys_link sys_mkdir sys_close : Call

-- SYS_fork to SYS_close
unfoldable pub call_number : Call → ℕ
call_number sys_fork = 1
call_number sys_exit = 2
call_number sys_wait = 3
call_number sys_pipe = 4
call_number sys_read = 5
call_number sys_kill = 6
call_number sys_exec = 7
call_number sys_fstat = 8
call_number sys_chdir = 9
call_number sys_dup = 10
call_number sys_getpid = 11
call_number sys_sbrk = 12
call_number sys_sleep = 13
call_number sys_uptime = 14
call_number sys_open = 15
call_number sys_write = 16
call_number sys_mknod = 17
call_number sys_unlink = 18
call_number sys_link = 19
call_number sys_mkdir = 20
call_number sys_close = 21

-- `syscalls`: no entry has the number 0.
abbrev pub syscalls : List (Option Call)
syscalls =
    none
    ∷ some sys_fork
    ∷ some sys_exit
    ∷ some sys_wait
    ∷ some sys_pipe
    ∷ some sys_read
    ∷ some sys_kill
    ∷ some sys_exec
    ∷ some sys_fstat
    ∷ some sys_chdir
    ∷ some sys_dup
    ∷ some sys_getpid
    ∷ some sys_sbrk
    ∷ some sys_sleep
    ∷ some sys_uptime
    ∷ some sys_open
    ∷ some sys_write
    ∷ some sys_mknod
    ∷ some sys_unlink
    ∷ some sys_link
    ∷ some sys_mkdir
    ∷ some sys_close
    ∷ []

abbrev pub flat : Option (Option Call) → Option Call
flat none = none
flat (some c) = c

-- The call that syscall makes, if any.
unfoldable pub dispatch : ℕ → Option Call
dispatch num = if ltb 0 num && ltb num 22 then flat (get_elem? syscalls num) else none

-- What syscall leaves in eax, where `call` makes a call and changes the state `S` of the kernel.
unfoldable pub syscall {ℓ} : {S : Type ℓ} → (Call → S → ℕ × S) → ℕ → S → ℕ × S
syscall call num s = elim (dispatch num) [ some c ↦ call c s | none ↦ (2 ^ 32 - 1, s) ]

-- A call is made by its number.
pub dispatch-call_number : (c : Call) → dispatch (call_number c) ≡ some c
unfolding dispatch call_number
dispatch-call_number sys_fork = refl
dispatch-call_number _ = refl

-- Each entry of the table is at its number.
Numbered : ℕ → List (Option Call) → Type 0
Numbered k [] = Unit
Numbered k (none ∷ l) = Numbered (suc k) l
Numbered k (some c ∷ l) = (call_number c ≡ k) × Numbered (suc k) l

entry_number :
    (l : List (Option Call)) (k n : ℕ) (c : Call)
    → Numbered k l
    → flat (get_elem? l n) ≡ some c
    → call_number c ≡ k + n
unfolding Numbered
entry_number [] k n c h e = absurd (cc e)
entry_number (none ∷ l) k zero c h e = absurd (cc e)
entry_number (none ∷ l) k (suc n) c h e = omega (arith, entry_number l (suc k) n c h e)
entry_number (some d ∷ l) k zero c (h, hs) e =
    omega (arith, h, ap call_number (some-injective d c e))
  where
    some-injective : (a b : Call) → some a ≡ some b → a ≡ b
    some-injective a b q = cc q
entry_number (some d ∷ l) k (suc n) c (h, hs) e = omega (arith, entry_number l (suc k) n c hs e)

syscalls-Numbered : Numbered 0 syscalls
unfolding Numbered call_number
syscalls-Numbered = (
  refl,
  (
    refl,
    (
      refl,
      (
        refl,
        (
          refl,
          (
            refl,
            (
              refl,
              (
                refl,
                (
                  refl,
                  (
                    refl,
                    (
                      refl,
                      (
                        refl,
                        (refl, (refl, (refl, (refl, (refl, (refl, (refl, (refl, (refl, tt))))))))),
                      ),
                    ),
                  ),
                ),
              ),
            ),
          ),
        ),
      ),
    ),
  ),
)

call_number-dispatch : (num : ℕ) (c : Call) → dispatch num ≡ some c → call_number c ≡ num
unfolding dispatch
call_number-dispatch num c e = elim (Bool-cases (ltb 0 num && ltb num 22)) [
  | inl h ↦ omega (arith, entry_number syscalls 0 num c syscalls-Numbered (ground (arith, h, e)))
  | inr h ↦ absurd (ground (arith, h, e))
]

-- A number that makes no call returns -1 and changes nothing; any other makes the call of that
-- number.
pub syscall_lem {ℓ} :
    {S : Type ℓ} (call : Call → S → ℕ × S) (num : ℕ) (s : S)
    → ((c : Call) × (call_number c ≡ num) × (syscall call num s ≡ call c s))
      ⊎ (((c : Call) → call_number c ≢ num) × (syscall call num s ≡ (2 ^ 32 - 1, s)))
unfolding syscall
syscall_lem call num s = elim (Option-cases (dispatch num)) [
  | inl e ↦ inr (
    λ c q. absurd (cc (dispatch-call_number c, ap dispatch q, e)),
    ap (λ o. elim o [ some c ↦ call c s | none ↦ (2 ^ 32 - 1, s) ]) e,
  )
  | inr (c, e) ↦ inl (
    c,
    call_number-dispatch num c e,
    ap (λ o. elim o [ some c ↦ call c s | none ↦ (2 ^ 32 - 1, s) ]) e,
  )
]
