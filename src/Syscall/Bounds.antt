-- ===== src/Syscall/Bounds.antt =====
-- Arguments are read, and pointers accepted, inside the process only.
use modificacion_sistema_ope.Base.{
  ℕ, zero, suc, ◌+◌, ◌-◌, ◌*◌, ◌%◌, ◌^◌, ◌<◌, ◌≤◌, ◌≡◌, ◌≢◌, ◌⊎◌, inl, inr, refl, arith, subst,
  true, false, ◌||◌, none, some, ◌==◌, ltb, leb, ℤ, pos, negsuc, Bool-cases,
}
use modificacion_sistema_ope.Syscall.Defs.{
  UserMem, user_word, fetchint, fetchstr_from, fetchstr, argint, argptr,
}

-- KERNBASE, above every process.
abbrev pub kernbase : ℕ
kernbase = 2147483648

-- In a process below KERNBASE, fetchint gives the word at an address where its four bytes are
-- all in the process, and fails elsewhere.
fetchint_lem :
    (sz : ℕ) (m : UserMem) (addr : ℕ)
    → sz ≤ kernbase
    → ((addr + 4 ≤ sz) × (fetchint sz m addr ≡ some (user_word m addr)))
      ⊎ ((sz < addr + 4) × (fetchint sz m addr ≡ none))
unfolding fetchint
fetchint_lem sz m addr h = elim (Bool-cases (leb (addr + 4) sz)) [
  | inl fits ↦ inl (ground (arith, fits), ground (arith, fits, h))
  | inr out ↦ inr (ground (arith, out), ground (arith, out, h))
]

-- The string at `addr` ends with a NUL at `addr + n`, inside a process of size `sz`.
pub record HasString (sz : ℕ) (m : UserMem) (addr n : ℕ) : Type 0 where
  pub inside : addr + n < sz
  pub nul : m (addr + n) ≡ 0
  pub bytes : (j : ℕ) → j < n → m (addr + j) ≢ 0

one_more :
    (n : ℕ) (m : UserMem) (s : ℕ)
    → m s ≢ 0
    → ((j : ℕ) → j < n → m (s + 1 + j) ≢ 0)
    → (j : ℕ) → j < suc n
    → m (s + j) ≢ 0
one_more n m s here all zero h = λ z. here (ground (arith, z))
one_more n m s here all (suc j) h = λ z. all j (omega arith) (ground (arith, z))

fetchstr_from_lem :
    (n : ℕ) (m : UserMem) (s : ℕ)
    → ((fetchstr_from n m s ≡ none) × ((j : ℕ) → j < n → m (s + j) ≢ 0))
      ⊎ ((k : ℕ) × (k < n)
          × (fetchstr_from n m s ≡ some (s + k))
          × (m (s + k) ≡ 0)
          × ((j : ℕ) → j < k → m (s + j) ≢ 0))
unfolding fetchstr_from
fetchstr_from_lem zero m s = inl (refl, λ j h. absurd (omega arith))
fetchstr_from_lem (suc n) m s = elim (Bool-cases (m s == 0)) [
  | inl z ↦ inr (0, omega arith, ground (arith, z), ground (arith, z), λ j h. absurd (omega arith))
  | inr z ↦
      let here : m s ≢ 0 = ground (arith, z) in
      elim (fetchstr_from_lem n m (s + 1)) [
        | inl (e, all) ↦ inl (ground (arith, z, e), one_more n m s here all)
        | inr (k, h, e, nul, all) ↦
            inr (
              suc k,
              omega arith,
              ground (arith, z, e),
              ground (arith, nul),
              one_more k m s here all,
            )
      ]
]

-- fetchstr gives an address and a length where a string stands there inside the process, and fails
-- where the address is outside it or no NUL follows in it.
pub fetchstr_lem :
    (sz : ℕ) (m : UserMem) (addr : ℕ)
    → ((n : ℕ) × (fetchstr sz m addr ≡ some (addr, n)) × HasString sz m addr n)
      ⊎ ((fetchstr sz m addr ≡ none) × ((a : ℕ) → addr ≤ a → a < sz → m a ≢ 0))
unfolding fetchstr
fetchstr_lem sz m addr = elim (Bool-cases (leb sz addr)) [
  | inl out ↦ inr (ground (arith, out), λ a l h. absurd (ground (arith, out)))
  | inr inside ↦ elim (fetchstr_from_lem (sz - addr) m addr) [
    | inl (e, all) ↦
        inr (ground (arith, inside, e), λ a l h z. all (a - addr) (omega arith) (ground (arith, z)))
    | inr (k, h, e, nul, all) ↦
        inl (k, ground (arith, inside, e), record { inside = omega arith; nul = nul; bytes = all })
  ]
]

block_inside :
    (sz p a : ℕ)
    → sz ≤ kernbase
    → a < kernbase
    → (leb sz p || ltb sz ((p + a) % 2 ^ 32)) ≡ false
    → (p < sz) × (p + a ≤ sz)
block_inside sz p a h l e = ground arith

block_outside :
    (sz p a : ℕ)
    → sz ≤ kernbase
    → a < kernbase
    → p < sz
    → (leb sz p || ltb sz ((p + a) % 2 ^ 32)) ≡ true
    → sz < p + a
block_outside sz p a h l w e = ground arith

-- The place of an argument on the user stack.
abbrev pub slot : ℕ → ℕ → ℕ
slot esp n = (esp + 4 + 4 * n) % 2 ^ 32

same_size : (a b : ℕ) → pos a ≡ pos b → a ≡ b
same_size a b e = ground arith

-- In a process below KERNBASE, argptr of an int size accepts a pointer exactly where the argument
-- stands in the process, the size is not negative, and the block that it points to starts and ends
-- in the process; and it fails otherwise.
pub argptr_lem :
    (sz : ℕ) (m : UserMem) (esp n : ℕ) (size : ℤ)
    → sz ≤ kernbase
    → ((a : ℕ) → size ≡ pos a → a < kernbase)
    → ((a : ℕ) × (size ≡ pos a)
        × (slot esp n + 4 ≤ sz)
        × (argptr sz m esp n size ≡ some (user_word m (slot esp n)))
        × (user_word m (slot esp n) < sz)
        × (user_word m (slot esp n) + a ≤ sz))
      ⊎ ((argptr sz m esp n size ≡ none)
          × ((a : ℕ)
              → size ≡ pos a
              → slot esp n + 4 ≤ sz
              → user_word m (slot esp n) < sz
              → sz < user_word m (slot esp n) + a))
unfolding argptr argint
argptr_lem sz m esp n (negsuc k) h l = inr (refl, λ a e. cc)
argptr_lem sz m esp n (pos a) h l = elim (fetchint_lem sz m (slot esp n) h) [
  | inr (out, e) ↦ inr (ground (arith, e), λ b q fits. absurd (omega arith))
  | inl (fits, e) ↦
      elim (Bool-cases
        (leb sz (user_word m (slot esp n)) || ltb sz ((user_word m (slot esp n) + a) % 2 ^ 32))) [
          | inl out ↦ inr (
            ground (arith, e, out),
            λ b q _ w.
                subst (λ c. sz < user_word m (slot esp n) + c) (same_size a b q)
                  (block_outside sz (user_word m (slot esp n)) a h (l a refl) w out),
          )
          | inr inside ↦ inl (
            a,
            refl,
            fits,
            ground (arith, e, inside),
            (block_inside sz (user_word m (slot esp n)) a h (l a refl) inside).0,
            (block_inside sz (user_word m (slot esp n)) a h (l a refl) inside).1,
          )
        ]
]
