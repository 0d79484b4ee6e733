-- ===== src/Syscall/Tests.antt =====
-- Arguments of a process of 100 bytes.
use modificacion_sistema_ope.Base.{
  ℕ, ◌+◌, ◌<◌, ◌≤◌, ◌≡◌, ◌≢◌, ◌⊎◌, refl, arith, none, some, update, pos,
}
use modificacion_sistema_ope.Syscall.Defs.{UserMem, user_word, fetchstr_from, fetchstr, argptr}
use modificacion_sistema_ope.Syscall.Bounds.{HasString, slot, fetchstr_lem, argptr_lem}

-- esp is 40; the first argument, at 44, is 60, where "h" stands.
abbrev memory : UserMem
memory = update (update (λ a. 0) 44 60) 60 104

reads : fetchstr 100 memory 60 ≡ some (60, 1)
unfolding fetchstr fetchstr_from
reads = refl

fetchstr_lem_example :
    ((n : ℕ) × (fetchstr 100 memory 60 ≡ some (60, n)) × HasString 100 memory 60 n)
    ⊎ ((fetchstr 100 memory 60 ≡ none) × ((a : ℕ) → 60 ≤ a → a < 100 → memory a ≢ 0))
fetchstr_lem_example = fetchstr_lem 100 memory 60

-- A block of 40 bytes at 60 just fits.
argptr_lem_example :
    ((a : ℕ) × (pos 40 ≡ pos a)
      × (slot 40 0 + 4 ≤ 100)
      × (argptr 100 memory 40 0 (pos 40) ≡ some (user_word memory (slot 40 0)))
      × (user_word memory (slot 40 0) < 100)
      × (user_word memory (slot 40 0) + a ≤ 100))
    ⊎ ((argptr 100 memory 40 0 (pos 40) ≡ none)
        × ((a : ℕ)
            → pos 40 ≡ pos a
            → slot 40 0 + 4 ≤ 100
            → user_word memory (slot 40 0) < 100
            → 100 < user_word memory (slot 40 0) + a))
argptr_lem_example = argptr_lem 100 memory 40 0 (pos 40) (omega arith) (λ a e. ground (arith, e))
