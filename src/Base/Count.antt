-- ===== src/Base/Count.antt =====
-- How often a number stands in a list.
use Prim.Native.Nat.{ℕ, ◌+◌, ◌-◌, ◌<◌, ◌≤◌}
use mathlib.Core.Path.{◌≡◌}
use mathlib.Core.List.{List, [], ◌∷◌, ◌++◌}
use native.Mathlib.Omega.{arith}
use native.Mathlib.Decide.{ℕ_discrete}
use modificacion_sistema_ope.Base.Tests.{◌==◌, if◌then◌else◌}
use modificacion_sistema_ope.Base.Lists.{length}

abbrev pub count : ℕ → List ℕ → ℕ
count j [] = 0
count j (i ∷ l) = (if j == i then 1 else 0) + count j l

-- Without its first occurrence.
abbrev pub remove : ℕ → List ℕ → List ℕ
remove j [] = []
remove j (i ∷ l) = if j == i then l else i ∷ remove j l

pub count-remove :
    (j i : ℕ) (l : List ℕ) → count j (remove i l) ≡ count j l - (if j == i then 1 else 0)
count-remove j i [] = ground arith
count-remove j i (h ∷ l) = elim (ℕ_discrete i h) [
  | yes e ↦ ground (arith, e)
  | no ne ↦ ground (arith, ne, count-remove j i l)
]

pub count-length : (j : ℕ) (l : List ℕ) → count j l ≤ length l
count-length j [] = omega arith
count-length j (i ∷ l) = ground (arith, count-length j l)

pub length-remove : (i : ℕ) (l : List ℕ) → 0 < count i l → length (remove i l) ≡ length l - 1
length-remove i [] h = ground arith
length-remove i (h ∷ l) c = elim (ℕ_discrete i h) [
  | yes e ↦ ground (arith, e)
  | no ne ↦ ground (arith, ne, length-remove i l (ground (arith, ne, c)), count-length i l)
]

pub count-append : (j : ℕ) (l m : List ℕ) → count j (l ++ m) ≡ count j l + count j m
count-append j [] m = omega arith
count-append j (i ∷ l) m = omega (arith, count-append j l m)
