-- ===== src/Console/Window.antt =====
-- The ring input.buf of xv6-public/console.c: which bytes its counters enclose.
use modificacion_sistema_ope.Base.{
  ℕ, zero, suc, ◌+◌, ◌%◌, ◌<◌, ◌≤◌, ◌≡◌, arith, subst, List, [], ◌∷◌, ◌++◌, length, update,
}
use modificacion_sistema_ope.Console.Defs.{input_buf}

-- The bytes `xs` from the counter `a` on.
abbrev pub Ring : (ℕ → ℕ) → ℕ → List ℕ → Type 0
Ring buf a [] = Unit
Ring buf a (x ∷ xs) = (buf (a % input_buf) ≡ x) × Ring buf (suc a) xs

pub Ring-mod :
    (buf : ℕ → ℕ) (a b : ℕ) (xs : List ℕ)
    → a % input_buf ≡ b % input_buf
    → Ring buf a xs
    → Ring buf b xs
Ring-mod buf a b [] e h = tt
Ring-mod buf a b (x ∷ xs) e (h, hs) =
    (ground (arith, e, h), Ring-mod buf (suc a) (suc b) xs (omega (arith, e)) hs)

pub Ring-snoc :
    (buf : ℕ → ℕ) (a : ℕ) (xs : List ℕ) (x : ℕ)
    → Ring buf a xs
    → buf ((a + length xs) % input_buf) ≡ x
    → Ring buf a (xs ++ x ∷ [])
Ring-snoc buf a [] x h e = (ground (arith, e), tt)
Ring-snoc buf a (y ∷ xs) x (h, hs) e = (h, Ring-snoc buf (suc a) xs x hs (ground (arith, e)))

pub Ring-init :
    (buf : ℕ → ℕ) (a : ℕ) (xs : List ℕ) (x : ℕ)
    → Ring buf a (xs ++ x ∷ [])
    → Ring buf a xs × (buf ((a + length xs) % input_buf) ≡ x)
Ring-init buf a [] x (h, _) = (tt, ground (arith, h))
Ring-init buf a (y ∷ xs) x (h, hs) =
    let (k, e) = Ring-init buf (suc a) xs x hs in ((h, k), ground (arith, e))

-- A write past the bytes, within one turn of the ring.
pub Ring-update :
    (buf : ℕ → ℕ) (a n : ℕ) (xs : List ℕ) (x : ℕ)
    → length xs ≤ n
    → n < input_buf
    → Ring buf a xs
    → Ring (update buf ((a + n) % input_buf) x) a xs
Ring-update buf a n [] x l b h = tt
Ring-update buf a zero (y ∷ xs) x l b h = absurd (omega arith)
Ring-update buf a (suc n) (y ∷ xs) x l b (h, hs) = (
  ground (arith, b, h),
  subst (λ k. Ring (update buf (k % input_buf) x) (suc a) xs) (omega arith)
      (Ring-update buf (suc a) n xs x (omega arith) (omega (arith, b)) hs),
)
