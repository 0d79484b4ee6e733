-- ===== src/Bio/Order.antt =====
-- The order of the buffers, most recently released first, and what bget and brelse do in it.
use modificacion_sistema_ope.Base.{
  ℕ, suc, ◌+◌, ◌<◌, ◌≡◌, ◌⊎◌, inl, inr, refl, arith, ap, ap₂, ◌∙◌, Bool, true, false, Option, none,
  some, ◌==◌, if◌then◌else◌, List, [], ◌∷◌, count, length, Bool-cases, ℕ_discrete,
}
use modificacion_sistema_ope.Bio.Defs.{nbuf, Cache, Scan, found, ended, scan, fuel}
use modificacion_sistema_ope.Bio.Ring.{Links, IsRing}

-- The first and the last of a list that pass a test.
unfoldable pub first_such : (ℕ → Bool) → List ℕ → Option ℕ
first_such test [] = none
first_such test (y ∷ l) = if test y then some y else first_such test l

unfoldable pub last_such : (ℕ → Bool) → List ℕ → Option ℕ
last_such test [] = none
last_such test (y ∷ l) = elim (last_such test l) [
  | some i ↦ some i
  | none ↦ if test y then some y else none
]

abbrev pub or_scan : Option ℕ → Scan → Scan
or_scan none s = s
or_scan (some i) s = found i

suc_add : (a k : ℕ) → suc a + k ≡ suc (a + k)
suc_add a k = omega arith

add_suc : (a k : ℕ) → suc a + k ≡ a + suc k
add_suc a k = omega arith

scan-next :
    (c : Cache) (test : ℕ → Bool) (x : ℕ) (l : List ℕ) (e k : ℕ)
    → Links c x l e
    → count nbuf l ≡ 0
    → scan (λ i. (c i).next) test (length l + k) (c x).next
      ≡ or_scan (first_such test l) (scan (λ i. (c i).next) test k e)
unfolding scan first_such
scan-next c test x [] e k (a, b) o = ap₂ (scan (λ i. (c i).next) test) (omega arith) a
scan-next c test x (y ∷ l) e k (a, b, r) o =
    ap₂ (scan (λ i. (c i).next) test) (suc_add (length l) k) a
    ∙ (let here : (y == nbuf) ≡ false = ground (arith, o) in
        elim (Bool-cases (test y)) [
          | inl t ↦ ground (arith, here, t)
          | inr t ↦ ground (arith, here, t, scan-next c test y l e k r (ground (arith, o)))
        ])

scan-prev :
    (c : Cache) (test : ℕ → Bool) (x : ℕ) (l : List ℕ) (e k : ℕ)
    → Links c x l e
    → count nbuf l ≡ 0
    → scan (λ i. (c i).prev) test (length l + k) (c e).prev
      ≡ or_scan (last_such test l) (scan (λ i. (c i).prev) test k x)
unfolding scan last_such
scan-prev c test x [] e k (a, b) o = ap₂ (scan (λ i. (c i).prev) test) (omega arith) b
scan-prev c test x (y ∷ l) e k (a, b, r) o =
    ap (λ n. scan (λ i. (c i).prev) test n (c e).prev) (add_suc (length l) k)
    ∙ scan-prev c test y l e (suc k) r (ground (arith, o))
    ∙ (let here : (y == nbuf) ≡ false = ground (arith, o) in
        elim (Bool-cases (test y)) [
          | inl t ↦ ground (arith, here, t)
          | inr t ↦ ground (arith, here, t, b)
        ])

pub first_such_lem :
    (test : ℕ → Bool) (l : List ℕ)
    → ((i : ℕ) × (first_such test l ≡ some i) × (test i ≡ true) × (0 < count i l))
      ⊎ ((first_such test l ≡ none) × ((j : ℕ) → 0 < count j l → test j ≡ false))
unfolding first_such
first_such_lem test [] = inr (refl, λ j h. absurd (omega arith))
first_such_lem test (y ∷ l) = elim (Bool-cases (test y)) [
  | inl t ↦ inl (y, ground (arith, t), t, ground arith)
  | inr t ↦ elim (first_such_lem test l) [
    | inl (i, e, ti, h) ↦ inl (i, ground (arith, t, e), ti, ground (arith, h))
    | inr (e, all) ↦ inr (
      ground (arith, t, e),
      λ j h. elim (ℕ_discrete j y) [ yes q ↦ ap test q ∙ t | no q ↦ all j (ground (arith, h, q)) ],
    )
  ]
]

pub last_such_lem :
    (test : ℕ → Bool) (l : List ℕ)
    → ((i : ℕ) × (last_such test l ≡ some i) × (test i ≡ true) × (0 < count i l))
      ⊎ ((last_such test l ≡ none) × ((j : ℕ) → 0 < count j l → test j ≡ false))
unfolding last_such
last_such_lem test [] = inr (refl, λ j h. absurd (omega arith))
last_such_lem test (y ∷ l) = elim (last_such_lem test l) [
  | inl (i, e, ti, h) ↦ inl (i, ground (arith, e), ti, ground (arith, h))
  | inr (e, all) ↦ elim (Bool-cases (test y)) [
    | inl t ↦ inl (y, ground (arith, t, e), t, ground arith)
    | inr t ↦ inr (
      ground (arith, t, e),
      λ j h. elim (ℕ_discrete j y) [ yes q ↦ ap test q ∙ t | no q ↦ all j (ground (arith, h, q)) ],
    )
  ]
]

-- The whole scans, from the head round to the head.
pub scan-first_such :
    (c : Cache) (test : ℕ → Bool) (l : List ℕ)
    → IsRing c l
    → length l ≡ nbuf
    → scan (λ i. (c i).next) test fuel (c nbuf).next ≡ or_scan (first_such test l) ended
scan-first_such c test l v n =
    ap (λ k. scan (λ i. (c i).next) test k (c nbuf).next) (omega (arith, n))
    ∙ scan-next c test nbuf l nbuf 1 v.links (v.bounded nbuf (omega arith))
    ∙ unfold scan in refl

pub scan-last_such :
    (c : Cache) (test : ℕ → Bool) (l : List ℕ)
    → IsRing c l
    → length l ≡ nbuf
    → scan (λ i. (c i).prev) test fuel (c nbuf).prev ≡ or_scan (last_such test l) ended
scan-last_such c test l v n =
    ap (λ k. scan (λ i. (c i).prev) test k (c nbuf).prev) (omega (arith, n))
    ∙ scan-prev c test nbuf l nbuf 1 v.links (v.bounded nbuf (omega arith))
    ∙ unfold scan in refl
