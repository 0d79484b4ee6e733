-- ===== src/Bio/Release.antt =====
-- brelse and binit keep the ring, and brelse moves a buffer that nobody wants to the front.
use modificacion_sistema_ope.Base.{
  ℕ, ◌+◌, ◌-◌, ◌%◌, ◌^◌, ◌<◌, ◌≡◌, inl, inr, refl, arith, sym, ap, ◌∙◌, subst, Bool, true, false,
  none, some, update, ◌==◌, if◌then◌else◌, List, [], ◌∷◌, ◌++◌, count, remove, count-remove,
  length-remove, Bool-cases, ℕ_discrete,
}
use modificacion_sistema_ope.Bio.Defs.{
  nbuf, Buf, Cache, Sleeplock, unlocked, set_next, set_prev, to_front, unlink, brelse, holdingsleep,
  releasesleep,
}
use modificacion_sistema_ope.Bio.Ring.{IsRing, unlink-IsRing, to_front-IsRing}
use modificacion_sistema_ope.Bio.Lru.{IsCache, changed-IsCache}

split_at :
    (i : ℕ) (l : List ℕ) → 0 < count i l → (a b : List ℕ) × (l ≡ a ++ i ∷ b) × (remove i l ≡ a ++ b)
split_at i [] h = absurd (omega arith)
split_at i (y ∷ l) h = elim (ℕ_discrete i y) [
  | yes q ↦ ([], l, ap (λ k. k ∷ l) (sym q), ground (arith, q))
  | no q ↦
      let (a, b, e, f) = split_at i l (ground (arith, h, q)) in
      (y ∷ a, b, ap (λ k. y ∷ k) e, ground (arith, q, f))
]

-- What a buffer is apart from its pointers.
abbrev pub rest : Buf → ℕ × ℕ × ℕ × Sleeplock × Bool × Bool × (ℕ → ℕ)
rest b = (b.dev, b.blockno, b.refcnt, b.lock, b.valid, b.dirty, b.contents)

set_next-rest : (i v : ℕ) (c : Cache) (j : ℕ) → rest (set_next i v c j) ≡ rest (c j)
set_next-rest i v c j = ground arith

set_prev-rest : (i v : ℕ) (c : Cache) (j : ℕ) → rest (set_prev i v c j) ≡ rest (c j)
set_prev-rest i v c j = ground arith

unlink-rest : (i : ℕ) (c : Cache) (j : ℕ) → rest (unlink i c j) ≡ rest (c j)
unfolding unlink
unlink-rest i c j =
    let c₁ = set_prev (c i).next (c i).prev c in
    set_next-rest (c₁ i).prev (c₁ i).next c₁ j ∙ set_prev-rest (c i).next (c i).prev c j

pub to_front-rest : (i : ℕ) (c : Cache) (j : ℕ) → rest (to_front i c j) ≡ rest (c j)
unfolding to_front
to_front-rest i c j =
    let c₁ = set_next i (c nbuf).next c in
    let c₂ = set_prev i nbuf c₁ in
    let c₃ = set_prev (c₂ nbuf).next i c₂ in
    set_next-rest nbuf i c₃ j
    ∙ set_prev-rest (c₂ nbuf).next i c₂ j
    ∙ set_prev-rest i nbuf c₁ j
    ∙ set_next-rest i (c nbuf).next c j

moved-rest : (i : ℕ) (c : Cache) (j : ℕ) → rest (to_front i (unlink i c) j) ≡ rest (c j)
moved-rest i c j = to_front-rest i (unlink i c) j ∙ unlink-rest i c j

-- The order after a release.
abbrev pub released : Cache → ℕ → List ℕ → List ℕ
released c i l = if (c i).refcnt - 1 == 0 then i ∷ remove i l else l

module _ (c : Cache) (l : List ℕ) (i : ℕ) (v : IsCache c l) (h : i < nbuf) where
  moved-IsCache : IsCache (to_front i (unlink i c)) (i ∷ remove i l)
  moved-IsCache =
      let here : 0 < count i l = omega (arith, v.everywhere i h) in
      let (a, b, e, f) = split_at i l here in
      let r : IsRing (unlink i c) (remove i l) =
        subst (λ m. IsRing (unlink i c) m) (sym f)
          (unlink-IsRing c a i b (subst (λ m. IsRing c m) e v.ring)) in
      let gone : count i (remove i l) ≡ 0 = ground (arith, count-remove i i l, v.everywhere i h) in
      record {
        ring = to_front-IsRing (unlink i c) (remove i l) i h gone r;
        size = omega (arith, length-remove i l here, v.size);
        everywhere = λ j g. ground (arith, count-remove j i l, v.everywhere j g);
        unique = λ x y hx hy d p q.
            let sx = moved-rest i c x in
            let sy = moved-rest i c y in
            v.unique x y hx hy (λ z. d (ap (λ r. r.0) sx ∙ z))
              (sym (ap (λ r. r.0) sx) ∙ p ∙ ap (λ r. r.0) sy)
              (sym (ap (λ r. r.1) sx) ∙ q ∙ ap (λ r. r.1) sy);
      }

-- What brelse leaves of buffer `i`.
abbrev pub Releases : ℕ → Cache → List ℕ → ℕ → Type 0
Releases pid c l i =
    (holdingsleep pid (c i).lock ≡ false → brelse pid i c ≡ none)
    × (holdingsleep pid (c i).lock ≡ true
        → (c' : Cache) × (brelse pid i c ≡ some c')
          × IsCache c' (released c i l)
          × ((c' i).refcnt ≡ (c i).refcnt - 1)
          × ((c' i).lock ≡ unlocked))

-- brelse of a buffer with a reference, and fewer than 2^32 of them, by the process that holds its
-- lock does not panic; it takes one reference and frees the lock, and where that was the last
-- reference the buffer is the most recently released. By any other process it panics.
pub brelse_lem :
    (pid : ℕ) (c : Cache) (l : List ℕ) (i : ℕ)
    → IsCache c l
    → i < nbuf
    → 0 < (c i).refcnt
    → (c i).refcnt < 2 ^ 32
    → Releases pid c l i
unfolding brelse releasesleep
brelse_lem pid c l i v h some_ref few_refs = (
  λ e. ground (arith, e),
  λ e.
      let one_less : ((c i).refcnt + 2 ^ 32 - 1) % 2 ^ 32 ≡ (c i).refcnt - 1 = omega arith in
      let b : Buf = record (c i) {
        lock = releasesleep (c i).lock;
        refcnt = ((c i).refcnt + 2 ^ 32 - 1) % 2 ^ 32;
      } in
      let c₁ : Cache = update c i b in
      let w : IsCache c₁ l = changed-IsCache c l i b refl refl refl refl v in
      let n : (c₁ i).refcnt ≡ (c i).refcnt - 1 = ground (arith, one_less) in
      elim (Bool-cases ((c i).refcnt - 1 == 0)) [
        | inl last ↦
            let r = moved-rest i c₁ i in
            (
              to_front i (unlink i c₁),
              ground (arith, e, last, one_less),
              rw last (moved-IsCache c₁ l i w h),
              ap (λ r. r.2) r ∙ n,
              ap (λ r. r.3) r ∙ ground arith,
            )
        | inr more ↦ (c₁, ground (arith, e, more, one_less), rw more w, n, ground arith)
      ],
)
