-- ===== src/Bio/Init.antt =====
-- binit makes a ring of all the buffers.
use modificacion_sistema_ope.Base.{
  ℕ, zero, suc, ◌+◌, ◌<◌, ◌≤◌, ◌≡◌, refl, arith, ap, ◌∙◌, subst, update, List, [], ◌∷◌, count,
  length,
}
use modificacion_sistema_ope.Bio.Defs.{
  nbuf, Buf, Cache, unlocked, set_next, set_prev, to_front, binit_from, binit,
}
use modificacion_sistema_ope.Bio.Ring.{IsRing, to_front-IsRing}
use modificacion_sistema_ope.Bio.Lru.{IsCache, changed-IsRing}
use modificacion_sistema_ope.Bio.Release.{to_front-rest}

-- The list with `i`, `i + 1`, … put before it.
unfoldable pub pushed : ℕ → ℕ → List ℕ → List ℕ
pushed zero i l = l
pushed (suc n) i l = pushed n (i + 1) (i ∷ l)

-- The buffers below `i` are in the ring.
record HasBelow (i : ℕ) (c : Cache) (l : List ℕ) : Type 0 where
  ring : IsRing c l
  size : length l ≡ i
  inside : (j : ℕ) → j < i → count j l ≡ 1
  outside : (j : ℕ) → i ≤ j → count j l ≡ 0
  blank : (j : ℕ) → (c j).dev ≡ 0

binit_from-HasBelow :
    (n i : ℕ) (c : Cache) (l : List ℕ)
    → i + n ≤ nbuf
    → HasBelow i c l
    → HasBelow (i + n) (binit_from n i c) (pushed n i l)
unfolding binit_from pushed
binit_from-HasBelow zero i c l h v = subst (λ k. HasBelow k c l) (omega arith) v
binit_from-HasBelow (suc n) i c l h v =
    let b : Buf = record (c i) { lock = unlocked } in
    let c₁ : Cache = update c i b in
    subst (λ k. HasBelow k (binit_from n (i + 1) (to_front i c₁)) (pushed n (i + 1) (i ∷ l)))
      (omega arith)
      (binit_from-HasBelow n (i + 1) (to_front i c₁) (i ∷ l) (omega arith) (record {
        ring =
            to_front-IsRing c₁ l i (omega arith) (v.outside i (omega arith))
              (changed-IsRing c l i b refl refl v.ring);
        size = omega (arith, v.size);
        inside = λ j g. ground (arith, v.inside j, v.outside j);
        outside = λ j g. ground (arith, v.outside j);
        blank = λ j. ap (λ r. r.0) (to_front-rest i c₁ j) ∙ ground (arith, v.blank j, v.blank i);
      }))

-- The order after binit.
abbrev pub first_order : List ℕ
first_order = pushed nbuf 0 []

-- binit of the zeroed cache makes a ring of all buffers.
pub binit-IsCache : (c : Cache) → ((j : ℕ) → (c j).dev ≡ 0) → IsCache (binit c) first_order
unfolding binit
binit-IsCache c z =
    let v =
      binit_from-HasBelow nbuf 0 (set_next nbuf nbuf (set_prev nbuf nbuf c)) [] (omega arith)
        (record {
          ring = record {
            links = (ground arith, ground arith);
            once = λ j. omega arith;
            bounded = λ j h. refl;
          };
          size = refl;
          inside = λ j h. absurd (omega arith);
          outside = λ j h. refl;
          blank = λ j. ground (arith, z j);
        }) in
    record {
      ring = v.ring;
      size = v.size;
      everywhere = v.inside;
      unique = λ i j hi hj d e f. absurd (d (v.blank i));
    }
