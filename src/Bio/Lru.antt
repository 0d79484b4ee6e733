-- ===== src/Bio/Lru.antt =====
-- bget and brelse as operations on the order, and the cache's invariant.
use modificacion_sistema_ope.Base.{
  ℕ, ◌+◌, ◌<◌, ◌≡◌, ◌≢◌, ◌⊎◌, inl, inr, refl, arith, sym, ◌∙◌, true, false, none, some, update,
  List, count, length, Bool-cases, ltb, ℕ_discrete,
}
use modificacion_sistema_ope.Bio.Defs.{
  nbuf, Buf, Cache, has_block, is_unused, Got, got, no_buffers, bget,
}
use modificacion_sistema_ope.Bio.Ring.{IsRing, same-IsRing}
use modificacion_sistema_ope.Bio.Order.{
  first_such, last_such, first_such_lem, last_such_lem, scan-first_such, scan-last_such,
}

-- The pointers go round all the buffers in the order `l`, and no two hold the same block of a
-- device.
pub record IsCache (c : Cache) (l : List ℕ) : Type 0 where
  pub ring : IsRing c l
  pub size : length l ≡ nbuf
  pub everywhere : (j : ℕ) → j < nbuf → count j l ≡ 1
  pub unique :
      (i j : ℕ)
      → i < nbuf
      → j < nbuf
      → (c i).dev ≢ 0
      → (c i).dev ≡ (c j).dev
      → (c i).blockno ≡ (c j).blockno
      → i ≡ j

-- A buffer that bget found, and one that it recycles.
abbrev pub hit : Buf → Buf
hit b = record b { refcnt = b.refcnt + 1 }

abbrev pub recycled : ℕ → ℕ → Buf → Buf
recycled dev blockno b = record b {
  dev = dev;
  blockno = blockno;
  valid = false;
  dirty = false;
  refcnt = 1;
}

-- The most recently released buffer with the block, or the least recently released unused one.
abbrev pub choose : ℕ → ℕ → List ℕ → Cache → Got
choose dev blockno l c = elim (first_such (has_block c dev blockno) l) [
  | some i ↦ got i (update c i (hit (c i)))
  | none ↦ elim (last_such (is_unused c) l) [
    | some i ↦ got i (update c i (recycled dev blockno (c i)))
    | none ↦ no_buffers
  ]
]

-- bget makes that choice, and always ends.
pub bget-choose :
    (c : Cache) (l : List ℕ) (dev blockno : ℕ)
    → IsCache c l
    → bget dev blockno c ≡ choose dev blockno l c
unfolding bget
bget-choose c l dev blockno v =
    let forward = scan-first_such c (has_block c dev blockno) l v.ring v.size in
    let backward = scan-last_such c (is_unused c) l v.ring v.size in
    ground (arith, forward, backward)

-- A change of one buffer that leaves its pointers.
pub changed-IsRing :
    (c : Cache) (l : List ℕ) (i : ℕ) (b : Buf)
    → b.next ≡ (c i).next
    → b.prev ≡ (c i).prev
    → IsRing c l
    → IsRing (update c i b) l
changed-IsRing c l i b n p v =
    same-IsRing c (update c i b) l (λ j. (ground (arith, n), ground (arith, p))) v

pub kept-IsCache :
    (c c' : Cache) (l : List ℕ)
    → IsRing c' l
    → ((j : ℕ) → ((c' j).dev ≡ (c j).dev) × ((c' j).blockno ≡ (c j).blockno))
    → IsCache c l
    → IsCache c' l
kept-IsCache c c' l r same v = record {
  ring = r;
  size = v.size;
  everywhere = v.everywhere;
  unique = λ i j hi hj d e f.
      v.unique i j hi hj (λ z. d ((same i).0 ∙ z)) (sym (same i).0 ∙ e ∙ (same j).0)
        (sym (same i).1 ∙ f ∙ (same j).1);
}

pub changed-IsCache :
    (c : Cache) (l : List ℕ) (i : ℕ) (b : Buf)
    → b.next ≡ (c i).next
    → b.prev ≡ (c i).prev
    → b.dev ≡ (c i).dev
    → b.blockno ≡ (c i).blockno
    → IsCache c l
    → IsCache (update c i b) l
changed-IsCache c l i b n p d e v =
    kept-IsCache c (update c i b) l (changed-IsRing c l i b n p v.ring)
      (λ j. (ground (arith, d), ground (arith, e))) v

recycled-IsCache :
    (c : Cache) (l : List ℕ) (i dev blockno : ℕ)
    → ((j : ℕ) → 0 < count j l → has_block c dev blockno j ≡ false)
    → IsCache c l
    → IsCache (update c i (recycled dev blockno (c i))) l
recycled-IsCache c l i dev blockno none_has v =
    let nobody = λ (j : ℕ) (h : j < nbuf). none_has j (omega (arith, v.everywhere j h)) in
    record {
      ring = changed-IsRing c l i (recycled dev blockno (c i)) refl refl v.ring;
      size = v.size;
      everywhere = v.everywhere;
      unique = λ a b ha hb d e f. elim (ℕ_discrete a i) [
        | yes p ↦ elim (ℕ_discrete b i) [
          | yes q ↦ p ∙ sym q
          | no q ↦ absurd (ground (arith, p, q, e, f, nobody b hb))
        ]
        | no p ↦ elim (ℕ_discrete b i) [
          | yes q ↦ absurd (ground (arith, p, q, e, f, nobody a ha))
          | no q ↦
              v.unique a b ha hb (λ z. d (ground (arith, p, z))) (ground (arith, p, q, e))
                (ground (arith, p, q, f))
        ]
      ];
    }

bounded_lt : (c : Cache) (l : List ℕ) (i : ℕ) → IsRing c l → 0 < count i l → i < nbuf
bounded_lt c l i v h = elim (Bool-cases (ltb i nbuf)) [
  | inl t ↦ ground (arith, t)
  | inr t ↦ absurd (ground (arith, t, v.bounded i, h))
]

-- What bget gives: a buffer that holds the block, the least recently released unused one where
-- none does, or a panic.
abbrev pub Gets : Cache → List ℕ → ℕ → ℕ → Type 0
Gets c l dev blockno =
    ((i : ℕ) × (i < nbuf)
      × (has_block c dev blockno i ≡ true)
      × (bget dev blockno c ≡ got i (update c i (hit (c i))))
      × IsCache (update c i (hit (c i))) l)
    ⊎ ((i : ℕ) × (i < nbuf)
        × (last_such (is_unused c) l ≡ some i)
        × ((j : ℕ) → j < nbuf → has_block c dev blockno j ≡ false)
        × (bget dev blockno c ≡ got i (update c i (recycled dev blockno (c i))))
        × IsCache (update c i (recycled dev blockno (c i))) l)
    ⊎ ((bget dev blockno c ≡ no_buffers)
        × ((j : ℕ) → j < nbuf → (has_block c dev blockno j ≡ false) × (is_unused c j ≡ false)))

-- On a cache with the invariant, bget ends. It gives the buffer that holds the block, with one reference more; or, where no buffer holds it, the least
-- recently released one that is neither referenced nor dirty, as the block's, invalid and with one
-- reference; or it panics, where no buffer holds the block and all are referenced or dirty. The
-- invariant and the order stay, so no block has two buffers.
pub bget_lem : (c : Cache) (l : List ℕ) (dev blockno : ℕ) → IsCache c l → Gets c l dev blockno
bget_lem c l dev blockno v =
    let q = bget-choose c l dev blockno v in
    let low = λ (i : ℕ) (h : 0 < count i l). bounded_lt c l i v.ring h in
    elim (first_such_lem (has_block c dev blockno) l) [
      | inl (i, e, t, h) ↦ inl (
        i,
        low i h,
        t,
        q ∙ ground (arith, e),
        changed-IsCache c l i (hit (c i)) refl refl refl refl v,
      )
      | inr (e, all) ↦
          let nobody = λ (j : ℕ) (h : j < nbuf). all j (omega (arith, v.everywhere j h)) in
          elim (last_such_lem (is_unused c) l) [
            | inl (i, f, t, h) ↦ inr (
                inl (
                  i,
                  low i h,
                  f,
                  nobody,
                  q ∙ ground (arith, e, f),
                  recycled-IsCache c l i dev blockno all v,
                ))
            | inr (f, busy) ↦ inr (
                inr (
                  q ∙ ground (arith, e, f),
                  λ j h. (nobody j h, busy j (omega (arith, v.everywhere j h))),
                ))
          ]
    ]
