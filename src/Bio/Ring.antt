-- ===== src/Bio/Ring.antt =====
-- The doubly linked list of buffers as a ring through the head.
use modificacion_sistema_ope.Base.{
  ℕ, ◌+◌, ◌<◌, ◌≤◌, ◌≡◌, ◌≢◌, arith, sym, ap, ap₂, ◌∙◌, subst, ◌==◌, if◌then◌else◌, List, [], ◌∷◌,
  ◌++◌, count, count-append,
}
use modificacion_sistema_ope.Bio.Defs.{nbuf, Cache, set_next, set_prev, to_front, unlink}

-- From `x` the `next` pointers lead through `l` to `e`, and the `prev` pointers back.
abbrev pub Links : Cache → ℕ → List ℕ → ℕ → Type 0
Links c x [] e = ((c x).next ≡ e) × ((c e).prev ≡ x)
Links c x (y ∷ l) e = ((c x).next ≡ y) × ((c y).prev ≡ x) × Links c y l e

frame :
    (c c' : Cache) (x : ℕ) (l : List ℕ) (e : ℕ)
    → ((j : ℕ) → 0 < count j (x ∷ l) → (c' j).next ≡ (c j).next)
    → ((j : ℕ) → 0 < count j l + (if j == e then 1 else 0) → (c' j).prev ≡ (c j).prev)
    → Links c x l e
    → Links c' x l e
frame c c' x [] e n p (a, b) = (n x (ground arith) ∙ a, p e (ground arith) ∙ b)
frame c c' x (y ∷ l) e n p (a, b, r) = (
  n x (ground arith) ∙ a,
  p y (ground arith) ∙ b,
  frame c c' y l e (λ j h. n j (ground (arith, h))) (λ j h. p j (ground (arith, h))) r,
)

pub split :
    (c : Cache) (x : ℕ) (l : List ℕ) (i : ℕ) (m : List ℕ) (e : ℕ)
    → Links c x (l ++ i ∷ m) e
    → Links c x l i × Links c i m e
split c x [] i m e (a, b, r) = ((a, b), r)
split c x (y ∷ l) i m e (a, b, r) = let s = split c y l i m e r in ((a, b, s.0), s.1)

-- Another start for a segment.
restart :
    (c c' : Cache) (x x' : ℕ) (l : List ℕ) (e : ℕ)
    → Links c x l e
    → ((j : ℕ) → count j l ≤ 1)
    → count e l ≡ 0
    → (c' x').next ≡ (c x).next
    → (c' (c x).next).prev ≡ x'
    → ((j : ℕ) → 0 < count j l → (c' j).next ≡ (c j).next)
    → ((j : ℕ)
        → j ≢ (c x).next
        → 0 < count j l + (if j == e then 1 else 0)
        → (c' j).prev ≡ (c j).prev)
    → Links c' x' l e
restart c c' x x' [] e (a, b) d o n p ns ps = (n ∙ a, ap (λ j. (c' j).prev) (sym a) ∙ p)
restart c c' x x' (y ∷ l) e (a, b, r) d o n p ns ps = (
  n ∙ a,
  ap (λ j. (c' j).prev) (sym a) ∙ p,
  frame c c' y l e (λ j h. ns j h)
      (λ j h. ps j (λ q. ground (arith, q, a, d y, o, h)) (ground (arith, h))) r,
)

last_counts :
    (c : Cache) (x : ℕ) (l : List ℕ) (e : ℕ) → Links c x l e → 0 < count (c e).prev (x ∷ l)
last_counts c x [] e (a, b) = ground (arith, b)
last_counts c x (y ∷ l) e (a, b, r) = ground (arith, last_counts c y l e r)

first_counts :
    (c : Cache) (x : ℕ) (l : List ℕ) (e : ℕ)
    → Links c x l e
    → 0 < count (c x).next l + (if (c x).next == e then 1 else 0)
first_counts c x [] e (a, b) = ground (arith, a)
first_counts c x (y ∷ l) e (a, b, r) = ground (arith, a)

-- `c'` is `c` without `i`.
module _ (c c' : Cache) (i : ℕ) (prev_same : (j : ℕ) → j ≢ (c i).next → (c' j).prev ≡ (c j).prev)
    (next_same : (j : ℕ) → j ≢ (c i).prev → (c' j).next ≡ (c j).next)
    (prev_new : (c' (c i).next).prev ≡ (c i).prev)
    (next_new : (c' (c i).prev).next ≡ (c i).next) where
  bypass :
      (x : ℕ) (l m : List ℕ) (e : ℕ)
      → Links c x l i
      → Links c i m e
      → ((j : ℕ) → count j (l ++ i ∷ m) ≤ 1)
      → count x (l ++ i ∷ m) ≡ 0
      → count e (l ++ i ∷ m) ≡ 0
      → Links c' x (l ++ m) e
  bypass x [] m e (a, b) r d ox oe =
      restart c c' i x m e r (λ j. ground (arith, d j)) (ground (arith, oe))
        (ap (λ j. (c' j).next) (sym b) ∙ next_new) (prev_new ∙ b)
        (λ j h.
          next_same j
            (λ q. ground (arith, subst (λ k. count k m ≡ 0) (sym (q ∙ b)) (ground (arith, ox)), h)))
        (λ j ne h. prev_same j ne)
  bypass x (y ∷ l) m e (a, b, s) r d ox oe =
      let x_ne : x ≢ (c i).prev = λ q. ground (
        arith,
        subst (λ j. 0 < count j (y ∷ l)) (sym q) (last_counts c y l i s),
        ox,
        count-append x l (i ∷ m),
      ) in
      let y_ne : y ≢ (c i).next = λ q. ground (
        arith,
        subst (λ j. 0 < count j m + (if j == e then 1 else 0)) (sym q) (first_counts c i m e r),
        d y,
        oe,
        count-append y l (i ∷ m),
      ) in
      (
        next_same x x_ne ∙ a,
        prev_same y y_ne ∙ b,
        bypass y l m e s r (λ j. ground (arith, d j)) (ground (arith, d y)) (ground (arith, oe)),
      )

-- The pointers after one of them is set.
set_next-next :
    (i v : ℕ) (c : Cache) (j : ℕ) → (set_next i v c j).next ≡ (if j == i then v else (c j).next)
set_next-next i v c j = ground arith

set_next-prev : (i v : ℕ) (c : Cache) (j : ℕ) → (set_next i v c j).prev ≡ (c j).prev
set_next-prev i v c j = ground arith

set_prev-prev :
    (i v : ℕ) (c : Cache) (j : ℕ) → (set_prev i v c j).prev ≡ (if j == i then v else (c j).prev)
set_prev-prev i v c j = ground arith

set_prev-next : (i v : ℕ) (c : Cache) (j : ℕ) → (set_prev i v c j).next ≡ (c j).next
set_prev-next i v c j = ground arith

unlink_lem :
    (i : ℕ) (c : Cache)
    → (c i).next ≢ i
    → (j : ℕ)
    → ((unlink i c j).next ≡ (if j == (c i).prev then (c i).next else (c j).next))
      × ((unlink i c j).prev ≡ (if j == (c i).next then (c i).prev else (c j).prev))
unfolding unlink
unlink_lem i c ne j =
    let c₁ = set_prev (c i).next (c i).prev c in
    let p : (c₁ i).prev ≡ (c i).prev = set_prev-prev (c i).next (c i).prev c i ∙ ground arith in
    let n : (c₁ i).next ≡ (c i).next = set_prev-next (c i).next (c i).prev c i in
    (
      set_next-next (c₁ i).prev (c₁ i).next c₁ j
          ∙ ap₂ (λ p n. if j == p then n else (c₁ j).next) p n
          ∙ ap (λ r. if j == (c i).prev then (c i).next else r)
              (set_prev-next (c i).next (c i).prev c j),
      set_next-prev (c₁ i).prev (c₁ i).next c₁ j ∙ set_prev-prev (c i).next (c i).prev c j,
    )

to_front_lem :
    (i : ℕ) (c : Cache)
    → i < nbuf
    → (j : ℕ)
    → ((to_front i c j).next
        ≡ (if j == nbuf then i else if j == i then (c nbuf).next else (c j).next))
      × ((to_front i c j).prev
          ≡ (if j == (c nbuf).next then i else if j == i then nbuf else (c j).prev))
unfolding to_front
to_front_lem i c h j =
    let c₁ = set_next i (c nbuf).next c in
    let c₂ = set_prev i nbuf c₁ in
    let n : (c₂ nbuf).next ≡ (c nbuf).next =
      set_prev-next i nbuf c₁ nbuf ∙ set_next-next i (c nbuf).next c nbuf ∙ ground arith in
    let c₃ = set_prev (c₂ nbuf).next i c₂ in
    (
      set_next-next nbuf i c₃ j
          ∙ ap (λ r. if j == nbuf then i else r)
              (set_prev-next (c₂ nbuf).next i c₂ j
                ∙ set_prev-next i nbuf c₁ j
                ∙ set_next-next i (c nbuf).next c j),
      set_next-prev nbuf i c₃ j
          ∙ set_prev-prev (c₂ nbuf).next i c₂ j
          ∙ ap₂ (λ n r. if j == n then i else r) n
              (set_prev-prev i nbuf c₁ j
                ∙ ap (λ r. if j == i then nbuf else r) (set_next-prev i (c nbuf).next c j)),
    )

-- A list of the buffers, each at most once, that the pointers go round.
pub record IsRing (c : Cache) (l : List ℕ) : Type 0 where
  pub links : Links c nbuf l nbuf
  pub once : (j : ℕ) → count j l ≤ 1
  pub bounded : (j : ℕ) → nbuf ≤ j → count j l ≡ 0

pub unlink-IsRing :
    (c : Cache) (l : List ℕ) (i : ℕ) (m : List ℕ)
    → IsRing c (l ++ i ∷ m)
    → IsRing (unlink i c) (l ++ m)
unlink-IsRing c l i m v =
    let s = split c nbuf l i m nbuf v.links in
    let ni : (c i).next ≢ i = λ q. ground (
      arith,
      subst (λ j. 0 < count j m + (if j == nbuf then 1 else 0)) q (first_counts c i m nbuf s.1),
      v.once i,
      v.bounded nbuf (omega arith),
      count-append i l (i ∷ m),
      count-append nbuf l (i ∷ m),
    ) in
    let u = unlink_lem i c ni in
    record {
      links =
          bypass c (unlink i c) i (λ j ne. ground (arith, (u j).1))
            (λ j ne. ground (arith, (u j).0)) (ground (arith, (u (c i).next).1))
            (ground (arith, (u (c i).prev).0)) nbuf l m nbuf s.0 s.1 v.once
            (v.bounded nbuf (omega arith)) (v.bounded nbuf (omega arith));
      once = λ j. ground (arith, v.once j, count-append j l m, count-append j l (i ∷ m));
      bounded = λ j h. ground (arith, v.bounded j h, count-append j l m, count-append j l (i ∷ m));
    }

pub to_front-IsRing :
    (c : Cache) (l : List ℕ) (i : ℕ)
    → i < nbuf
    → count i l ≡ 0
    → IsRing c l
    → IsRing (to_front i c) (i ∷ l)
to_front-IsRing c l i h out v =
    let f = to_front_lem i c h in
    let first = first_counts c nbuf l nbuf v.links in
    let inner : (c nbuf).next ≢ i =
      λ q. ground (arith, subst (λ j. 0 < count j l + (if j == nbuf then 1 else 0)) q first, out) in
    record {
      links = (
        ground (arith, (f nbuf).0),
        ground (arith, (f i).1, inner),
        restart c (to_front i c) nbuf i l nbuf v.links v.once (v.bounded nbuf (omega arith))
            (ground (arith, (f i).0)) (ground (arith, (f (c nbuf).next).1))
            (λ j g. ground (arith, (f j).0, v.bounded j, out, g))
            (λ j ne g. ground (arith, (f j).1, out, g)),
      );
      once = λ j. ground (arith, v.once j, out);
      bounded = λ j g. ground (arith, v.bounded j g);
    }

-- A change of anything but the pointers.
pub same-IsRing :
    (c c' : Cache) (l : List ℕ)
    → ((j : ℕ) → ((c' j).next ≡ (c j).next) × ((c' j).prev ≡ (c j).prev))
    → IsRing c l
    → IsRing c' l
same-IsRing c c' l same v = record {
  links = frame c c' nbuf l nbuf (λ j h. (same j).0) (λ j h. (same j).1) v.links;
  once = v.once;
  bounded = v.bounded;
}
