-- ===== src/Dir/Entries.antt =====
-- The loops over a directory of xv6-public/fs.c where one entry is new.
use modificacion_sistema_ope.Base.{
  ℕ, zero, suc, ◌+◌, ◌*◌, ◌%◌, max, ◌<◌, ◌≤◌, ◌≡◌, ◌≢◌, refl, arith, ap, ap₂, ◌∙◌, Bool, true,
  false, not, ◌&&◌, none, some, ◌==◌, ℕ_discrete, dec_lt, Bool-cases, inl, inr,
}
use modificacion_sistema_ope.Dir.Defs.{inum_of, name_of}
use modificacion_sistema_ope.Dir.Names.{same_from-agree}
use modificacion_sistema_ope.Dir.Search.{entry_at, is_for, search, first_free}

-- Where dirlink puts the entry: an entry without an inode, or the end.
pub record IsFree (n : ℕ) (c : ℕ → ℕ) (b off : ℕ) : Type 0 where
  pub from_start : b ≤ off
  pub to_end : off ≤ b + 16 * n
  pub aligned : off % 16 ≡ 0
  pub unused : off < b + 16 * n → inum_of (entry_at c off) ≡ 0

pub first_free-IsFree : (n : ℕ) (c : ℕ → ℕ) (b : ℕ) → b % 16 ≡ 0 → IsFree n c b (first_free n c b)
unfolding first_free
first_free-IsFree zero c b h = record {
  from_start = omega arith;
  to_end = omega arith;
  aligned = h;
  unused = λ l. absurd (omega (arith, l));
}
first_free-IsFree (suc n) c b h = elim (ℕ_discrete (inum_of (entry_at c b)) 0) [
  | yes z ↦
      let e : first_free (suc n) c b ≡ b = ground (arith, z) in
      record {
        from_start = omega (arith, e);
        to_end = omega (arith, e);
        aligned = omega (arith, e, h);
        unused = λ l. ap (λ x. inum_of (entry_at c x)) e ∙ z;
      }
  | no nz ↦
      let e : first_free (suc n) c b ≡ first_free n c (b + 16) = ground (arith, nz) in
      let i : IsFree n c (b + 16) (first_free n c (b + 16)) =
        first_free-IsFree n c (b + 16) (omega (arith, h)) in
      record {
        from_start = omega (arith, e, i.from_start);
        to_end = omega (arith, e, i.to_end);
        aligned = omega (arith, e, i.aligned);
        unused = λ l. ap (λ x. inum_of (entry_at c x)) e ∙ i.unused (omega (arith, e, l));
      }
]

pub is_for-free : (c name : ℕ → ℕ) (x : ℕ) → inum_of (entry_at c x) ≡ 0 → is_for c name x ≡ false
unfolding is_for
is_for-free c name x z = ground (arith, z)

module _ (c c' : ℕ → ℕ) (off : ℕ) (same : (o : ℕ) → o < off → c' o ≡ c o)
    (same_after : (o : ℕ) → off + 16 ≤ o → c' o ≡ c o) where
  -- The other entries.
  other_entry :
      (x : ℕ)
      → x % 16 ≡ 0
      → off % 16 ≡ 0
      → x ≢ off
      → (j : ℕ) → j < 16
      → entry_at c' x j ≡ entry_at c x j
  other_entry x h h' ne j l = elim (dec_lt x off) [
    | yes lt ↦ same (x + j) (omega arith)
    | no ge ↦ same_after (x + j) (omega arith)
  ]

  other_inum :
      (x : ℕ)
      → x % 16 ≡ 0
      → off % 16 ≡ 0
      → x ≢ off
      → inum_of (entry_at c' x) ≡ inum_of (entry_at c x)
  other_inum x h h' ne =
      omega (arith, other_entry x h h' ne 0 (omega arith), other_entry x h h' ne 1 (omega arith))

  other_is_for :
      (name : ℕ → ℕ) (x : ℕ)
      → x % 16 ≡ 0
      → off % 16 ≡ 0
      → x ≢ off
      → is_for c' name x ≡ is_for c name x
  unfolding is_for
  other_is_for name x h h' ne =
      ap₂ (λ (i : ℕ) (t : Bool). not (i == 0) && t) (other_inum x h h' ne)
        (same_from-agree 14 0 name (name_of (entry_at c' x)) (name_of (entry_at c x))
          (λ j l k. other_entry x h h' ne (2 + j) (omega arith)))

  -- The new entry is found first where there was none for the name.
  pub search_new :
      (k n b : ℕ) (name : ℕ → ℕ)
      → b % 16 ≡ 0
      → IsFree n c b off
      → off < b + 16 * k
      → search n c name b ≡ none
      → is_for c' name off ≡ true
      → search k c' name b ≡ some (inum_of (entry_at c' off), off)
  unfolding search
  search_new zero n b name h f l none_there new = absurd (omega (arith, f.from_start, l))
  search_new (suc k) zero b name h f l none_there new =
      let e : b ≡ off = omega (arith, f.from_start, f.to_end) in
      ground (arith, ap (is_for c' name) e ∙ new, e)
  search_new (suc k) (suc n) b name h f l none_there new = elim (ℕ_discrete b off) [
    | yes e ↦ ground (arith, ap (is_for c' name) e ∙ new, e)
    | no ne ↦
        let not_here : is_for c name b ≡ false = elim (Bool-cases (is_for c name b)) [
          | inr q ↦ q
          | inl q ↦ absurd (ground (arith, none_there, q))
        ] in
        let none_later : search n c name (b + 16) ≡ none = ground (arith, none_there, not_here) in
        let f' : IsFree n c (b + 16) off = record {
          from_start = omega (arith, f.from_start, f.aligned, ne, h);
          to_end = omega (arith, f.to_end);
          aligned = f.aligned;
          unused = λ q. f.unused (omega (arith, q));
        } in
        let later : search k c' name (b + 16) ≡ some (inum_of (entry_at c' off), off) =
          search_new k n (b + 16) name (omega (arith, h)) f' (omega (arith, l)) none_later new in
        ground (arith, other_is_for name b h f.aligned ne ∙ not_here, later)
  ]

  -- Other names are found where they were.
  pub search_kept :
      (k n b : ℕ) (name : ℕ → ℕ)
      → b % 16 ≡ 0
      → off % 16 ≡ 0
      → b + 16 * k ≡ max (b + 16 * n) (off + 16)
      → off ≤ b + 16 * n
      → (off < b + 16 * n → inum_of (entry_at c off) ≡ 0)
      → is_for c' name off ≡ false
      → search k c' name b ≡ search n c name b
  unfolding search
  search_kept zero zero b name h h' e l unused new = refl
  search_kept zero (suc n) b name h h' e l unused new = absurd (omega (arith, e))
  search_kept (suc k) zero b name h h' e l unused new =
      let here : b ≡ off = omega (arith, e, l, h, h') in
      let last : k ≡ 0 = omega (arith, e, l) in
      let gone : search k c' name (b + 16) ≡ none = ap (λ i. search i c' name (b + 16)) last in
      ground (arith, ap (is_for c' name) here ∙ new, gone)
  search_kept (suc k) (suc n) b name h h' e l unused new =
      let later : search k c' name (b + 16) ≡ search n c name (b + 16) =
        search_kept k n (b + 16) name (omega (arith, h)) h' (omega (arith, e)) (omega (arith, l))
          (λ q. unused (omega (arith, q))) new in
      elim (ℕ_discrete b off) [
        | yes q ↦
            let was : is_for c name b ≡ false =
              is_for-free c name b
                (ap (λ x. inum_of (entry_at c x)) q ∙ unused (omega (arith, q))) in
            ground (arith, ap (is_for c' name) q ∙ new, was, later)
        | no ne ↦ ground (arith, other_is_for name b h h' ne, other_inum b h h' ne, later)
      ]
