-- ===== src/Dir/Search.antt =====
-- dirlookup and dirlink's loop search the entries among the directory's bytes.
use modificacion_sistema_ope.Base.{
  ℕ, zero, suc, ◌+◌, ◌-◌, ◌*◌, ◌/◌, min, ◌<◌, ◌≤◌, ◌≡◌, ◌≢◌, refl, arith, sym, ap, ◌∙◌, Bool, not,
  ◌&&◌, Option, none, some, ◌==◌, if◌then◌else◌, ℕ_discrete, Bool-cases, inl, inr,
}
use modificacion_sistema_ope.Inode.{Superblock, Blocks, Inode, ran, readi}
use modificacion_sistema_ope.Inode.Slots.{content}
use modificacion_sistema_ope.Inode.Read.{Mapped, readi_lem}
use modificacion_sistema_ope.Dir.Defs.{
  same_name, inum_of, name_of, dirlookup_from, dirlookup, free_entry,
}
use modificacion_sistema_ope.Dir.Names.{same_from-agree}

-- The bytes of the entry at `off`, and whether it is one for `name`.
abbrev pub entry_at : (ℕ → ℕ) → ℕ → ℕ → ℕ
entry_at c off j = c (off + j)

unfoldable pub is_for : (ℕ → ℕ) → (ℕ → ℕ) → ℕ → Bool
is_for c name off = not (inum_of (entry_at c off) == 0) && same_name name (name_of (entry_at c off))

-- The first of the `n` entries from `off` on that is for `name`, with its offset.
unfoldable pub search : ℕ → (ℕ → ℕ) → (ℕ → ℕ) → ℕ → Option (ℕ × ℕ)
search zero c name off = none
search (suc n) c name off =
    let rest : Option (ℕ × ℕ) = search n c name (off + 16) in
    if is_for c name off then some (inum_of (entry_at c off), off) else rest

pub search-agree :
    (n : ℕ) (c d name : ℕ → ℕ) (b : ℕ)
    → ((o : ℕ) → b ≤ o → o < b + 16 * n → c o ≡ d o)
    → search n c name b ≡ search n d name b
unfolding search is_for
search-agree zero c d name b e = refl
search-agree (suc n) c d name b e =
    let byte : (j : ℕ) → j < 16 → c (b + j) ≡ d (b + j) =
      λ j l. e (b + j) (omega arith) (omega arith) in
    let i : inum_of (entry_at c b) ≡ inum_of (entry_at d b) =
      omega (arith, byte 0 (omega arith), byte 1 (omega arith)) in
    let t : same_name name (name_of (entry_at c b)) ≡ same_name name (name_of (entry_at d b)) =
      same_from-agree 14 0 name (name_of (entry_at c b)) (name_of (entry_at d b))
        (λ j l k. byte (2 + j) (omega arith)) in
    let later : search n c name (b + 16) ≡ search n d name (b + 16) =
      search-agree n c d name (b + 16) (λ o l h. e o (omega arith) (omega arith)) in
    ground (arith, i, t, later)

-- The offset of the first entry without an inode, or the end.
unfoldable pub first_free : ℕ → (ℕ → ℕ) → ℕ → ℕ
first_free zero c off = off
first_free (suc n) c off =
    let rest : ℕ = first_free n c (off + 16) in if inum_of (entry_at c off) == 0 then off else rest

module _ (sb : Superblock) (dp : Inode) (s : Blocks) (hs : dp.size ≤ 71680)
    (m : Mapped dp s 0 dp.size) where
  -- One entry read.
  read_entry :
      (off : ℕ)
      → off + 16 ≤ dp.size
      → (d : ℕ → ℕ) × (readi sb dp (λ j. 0) off 16 s ≡ ran (some 16, d, dp, s))
        × (inum_of d ≡ inum_of (entry_at (content dp s) off))
        × ((name : ℕ → ℕ)
            → same_name name (name_of d) ≡ same_name name (name_of (entry_at (content dp s) off)))
  read_entry off h =
      let (d, e, bytes) = readi_lem sb dp (λ j. 0) off 16 s (omega arith) (omega arith) hs m in
      let full : min 16 (dp.size - off) ≡ 16 = omega (arith, h) in
      let byte : (j : ℕ) → j < 16 → d j ≡ content dp s (off + j) =
        λ j l. bytes j ∙ ground (arith, l, full) in
      (
        d,
        e ∙ ap (λ k. ran (some k, d, dp, s)) full,
        omega (arith, byte 0 (omega arith), byte 1 (omega arith)),
        λ name.
            same_from-agree 14 0 name (name_of d) (name_of (entry_at (content dp s) off))
              (λ j l k. byte (2 + j) (omega arith)),
      )

  dirlookup_from_lem :
      (n fuel off : ℕ) (name : ℕ → ℕ)
      → dp.size ≡ off + 16 * n
      → n < fuel
      → dirlookup_from sb fuel off dp name s ≡ ran (search n (content dp s) name off, dp, s)
  unfolding dirlookup_from search is_for
  dirlookup_from_lem n zero off name e h = absurd (omega arith)
  dirlookup_from_lem zero (suc fuel) off name e h = ground (arith, e)
  dirlookup_from_lem (suc n) (suc fuel) off name e h =
      let (d, r, i, same) = read_entry off (omega (arith, e)) in
      let rest : dirlookup_from sb fuel (off + 16) dp name s
          ≡ ran (search n (content dp s) name (off + 16), dp, s) =
        dirlookup_from_lem n fuel (off + 16) name (omega (arith, e)) (omega arith) in
      elim (ℕ_discrete (inum_of d) 0) [
        | yes z ↦ ground (arith, e, r, rest, z, sym i ∙ z)
        | no nz ↦
            let nz' : inum_of (entry_at (content dp s) off) ≢ 0 = λ z. nz (i ∙ z) in
            elim (Bool-cases (same_name name (name_of d))) [
              | inl y ↦ ground (arith, e, r, nz, nz', y, sym (same name) ∙ y, i)
              | inr y ↦ ground (arith, e, r, rest, nz, nz', y, sym (same name) ∙ y)
            ]
      ]

  free_entry_lem :
      (n fuel off : ℕ)
      → dp.size ≡ off + 16 * n
      → n < fuel
      → free_entry sb fuel off dp s ≡ ran (first_free n (content dp s) off, dp, s)
  unfolding free_entry first_free
  free_entry_lem n zero off e h = absurd (omega arith)
  free_entry_lem zero (suc fuel) off e h = ground (arith, e)
  free_entry_lem (suc n) (suc fuel) off e h =
      let (d, r, i, same) = read_entry off (omega (arith, e)) in
      let rest : free_entry sb fuel (off + 16) dp s
          ≡ ran (first_free n (content dp s) (off + 16), dp, s) =
        free_entry_lem n fuel (off + 16) (omega (arith, e)) (omega arith) in
      elim (ℕ_discrete (inum_of d) 0) [
        | yes z ↦ ground (arith, e, r, z, sym i ∙ z)
        | no nz ↦
            let nz' : inum_of (entry_at (content dp s) off) ≢ 0 = λ z. nz (i ∙ z) in
            ground (arith, e, r, rest, nz, nz')
      ]

  pub dirlookup_lem :
      (n : ℕ) (name : ℕ → ℕ)
      → dp.size ≡ 16 * n
      → dirlookup sb dp name s ≡ ran (search n (content dp s) name 0, dp, s)
  unfolding dirlookup
  dirlookup_lem n name e =
      dirlookup_from_lem n (dp.size / 16 + 2) 0 name (omega (arith, e)) (omega (arith, e))

  pub first_free_lem :
      (n : ℕ)
      → dp.size ≡ 16 * n
      → free_entry sb (dp.size / 16 + 2) 0 dp s ≡ ran (first_free n (content dp s) 0, dp, s)
  first_free_lem n e = free_entry_lem n (dp.size / 16 + 2) 0 (omega (arith, e)) (omega (arith, e))
