-- ===== src/Dir/Names.antt =====
-- Names compared and copied.
use modificacion_sistema_ope.Base.{
  ℕ, zero, suc, ◌+◌, ◌-◌, ◌<◌, ◌≤◌, ◌≡◌, refl, arith, ap, ◌∙◌, true, ℕ_discrete,
}
use modificacion_sistema_ope.Dir.Defs.{same_from, same_name, inum_of, name_of, copied, new_entry}

pub same_from-agree :
    (n i : ℕ) (s t u : ℕ → ℕ)
    → ((j : ℕ) → i ≤ j → j < i + n → t j ≡ u j)
    → same_from n i s t ≡ same_from n i s u
unfolding same_from
same_from-agree zero i s t u e = refl
same_from-agree (suc n) i s t u e = ground (
  arith,
  e i (omega arith) (omega arith),
  same_from-agree n (i + 1) s t u (λ j l h. e j (omega arith) (omega arith)),
)

same_from-copied : (n i : ℕ) (name : ℕ → ℕ) → same_from n i name (copied n i name) ≡ true
unfolding same_from copied
same_from-copied zero i name = refl
same_from-copied (suc n) i name = elim (ℕ_discrete (name i) 0) [
  | yes z ↦ ground (arith, z)
  | no nz ↦
      let later : same_from n (i + 1) name (copied (suc n) i name)
          ≡ same_from n (i + 1) name (copied n (i + 1) name) =
        same_from-agree n (i + 1) name (copied (suc n) i name) (copied n (i + 1) name)
          (λ j l h. ground (arith, nz, l)) in
      ground (arith, nz, later ∙ same_from-copied n (i + 1) name)
]

pub inum_of-new : (name : ℕ → ℕ) (inum : ℕ) → inum < 65536 → inum_of (new_entry name inum) ≡ inum
unfolding new_entry
inum_of-new name inum h = omega arith

pub same_name-new :
    (name : ℕ → ℕ) (inum : ℕ) → same_name name (name_of (new_entry name inum)) ≡ true
unfolding new_entry
same_name-new name inum =
    same_from-agree 14 0 name (name_of (new_entry name inum)) (copied 14 0 name)
      (λ j l h. (let q : 2 + j - 2 ≡ j = omega arith in ground (arith, ap (copied 14 0 name) q)))
    ∙ same_from-copied 14 0 name
