-- ===== src/Vm/Ranges.antt =====
-- The pages of a range, as mappages of xv6-public/vm.c goes through them.
use modificacion_sistema_ope.Base.{
  ℕ, suc, ◌+◌, ◌-◌, ◌*◌, ◌/◌, ◌%◌, ◌^◌, ◌<◌, ◌≡◌, ◌≢◌, inl, inr, arith, ap, Bool, true, false, ◌==◌,
  ltb, leb, ◌&&◌, if◌then◌else◌, ℕ_discrete, Bool-cases,
}
use modificacion_sistema_ope.Vm.Defs.{pdx, ptx, is_present, entry}
use modificacion_sistema_ope.Vm.Tables.{table_of, pte_of}

-- A page of the `n` from that of `a` on.
abbrev pub in_pages : ℕ → ℕ → ℕ → Bool
in_pages a n va = leb (a / 4096) (va / 4096) && ltb (va / 4096) (a / 4096 + n)

pub pte_of-there :
    (word : ℕ → ℕ) (pgdir va : ℕ)
    → is_present (word (pgdir + 4 * pdx va)) ≡ true
    → pte_of word pgdir va ≡ word (table_of word pgdir (pdx va) + 4 * ptx va)
unfolding pte_of
pte_of-there word pgdir va p = ground (arith, p)

-- The physical page of the page of `va`.
abbrev pub target : ℕ → ℕ → ℕ → ℕ
target pa a va = (pa + 4096 * (va / 4096 - a / 4096)) % 2 ^ 32

-- A range of pages by its first page and the rest.
pub one_page :
    (a pa perm w va : ℕ)
    → pa < 2 ^ 32
    → (if va / 4096 == a / 4096 then entry pa perm else w)
      ≡ (if in_pages a 1 va then entry (target pa a va) perm else w)
one_page a pa perm w va l = elim (ℕ_discrete (va / 4096) (a / 4096)) [
  | yes e ↦
      let t : target pa a va ≡ pa = omega (arith, e, l) in
      ground (arith, e, ap (λ x. entry x perm) t)
  | no ne ↦ let out : in_pages a 1 va ≡ false = ground (arith, ne) in ground (arith, ne, out)
]

pub in_rest :
    (a n va : ℕ)
    → a % 4096 ≡ 0
    → in_pages (a + 4096) (suc n) va ≡ true
    → (va / 4096 ≢ a / 4096) × (in_pages a (suc (suc n)) va ≡ true)
in_rest a n va h e =
    let up : (a + 4096) / 4096 ≡ a / 4096 + 1 = omega arith in
    ((λ q. ground (arith, e, up, q)), ground (arith, e, up))

pub out_rest :
    (a n va : ℕ)
    → in_pages a (suc (suc n)) va ≡ false
    → (va / 4096 ≢ a / 4096) × (in_pages (a + 4096) (suc n) va ≡ false)
out_rest a n va e =
    let up : (a + 4096) / 4096 ≡ a / 4096 + 1 = omega arith in
    ((λ q. ground (arith, e, up, q)), ground (arith, e, up))

pub more_pages :
    (a n pa perm w va : ℕ)
    → pa < 2 ^ 32
    → (if in_pages (a + 4096) (suc n) va
        then entry (target ((pa + 4096) % 2 ^ 32) (a + 4096) va) perm
        else if va / 4096 == a / 4096
        then entry pa perm
        else w)
      ≡ (if in_pages a (suc (suc n)) va then entry (target pa a va) perm else w)
more_pages a n pa perm w va l =
    let up : (a + 4096) / 4096 ≡ a / 4096 + 1 = omega arith in
    elim (Bool-cases (in_pages (a + 4096) (suc n) va)) [
      | inl inside ↦
          let after : a / 4096 < va / 4096 = ground (arith, inside, up) in
          let t : target ((pa + 4096) % 2 ^ 32) (a + 4096) va ≡ target pa a va =
            omega (arith, up, after) in
          let all : in_pages a (suc (suc n)) va ≡ true = ground (arith, inside, up) in
          ground (arith, inside, all, ap (λ x. entry x perm) t)
      | inr outside ↦ elim (ℕ_discrete (va / 4096) (a / 4096)) [
        | yes e ↦
            let t : target pa a va ≡ pa = omega (arith, e, l) in
            let all : in_pages a (suc (suc n)) va ≡ true = ground (arith, e) in
            ground (arith, outside, e, all, ap (λ x. entry x perm) t)
        | no ne ↦
            let out : in_pages a (suc (suc n)) va ≡ false = ground (arith, outside, up, ne) in
            ground (arith, outside, ne, out)
      ]
    ]

pub other_page :
    (a va v w : ℕ) → va / 4096 ≢ a / 4096 → (if va / 4096 == a / 4096 then v else w) ≡ w
other_page a va v w ne = ground (arith, ne)
