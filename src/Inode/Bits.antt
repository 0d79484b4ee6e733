-- ===== src/Inode/Bits.antt =====
-- The bits of the block map.
use modificacion_sistema_ope.Base.{
  ℕ, zero, suc, ◌+◌, ◌-◌, ◌*◌, ◌/◌, ◌%◌, ◌^◌, ◌<◌, ◌≤◌, ◌≡◌, ◌≢◌, arith, sym, ap, ap₂, ◌∙◌, Bool,
  false, update_self, update_ne, ◌==◌, if◌then◌else◌, ℕ_discrete,
}
use native.Mathlib.Nat.{div-div-eq-div-mul, pow-succ'}
use modificacion_sistema_ope.Inode.Defs.{bit, set_bit, clear_bit, get_word, put_word}

abbrev at_bit : ℕ → ℕ → ℕ
at_bit x k = x / 2 ^ k % 2

at_bit-suc : (x k : ℕ) → at_bit x (suc k) ≡ at_bit (x / 2) k
at_bit-suc x k =
    ap (λ (d : ℕ). d % 2)
      (ap (λ (p : ℕ). x / p) (pow-succ' 2 k) ∙ sym (div-div-eq-div-mul x 2 (2 ^ k)))

set-half : (x k : ℕ) → (x + 2 ^ suc k) / 2 ≡ x / 2 + 2 ^ k
set-half x k = omega (arith, pow-succ' 2 k)

clear-half : (x k : ℕ) → (x - 2 ^ suc k) / 2 ≡ x / 2 - 2 ^ k
clear-half x k = omega (arith, pow-succ' 2 k)

-- A set bit's weight is in the number.
at_bit_big : (x k : ℕ) → at_bit x k ≡ 1 → 2 ^ k ≤ x
at_bit_big x zero c = omega arith
at_bit_big x (suc k) c =
    omega (arith, pow-succ' 2 k, at_bit_big (x / 2) k (sym (at_bit-suc x k) ∙ c))

-- Setting a clear bit.
at_bit-set :
    (x k j : ℕ) → at_bit x k ≡ 0 → at_bit (x + 2 ^ k) j ≡ (if j == k then 1 else at_bit x j)
at_bit-set x zero zero c = omega arith
at_bit-set x zero (suc j) c =
    let half : (x + 1) / 2 ≡ x / 2 = omega (arith, c) in
    let e : at_bit (x + 1) (suc j) ≡ at_bit x (suc j) =
      at_bit-suc (x + 1) j ∙ ap (λ y. at_bit y j) half ∙ sym (at_bit-suc x j) in
    ground (arith, e)
at_bit-set x (suc k) zero c =
    let e : at_bit (x + 2 ^ suc k) 0 ≡ at_bit x 0 = omega (arith, pow-succ' 2 k) in
    ground (arith, e)
at_bit-set x (suc k) (suc j) c =
    let e : at_bit (x + 2 ^ suc k) (suc j) ≡ (if j == k then 1 else at_bit (x / 2) j) =
      at_bit-suc (x + 2 ^ suc k) j
      ∙ ap (λ y. at_bit y j) (set-half x k)
      ∙ at_bit-set (x / 2) k j (sym (at_bit-suc x k) ∙ c) in
    ground (arith, e, at_bit-suc x j)

-- Clearing a set one.
at_bit-clear :
    (x k j : ℕ) → at_bit x k ≡ 1 → at_bit (x - 2 ^ k) j ≡ (if j == k then 0 else at_bit x j)
at_bit-clear x zero zero c = omega arith
at_bit-clear x zero (suc j) c =
    let half : (x - 1) / 2 ≡ x / 2 = omega (arith, c) in
    let e : at_bit (x - 1) (suc j) ≡ at_bit x (suc j) =
      at_bit-suc (x - 1) j ∙ ap (λ y. at_bit y j) half ∙ sym (at_bit-suc x j) in
    ground (arith, e)
at_bit-clear x (suc k) zero c =
    let big : 2 ^ suc k ≤ x = at_bit_big x (suc k) c in
    let e : at_bit (x - 2 ^ suc k) 0 ≡ at_bit x 0 = omega (arith, pow-succ' 2 k) in
    ground (arith, e)
at_bit-clear x (suc k) (suc j) c =
    let e : at_bit (x - 2 ^ suc k) (suc j) ≡ (if j == k then 0 else at_bit (x / 2) j) =
      at_bit-suc (x - 2 ^ suc k) j
      ∙ ap (λ y. at_bit y j) (clear-half x k)
      ∙ at_bit-clear (x / 2) k j (sym (at_bit-suc x k) ∙ c) in
    ground (arith, e, at_bit-suc x j)

-- The bits of a map block, the bits of a byte being below 8.
pub bit-set_bit :
    (f : ℕ → ℕ) (i j : ℕ) → bit f i ≡ 0 → bit (set_bit f i) j ≡ (if j == i then 1 else bit f j)
bit-set_bit f i j c = elim (ℕ_discrete (j / 8) (i / 8)) [
  | yes e ↦
      let here : set_bit f i (j / 8) ≡ f (i / 8) + 2 ^ (i % 8) =
        ap (set_bit f i) e ∙ update_self f (i / 8) (f (i / 8) + 2 ^ (i % 8)) in
      let old : f (j / 8) ≡ f (i / 8) = ap f e in
      let q : bit (set_bit f i) j ≡ (if j % 8 == i % 8 then 1 else at_bit (f (i / 8)) (j % 8)) =
        ap (λ x. at_bit x (j % 8)) here ∙ at_bit-set (f (i / 8)) (i % 8) (j % 8) c in
      let r : at_bit (f (i / 8)) (j % 8) ≡ bit f j = ap (λ x. at_bit x (j % 8)) (sym old) in
      let same : (j % 8 == i % 8) ≡ (j == i) = ground arith in
      q ∙ ap₂ (λ (b : Bool) (r : ℕ). if b then 1 else r) same r
  | no ne ↦
      let away : set_bit f i (j / 8) ≡ f (j / 8) =
        update_ne f (i / 8) (f (i / 8) + 2 ^ (i % 8)) (j / 8) ne in
      let other : (j == i) ≡ false = ground arith in
      ap (λ x. at_bit x (j % 8)) away ∙ ap (λ b. if b then 1 else bit f j) (sym other)
]

pub bit-clear_bit :
    (f : ℕ → ℕ) (i j : ℕ) → bit f i ≡ 1 → bit (clear_bit f i) j ≡ (if j == i then 0 else bit f j)
bit-clear_bit f i j c = elim (ℕ_discrete (j / 8) (i / 8)) [
  | yes e ↦
      let here : clear_bit f i (j / 8) ≡ f (i / 8) - 2 ^ (i % 8) =
        ap (clear_bit f i) e ∙ update_self f (i / 8) (f (i / 8) - 2 ^ (i % 8)) in
      let old : f (j / 8) ≡ f (i / 8) = ap f e in
      let q : bit (clear_bit f i) j ≡ (if j % 8 == i % 8 then 0 else at_bit (f (i / 8)) (j % 8)) =
        ap (λ x. at_bit x (j % 8)) here ∙ at_bit-clear (f (i / 8)) (i % 8) (j % 8) c in
      let r : at_bit (f (i / 8)) (j % 8) ≡ bit f j = ap (λ x. at_bit x (j % 8)) (sym old) in
      let same : (j % 8 == i % 8) ≡ (j == i) = ground arith in
      q ∙ ap₂ (λ (b : Bool) (r : ℕ). if b then 0 else r) same r
  | no ne ↦
      let away : clear_bit f i (j / 8) ≡ f (j / 8) =
        update_ne f (i / 8) (f (i / 8) - 2 ^ (i % 8)) (j / 8) ne in
      let other : (j == i) ≡ false = ground arith in
      ap (λ x. at_bit x (j % 8)) away ∙ ap (λ b. if b then 0 else bit f j) (sym other)
]

-- The words of a block.
put_word_0 : (f : ℕ → ℕ) (k v : ℕ) → put_word f k v (4 * k) ≡ v % 256
put_word_0 f k v = ground arith

put_word_1 : (f : ℕ → ℕ) (k v : ℕ) → put_word f k v (4 * k + 1) ≡ v / 256 % 256
put_word_1 f k v = ground arith

put_word_2 : (f : ℕ → ℕ) (k v : ℕ) → put_word f k v (4 * k + 2) ≡ v / 65536 % 256
put_word_2 f k v = ground arith

put_word_3 : (f : ℕ → ℕ) (k v : ℕ) → put_word f k v (4 * k + 3) ≡ v / 16777216 % 256
put_word_3 f k v = ground arith

put_word_ne : (f : ℕ → ℕ) (k v o : ℕ) → o / 4 ≢ k → put_word f k v o ≡ f o
put_word_ne f k v o h = ground arith

pub get_word-put_word :
    (f : ℕ → ℕ) (k v j : ℕ)
    → v < 4294967296
    → get_word (put_word f k v) j ≡ (if j == k then v else get_word f j)
get_word-put_word f k v j h = elim (ℕ_discrete j k) [
  | yes e ↦
      let at_k : get_word (put_word f k v) k ≡ v =
        omega (arith, put_word_0 f k v, put_word_1 f k v, put_word_2 f k v, put_word_3 f k v) in
      ap (get_word (put_word f k v)) e ∙ ground (arith, at_k, e)
  | no ne ↦
      let n = λ (t : ℕ) (l : t < 4). put_word_ne f k v (4 * j + t) (λ q. ne (omega arith)) in
      let same : get_word (put_word f k v) j ≡ get_word f j = omega (
        arith,
        put_word_ne f k v (4 * j) (λ q. ne (omega arith)),
        n 1 (omega arith),
        n 2 (omega arith),
        n 3 (omega arith),
      ) in
      ground (arith, same, ne)
]
