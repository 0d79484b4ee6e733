-- ===== src/Str/Move.antt =====
-- memmove and memcpy, also between overlapping regions.
use modificacion_sistema_ope.Base.{
  ℕ, zero, suc, ◌+◌, ◌-◌, ◌<◌, ◌≤◌, ◌≡◌, ◌⊎◌, arith, ◌∙◌, update, ltb, leb, ◌&&◌, if◌then◌else◌,
  Bool-cases, inl, inr,
}
use modificacion_sistema_ope.Str.Defs.{Mem, move_down, move_up, memmove}

-- The bytes that `m` holds from `src` up, on the `n` addresses from `dst` up.
abbrev pub moved : ℕ → ℕ → ℕ → Mem → Mem
moved dst src n m a = if leb dst a && ltb a (dst + n) then m (src + (a - dst)) else m a

at : (m : Mem) {a b : ℕ} → a ≡ b → m a ≡ m b
at m e i = m (e i)

move_down_lem : (d s n : ℕ) (m : Mem) (a : ℕ) → s < d → move_down d s n m a ≡ moved d s n m a
unfolding move_down
move_down_lem d s zero m a h = ground arith
move_down_lem d s (suc n) m a h =
    move_down_lem d s n (update m (d + n) (m (s + n))) a h ∙ ground arith

move_up_lem :
    (d s n : ℕ) (m : Mem) (a : ℕ) → (d ≤ s) ⊎ (s + n ≤ d) → move_up d s n m a ≡ moved d s n m a
unfolding move_up
move_up_lem d s zero m a h = ground arith
move_up_lem d s (suc n) m a h =
    move_up_lem (d + 1) (s + 1) n (update m d (m s)) a (omega arith) ∙ ground arith

-- memmove leaves at dst the n bytes that stood at src before, however the two regions overlap, and
-- changes no other address.
pub memmove_lem :
    (dst src n : ℕ) (m : Mem) (a : ℕ)
    → memmove dst src n m a ≡ (if leb dst a && ltb a (dst + n) then m (src + (a - dst)) else m a)
unfolding memmove
memmove_lem dst src n m a = elim (Bool-cases (ltb src dst && ltb dst (src + n))) [
  | inl over ↦ rw over (move_down_lem dst src n m a (ground arith))
  | inr clear ↦ rw clear (move_up_lem dst src n m a (ground arith))
]
