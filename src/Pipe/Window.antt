-- ===== src/Pipe/Window.antt =====
-- The bytes that a pipe holds, oldest first.
use modificacion_sistema_ope.Base.{
  ℕ, zero, suc, ◌+◌, ◌-◌, ◌%◌, ◌^◌, ◌<◌, ◌≤◌, ◌≡◌, refl, ap, ap₂, ◌∙◌, arith, List, [], ◌∷◌, ◌++◌,
  length, update, true, false, ◌↔◌,
}
use modificacion_sistema_ope.Pipe.Defs.{Pipe, pipe_size, is_full, is_empty, put, front, advance}

-- `k` bytes from index `s` on, round the array.
abbrev pub window : (ℕ → ℕ) → ℕ → ℕ → List ℕ
window buf s zero = []
window buf s (suc k) = buf (s % pipe_size) ∷ window buf (s + 1) k

-- nwrite - nread, as the two counters wrap
abbrev pub used : Pipe → ℕ
used p = (p.nwrite + 2 ^ 32 - p.nread) % 2 ^ 32

unfoldable pub contents : Pipe → List ℕ
contents p = window p.buf p.nread (used p)

pub record IsValid (p : Pipe) : Type 0 where
  pub nread_uint : p.nread < 2 ^ 32
  pub nwrite_uint : p.nwrite < 2 ^ 32
  pub fits : used p ≤ pipe_size

length-window : (buf : ℕ → ℕ) (s k : ℕ) → length (window buf s k) ≡ k
length-window buf s zero = refl
length-window buf s (suc k) = ap suc (length-window buf (s + 1) k)

pub length-contents : (p : Pipe) → length (contents p) ≡ used p
unfolding contents
length-contents p = length-window p.buf p.nread (used p)

-- A window depends on its start modulo the size of the array.
window-congruent : (buf : ℕ → ℕ) (s t k : ℕ) → s % 512 ≡ t % 512 → window buf s k ≡ window buf t k
window-congruent buf s t zero e = refl
window-congruent buf s t (suc k) e =
    ap₂ ◌∷◌ (ap buf e) (window-congruent buf (s + 1) (t + 1) k (omega arith))

-- A write past a window that does not fill the array leaves it alone.
window-update :
    (buf : ℕ → ℕ) (s k j c i : ℕ)
    → k + j < 512
    → i ≡ (s + k + j) % 512
    → window (update buf i c) s k ≡ window buf s k
window-update buf s zero j c i h e = refl
window-update buf s (suc k) j c i h e =
    ap₂ ◌∷◌ (ground arith) (window-update buf (s + 1) k j c i (omega arith) (omega arith))

window-snoc :
    (buf : ℕ → ℕ) (s k : ℕ) → window buf s (suc k) ≡ window buf s k ++ (buf ((s + k) % 512) ∷ [])
window-snoc buf s zero = ap (λ (t : ℕ). buf (t % 512) ∷ []) (omega arith)
window-snoc buf s (suc k) =
    ap (λ w. buf (s % 512) ∷ w)
      (window-snoc buf (s + 1) k
        ∙ ap (λ (t : ℕ). window buf (s + 1) k ++ (buf (t % 512) ∷ [])) (omega arith))

module _ (p : Pipe) (v : IsValid p) where
  pub is_full-used : (is_full p ≡ true) ↔ (used p ≡ pipe_size)
  unfolding is_full
  is_full-used = ground arith

  pub not_full : used p < pipe_size → is_full p ≡ false
  unfolding is_full
  not_full h = ground arith

  pub not_empty : 0 < used p → is_empty p ≡ false
  unfolding is_empty
  not_empty h = ground arith

  pub is_empty-used : (is_empty p ≡ true) ↔ (used p ≡ 0)
  unfolding is_empty
  is_empty-used = ground arith

  pub used-put : (c : ℕ) → used p < pipe_size → used (put c p) ≡ suc (used p)
  used-put c h = omega arith

  pub put-IsValid : (c : ℕ) → used p < pipe_size → IsValid (put c p)
  put-IsValid c h = omega arith

  pub contents-put : (c : ℕ) → used p < pipe_size → contents (put c p) ≡ contents p ++ (c ∷ [])
  unfolding contents
  contents-put c h =
      ap (window (put c p).buf p.nread) (used-put c h)
      ∙ window-snoc (put c p).buf p.nread (used p)
      ∙ ap₂ (λ w (x : ℕ). w ++ (x ∷ []))
          (window-update p.buf p.nread (used p) 0 c (p.nwrite % 512) (omega arith) (omega arith))
          (ground arith)

  pub used-advance : 0 < used p → used p ≡ suc (used (advance p))
  used-advance h = omega arith

  pub advance-IsValid : 0 < used p → IsValid (advance p)
  advance-IsValid h = omega arith

  pub contents-advance : 0 < used p → contents p ≡ front p ∷ contents (advance p)
  unfolding contents
  contents-advance h =
      ap (window p.buf p.nread) (used-advance h)
      ∙ ap (λ w. front p ∷ w)
          (window-congruent p.buf (p.nread + 1) (advance p).nread (used (advance p)) (omega arith))
