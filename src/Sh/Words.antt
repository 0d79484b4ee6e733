-- ===== src/Sh/Words.antt =====
-- The words and the white space of a line, as gettoken of xv6-public/sh.c sees them.
use modificacion_sistema_ope.Base.{
  ℕ, ◌≤◌, ◌≡◌, ◌≢◌, inl, inr, refl, arith, sym, ap, ◌∙◌, Bool, true, false, not, ◌&&◌, [], ◌∷◌,
  ◌++◌, if◌then◌else◌, length, length-append, append_assoc, Bool-cases,
}
use modificacion_sistema_ope.Sh.Defs.{Word}
use modificacion_sistema_ope.Sh.Lexer.{Text, whitespace, symbols, strchr, skip_space, skip_word}

-- A byte that goes on with a word.
abbrev pub plain : ℕ → Bool
plain c = not (strchr whitespace c) && not (strchr symbols c)

abbrev pub AllPlain : Text → Type 0
AllPlain [] = Unit
AllPlain (c ∷ s) = (plain c ≡ true) × AllPlain s

-- Here a word ends.
abbrev pub Ends : Text → Type 0
Ends [] = Unit
Ends (c ∷ s) = plain c ≡ false

abbrev pub Suffix : Text → Text → Type 0
Suffix r s = (u : Text) × (s ≡ u ++ r)

-- A nonempty stretch of plain bytes from `start` to `end`, with no plain byte after it.
pub record IsWord (line : Text) (w : Word) : Type 0 where
  pub within : Suffix w.start line
  pub bytes : Text
  pub between : w.start ≡ bytes ++ w.end
  pub plain_bytes : AllPlain bytes
  pub nonempty : bytes ≢ []
  pub ends : Ends w.end

pub Suffix-trans : (r s t : Text) → Suffix r s → Suffix s t → Suffix r t
Suffix-trans r s t (u, p) (v, q) = (v ++ u, q ∙ ap (λ x. v ++ x) p ∙ sym (append_assoc v u r))

pub Suffix-length : (r s : Text) → Suffix r s → length r ≤ length s
Suffix-length r s (u, p) = omega (arith, ap length p, length-append u r)

pub skip_space-Suffix : (s : Text) → Suffix (skip_space s) s
unfolding skip_space
skip_space-Suffix [] = ([], refl)
skip_space-Suffix (c ∷ s) = elim (Bool-cases (strchr whitespace c)) [
  | inl h ↦ let (u, p) = skip_space-Suffix s in (c ∷ u, ground (arith, h, p))
  | inr h ↦ ([], ground (arith, h))
]

pub skip_space_idem : (s : Text) → skip_space (skip_space s) ≡ skip_space s
unfolding skip_space
skip_space_idem [] = refl
skip_space_idem (c ∷ s) = elim (Bool-cases (strchr whitespace c)) [
  | inl h ↦ ground (arith, h, skip_space_idem s)
  | inr h ↦ ground (arith, h)
]

-- A word from `s` on, and what follows it.
abbrev pub Splits : Text → Text → Type 0
Splits s r = (w : Text) × (s ≡ w ++ r) × AllPlain w × Ends r

skip_word_step :
    (c : ℕ) (s r : Text) (b : Bool)
    → plain c ≡ b
    → Splits s r
    → Splits (c ∷ s) (if b then r else c ∷ s)
skip_word_step c s r true h (w, p, a, e) = (c ∷ w, ap (λ l. c ∷ l) p, (h, a), e)
skip_word_step c s r false h k = ([], refl, tt, h)

pub skip_word_lem : (s : Text) → Splits s (skip_word s)
unfolding skip_word
skip_word_lem [] = ([], refl, tt, tt)
skip_word_lem (c ∷ s) = skip_word_step c s (skip_word s) (plain c) refl (skip_word_lem s)
