-- ===== src/Sh/Tokens.antt =====
-- What gettoken and peek of xv6-public/sh.c find, and that they move forward.
use modificacion_sistema_ope.Base.{
  ℕ, ◌<◌, ◌≡◌, ◌≢◌, ◌⊎◌, inl, inr, refl, arith, sym, ap, ◌∙◌, subst, true, false, ◌==◌, [], ◌∷◌,
  ◌++◌, length, length-append, Bool-cases,
}
use modificacion_sistema_ope.Sh.Lexer.{
  Text, whitespace, strchr, skip_space, skip_word, lex_redir, lex, gettoken, starts,
}
use modificacion_sistema_ope.Sh.Words.{
  plain, Suffix, IsWord, Suffix-trans, Suffix-length, skip_space-Suffix, skip_space_idem, Splits,
  skip_word_lem,
}

-- The symbols that are tokens whatever follows.
abbrev single : Text
single = b'|' ∷ b'(' ∷ b')' ∷ b';' ∷ b'&' ∷ b'<' ∷ []

single-not_letter : (c : ℕ) → strchr single c ≡ true → (c ≢ b'a') × (c ≢ 0)
unfolding strchr
single-not_letter c h = ground (arith, h)

plain_rest :
    (c : ℕ)
    → strchr whitespace c ≡ false
    → strchr single c ≡ false
    → (c == b'>') ≡ false
    → plain c ≡ true
unfolding strchr
plain_rest c h g n = ground (arith, h, g, n)

-- The cases of gettoken's switch on a byte that is no white space.
lex-cases :
    (c : ℕ) (s : Text)
    → strchr whitespace c ≡ false
    → ((c ≡ 0) × (lex (c ∷ s) ≡ (0, c ∷ s)))
      ⊎ (((c ≢ b'a') × (c ≢ 0)) × (lex (c ∷ s) ≡ (c, s)))
      ⊎ (lex (c ∷ s) ≡ lex_redir s)
      ⊎ ((plain c ≡ true) × (lex (c ∷ s) ≡ (b'a', skip_word (c ∷ s))))
unfolding lex
lex-cases c s h = elim (Bool-cases (c == 0)) [
  | inl z ↦ inl (ground (arith, z), ground (arith, z))
  | inr z ↦ elim (Bool-cases (strchr single c)) [
    | inl g ↦ inr (inl (single-not_letter c g, ground (arith, z, g)))
    | inr g ↦ elim (Bool-cases (c == b'>')) [
      | inl r ↦ inr (inr (inl (ground (arith, z, g, r))))
      | inr r ↦ inr (inr (inr (plain_rest c h g r, ground (arith, z, g, r))))
    ]
  ]
]

-- What gettoken's switch promises on the text `s`.
record Lexed (s : Text) (found : ℕ × Text) : Type 0 where
  after : Suffix found.1 s
  forward : found.0 ≢ 0 → length found.1 < length s
  word : found.0 ≡ b'a' → Splits s found.1
  stuck : found.0 ≡ 0 → (c : ℕ) → (r : Text) → s ≡ c ∷ r → c ≡ 0

symbol-Lexed : (ret c : ℕ) (u e : Text) → (ret ≢ b'a') × (ret ≢ 0) → Lexed (c ∷ u ++ e) (ret, e)
symbol-Lexed ret c u e (n, z) = record {
  after = (c ∷ u, refl);
  forward = λ _. omega (arith, length-append u e);
  word = λ a. absurd (n a);
  stuck = λ a. absurd (z a);
}

lex_redir-Lexed : (c : ℕ) (s : Text) → Lexed (c ∷ s) (lex_redir s)
unfolding lex_redir
lex_redir-Lexed c [] = symbol-Lexed b'>' c [] [] (omega arith, omega arith)
lex_redir-Lexed c (d ∷ s) = elim (Bool-cases (d == b'>')) [
  | inl h ↦
      subst (Lexed (c ∷ d ∷ s)) (ground (arith, h))
        (symbol-Lexed b'+' c (d ∷ []) s (omega arith, omega arith))
  | inr h ↦
      subst (Lexed (c ∷ d ∷ s)) (ground (arith, h))
        (symbol-Lexed b'>' c [] (d ∷ s) (omega arith, omega arith))
]

word-Lexed : (c : ℕ) (s : Text) → plain c ≡ true → Lexed (c ∷ s) (b'a', skip_word (c ∷ s))
word-Lexed c s h =
    let (w, p, a, e) = skip_word_lem s in
    let q : skip_word (c ∷ s) ≡ skip_word s = unfold skip_word in ground (arith, h) in
    subst (λ r. Lexed (c ∷ s) (b'a', r)) (sym q)
      (record {
        after = (c ∷ w, ap (λ l. c ∷ l) p);
        forward = λ _. omega (arith, ap length p, length-append w (skip_word s));
        word = λ _. (c ∷ w, ap (λ l. c ∷ l) p, (h, a), e);
        stuck = λ z. absurd (omega (arith, z));
      })

nul-Lexed : (c : ℕ) (s : Text) → c ≡ 0 → Lexed (c ∷ s) (0, c ∷ s)
nul-Lexed c s z = record {
  after = ([], refl);
  forward = λ n. absurd (n refl);
  word = λ a. absurd (omega (arith, a));
  stuck = λ _ d r e. ground (arith, z, e);
}

lex-Lexed : (c : ℕ) (s : Text) → strchr whitespace c ≡ false → Lexed (c ∷ s) (lex (c ∷ s))
lex-Lexed c s h = elim (lex-cases c s h) [
  | inl (z, e) ↦ subst (Lexed (c ∷ s)) (sym e) (nul-Lexed c s z)
  | inr (inl (n, e)) ↦ subst (Lexed (c ∷ s)) (sym e) (symbol-Lexed c c [] s n)
  | inr (inr (inl e)) ↦ subst (Lexed (c ∷ s)) (sym e) (lex_redir-Lexed c s)
  | inr (inr (inr (n, e))) ↦ subst (Lexed (c ∷ s)) (sym e) (word-Lexed c s n)
]

skip_space_head : (s : Text) (c : ℕ) (r : Text) → skip_space s ≡ c ∷ r → strchr whitespace c ≡ false
unfolding skip_space
skip_space_head [] c r e = cc
skip_space_head (d ∷ s) c r e = elim (Bool-cases (strchr whitespace d)) [
  | inl h ↦ skip_space_head s c r (ground (arith, h, e))
  | inr h ↦ ground (arith, h, e)
]

lex_nil-Lexed : Lexed [] (lex [])
unfolding lex
lex_nil-Lexed = record {
  after = ([], refl);
  forward = λ n. absurd (n refl);
  word = λ a. absurd (omega (arith, a));
  stuck = λ _ c r e. cc;
}

skipped-Lexed : (s : Text) → Lexed (skip_space s) (lex (skip_space s))
skipped-Lexed s = by_head (skip_space s) (skip_space_head s)
  where
    by_head :
        (t : Text)
        → ((c : ℕ) → (r : Text) → t ≡ c ∷ r → strchr whitespace c ≡ false)
        → Lexed t (lex t)
    by_head [] h = lex_nil-Lexed
    by_head (c ∷ r) h = lex-Lexed c r (h c r refl)

-- gettoken moves forward unless it is at the NUL, and 'a' is a word.
pub gettoken-rest : (s : Text) → Suffix (gettoken s).rest s
unfolding gettoken
gettoken-rest s =
    let l = skipped-Lexed s in
    let e = (lex (skip_space s)).1 in
    Suffix-trans (skip_space e) e s (skip_space-Suffix e)
      (Suffix-trans e (skip_space s) s l.after (skip_space-Suffix s))

pub gettoken-forward : (s : Text) → (gettoken s).ret ≢ 0 → length (gettoken s).rest < length s
unfolding gettoken
gettoken-forward s n =
    let l = skipped-Lexed s in
    let e = (lex (skip_space s)).1 in
    omega (
      arith,
      l.forward n,
      Suffix-length (skip_space e) e (skip_space-Suffix e),
      Suffix-length (skip_space s) s (skip_space-Suffix s),
    )

pub gettoken-IsWord :
    (s : Text)
    → (gettoken s).ret ≡ b'a'
    → IsWord s (record { start = (gettoken s).q; end = (gettoken s).eq })
unfolding gettoken
gettoken-IsWord s a =
    let l = skipped-Lexed s in
    let (w, p, plain_w, e) = l.word a in
    record {
      within = skip_space-Suffix s;
      bytes = w;
      between = p;
      plain_bytes = plain_w;
      nonempty = λ z. absurd (
          omega (
            arith,
            l.forward (omega (arith, a)),
            ap length (p ∙ ap (λ u. u ++ (lex (skip_space s)).1) z),
          ));
      ends = e;
    }

starts_head : (toks t : Text) → starts toks t ≡ true → (c : ℕ) × (r : Text) × (t ≡ c ∷ r) × (c ≢ 0)
unfolding starts
starts_head toks [] h = absurd (cc)
starts_head toks (c ∷ r) h = (c, r, refl, λ z. absurd (ground (arith, z, h)))

-- Where peek says yes, gettoken moves forward.
pub gettoken-peeked :
    (toks s : Text)
    → starts toks (skip_space s) ≡ true
    → length (gettoken (skip_space s)).rest < length (skip_space s)
gettoken-peeked toks s h = gettoken-forward (skip_space s) λ z.
    let (c, r, e, n) = starts_head toks (skip_space s) h in
    let same = skip_space_idem s in
    n ((skipped-Lexed (skip_space s)).stuck (unfold gettoken in z) c r (same ∙ e))
