-- ===== src/Sh/Reading.antt =====
-- gettoken and peek of xv6-public/sh.c on printed text.
use modificacion_sistema_ope.Base.{
  ℕ, ◌≡◌, ◌≢◌, ◌⊎◌, inl, inr, refl, arith, true, false, [], ◌∷◌, ◌++◌, ◌==◌,
}
use modificacion_sistema_ope.Sh.Lexer.{
  Text, whitespace, symbols, strchr, skip_space, skip_word, lex_redir, lex, gettoken, starts,
}
use modificacion_sistema_ope.Sh.Words.{plain, AllPlain}
use modificacion_sistema_ope.Sh.Print.{Operator, input, output, append, operator_text}

-- White space, and some of it.
abbrev pub AllSpace : Text → Type 0
AllSpace [] = Unit
AllSpace (c ∷ s) = (strchr whitespace c ≡ true) × AllSpace s

abbrev pub IsGap : Text → Type 0
IsGap [] = ⊥
IsGap (c ∷ s) = (strchr whitespace c ≡ true) × AllSpace s

-- A word of plain bytes that is not empty and does not start with NUL.
abbrev pub IsName : Text → Type 0
IsName [] = ⊥
IsName (c ∷ w) = (c ≢ 0) × (plain c ≡ true) × AllPlain w

-- The text ends here, or goes on with one of the symbols `l`.
abbrev pub Follows : Text → Text → Type 0
Follows l s =
    (skip_space s ≡ []) ⊎ ((c : ℕ) × (r : Text) × (skip_space s ≡ c ∷ r) × (strchr l c ≡ true))

pub skip_all : (gap s : Text) → AllSpace gap → skip_space (gap ++ s) ≡ skip_space s
unfolding skip_space
skip_all [] s g = refl
skip_all (c ∷ gap) s (h, g) = ground (arith, h, skip_all gap s g)

pub skip_gap : (gap s : Text) → IsGap gap → skip_space (gap ++ s) ≡ skip_space s
skip_gap [] s g = absurd g
skip_gap (c ∷ gap) s g = skip_all (c ∷ gap) s g

-- What plain bytes are not.
plain-not_space : (c : ℕ) → plain c ≡ true → strchr whitespace c ≡ false
plain-not_space c h = ground (arith, h)

plain-not_symbol : (c : ℕ) → plain c ≡ true → strchr symbols c ≡ false
plain-not_symbol c h = ground (arith, h)

pub skip_space-name : (w s : Text) → IsName w → skip_space (w ++ s) ≡ w ++ s
unfolding skip_space
skip_space-name [] s n = absurd n
skip_space-name (c ∷ w) s (n, p, a) = ground (arith, plain-not_space c p)

skip_word-stop : (gap s : Text) → IsGap gap → skip_word (gap ++ s) ≡ gap ++ s
unfolding skip_word
skip_word-stop [] s g = absurd g
skip_word-stop (c ∷ gap) s (h, g) = ground (arith, h)

skip_word-plain : (w gap s : Text) → AllPlain w → IsGap gap → skip_word (w ++ (gap ++ s)) ≡ gap ++ s
unfolding skip_word
skip_word-plain [] gap s a g = skip_word-stop gap s g
skip_word-plain (c ∷ w) gap s (h, a) g = ground (arith, h, skip_word-plain w gap s a g)

abbrev single : Text
single = b'|' ∷ b'(' ∷ b')' ∷ b';' ∷ b'&' ∷ b'<' ∷ []

not_single : (c : ℕ) → strchr symbols c ≡ false → (strchr single c ≡ false) × ((c == b'>') ≡ false)
unfolding strchr
not_single c h = (ground (arith, h), ground (arith, h))

lex-name : (w gap s : Text) → IsName w → IsGap gap → lex (w ++ (gap ++ s)) ≡ (b'a', gap ++ s)
unfolding lex
lex-name [] gap s n g = absurd n
lex-name (c ∷ w) gap s (n, p, a) g =
    let rest = skip_word-plain (c ∷ w) gap s (p, a) g in
    let (none_single, no_redir) = not_single c (plain-not_symbol c p) in
    ground (arith, n, none_single, no_redir, rest)

module _ (gap : Text) (g : IsGap gap) where
  -- gettoken on a word.
  pub gettoken-name :
      (s w rest : Text)
      → IsName w
      → skip_space s ≡ w ++ (gap ++ rest)
      → gettoken s
        ≡ record { ret = b'a'; q = w ++ (gap ++ rest); eq = gap ++ rest; rest = skip_space rest }
  unfolding gettoken
  gettoken-name s w rest n e = cc (e, lex-name w gap rest n g, skip_gap gap rest g)

  -- gettoken on a symbol of one byte.
  pub gettoken-single :
      (s : Text) (c : ℕ) (rest : Text)
      → (strchr single c ≡ true) × (c ≢ 0)
      → skip_space s ≡ c ∷ (gap ++ rest)
      → gettoken s
        ≡ record { ret = c; q = c ∷ (gap ++ rest); eq = gap ++ rest; rest = skip_space rest }
  unfolding gettoken
  gettoken-single s c rest (h, n) e =
      let found : lex (c ∷ (gap ++ rest)) ≡ (c, gap ++ rest) = unfold lex in ground (arith, h, n) in
      cc (e, found, skip_gap gap rest g)

lex_redir-gap : (gap s : Text) → IsGap gap → lex_redir (gap ++ s) ≡ (b'>', gap ++ s)
unfolding lex_redir strchr
lex_redir-gap [] s g = absurd g
lex_redir-gap (c ∷ gap) s (h, g) = ground (arith, h)

-- What gettoken returns on an operator.
abbrev pub code : Operator → ℕ
code input = b'<'
code output = b'>'
code append = b'+'

lex-operator :
    (op : Operator) (gap s : Text)
    → IsGap gap
    → lex (operator_text op ++ (gap ++ s)) ≡ (code op, gap ++ s)
unfolding lex strchr
lex-operator input gap s g = refl
lex-operator output gap s g = lex_redir-gap gap s g
lex-operator append gap s g = unfold lex_redir in refl

pub gettoken-operator :
    (op : Operator) (gap s rest : Text)
    → IsGap gap
    → skip_space s ≡ operator_text op ++ (gap ++ rest)
    → ((gettoken s).ret ≡ code op) × ((gettoken s).rest ≡ skip_space rest)
unfolding gettoken
gettoken-operator op gap s rest g e =
    let found = lex-operator op gap rest g in (cc (e, found), cc (e, found, skip_gap gap rest g))

pub skip_space-operator :
    (op : Operator) (s : Text) → skip_space (operator_text op ++ s) ≡ operator_text op ++ s
unfolding skip_space strchr
skip_space-operator input s = refl
skip_space-operator output s = refl
skip_space-operator append s = refl

pub starts-operator :
    (op : Operator) (s : Text) → starts (b'<' ∷ b'>' ∷ []) (operator_text op ++ s) ≡ true
unfolding starts strchr
starts-operator input s = refl
starts-operator output s = refl
starts-operator append s = refl

-- What may follow a command, a pipeline, its '&'s, and a line.
abbrev pub after_simple : Text
after_simple = b'|' ∷ b')' ∷ b'&' ∷ b';' ∷ []

abbrev pub after_pipe : Text
after_pipe = b')' ∷ b'&' ∷ b';' ∷ []

abbrev pub after_back : Text
after_back = b')' ∷ b';' ∷ []

abbrev pub after_line : Text
after_line = b')' ∷ []

-- A word starts with none of the symbols.
pub starts-name :
    (toks w s : Text)
    → IsName w
    → ((c : ℕ) → plain c ≡ true → strchr toks c ≡ false)
    → starts toks (w ++ s) ≡ false
unfolding starts
starts-name toks [] s n f = absurd n
starts-name toks (c ∷ w) s (n, p, a) f = ground (arith, f c p)

pub plain-no_redirect : (c : ℕ) → plain c ≡ true → strchr (b'<' ∷ b'>' ∷ []) c ≡ false
unfolding strchr
plain-no_redirect c h = ground (arith, h)

pub plain-no_stop : (c : ℕ) → plain c ≡ true → strchr after_simple c ≡ false
unfolding strchr
plain-no_stop c h = ground (arith, h)

pub plain-no_block : (c : ℕ) → plain c ≡ true → strchr (b'(' ∷ []) c ≡ false
unfolding strchr
plain-no_block c h = ground (arith, h)

pub Follows-weaken :
    (l k s : Text) → ((c : ℕ) → strchr l c ≡ true → strchr k c ≡ true) → Follows l s → Follows k s
Follows-weaken l k s f (inl e) = inl e
Follows-weaken l k s f (inr (c, r, e, h)) = inr (c, r, e, f c h)

pub starts-Follows :
    (toks l s : Text)
    → ((c : ℕ) → strchr l c ≡ true → strchr toks c ≡ false)
    → Follows l s
    → starts toks (skip_space s) ≡ false
starts-Follows toks l s f (inl e) = unfold starts in ground (arith, e)
starts-Follows toks l s f (inr (c, r, e, h)) = unfold starts in ground (arith, e, f c h)

-- The arguments of a command stop here.
pub starts-stop :
    (s : Text)
    → Follows after_simple s
    → (starts after_simple (skip_space s) ≡ true) ⊎ (skip_space s ≡ [])
unfolding starts strchr
starts-stop s (inl e) = inr e
starts-stop s (inr (c, r, e, h)) = inl (ground (arith, e, h))
