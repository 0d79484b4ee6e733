-- ===== src/Sh/Lexer.antt =====
-- The tokens of xv6-public/sh.c: gettoken and peek. A pointer into the line is the text from it up
-- to `es`, and where it is `es` the byte read is the NUL.
use modificacion_sistema_ope.Base.{
  ℕ, Bool, true, false, not, ◌&&◌, List, [], ◌∷◌, ◌==◌, if◌then◌else◌,
}

abbrev pub Text : Type 0
Text = List ℕ

abbrev pub whitespace : Text
whitespace = b' ' ∷ 9 ∷ 13 ∷ 10 ∷ 11 ∷ []

abbrev pub symbols : Text
symbols = b'<' ∷ b'|' ∷ b'>' ∷ b'&' ∷ b';' ∷ b'(' ∷ b')' ∷ []

-- Whether strchr of ulib.c finds `c` in the string `s`.
unfoldable pub strchr : Text → ℕ → Bool
strchr [] c = false
strchr (d ∷ s) c = let rest : Bool = strchr s c in if d == c then true else rest

-- while(s < es && strchr(whitespace, *s)) s++
unfoldable pub skip_space : Text → Text
skip_space [] = []
skip_space (c ∷ s) = let rest : Text = skip_space s in if strchr whitespace c then rest else c ∷ s

-- while(s < es && !strchr(whitespace, *s) && !strchr(symbols, *s)) s++
unfoldable pub skip_word : Text → Text
skip_word [] = []
skip_word (c ∷ s) =
    let rest : Text = skip_word s in
    if not (strchr whitespace c) && not (strchr symbols c) then rest else c ∷ s

-- What gettoken returns, and what it stores in *q, *eq and *ps.
pub record Token : Type 0 where
  pub ret : ℕ
  pub q : Text
  pub eq : Text
  pub rest : Text

-- `case '>'`, from the byte after it
unfoldable pub lex_redir : Text → ℕ × Text
lex_redir [] = (b'>', [])
lex_redir (c ∷ s) = if c == b'>' then (b'+', s) else (b'>', c ∷ s)

-- gettoken's switch: what it returns, and where the token ends.
unfoldable pub lex : Text → ℕ × Text
lex [] = (0, [])
lex (c ∷ s) =
    if c == 0
    then (0, c ∷ s)
    else (if strchr (b'|' ∷ b'(' ∷ b')' ∷ b';' ∷ b'&' ∷ b'<' ∷ []) c
        then (c, s)
        else (if c == b'>' then lex_redir s else (b'a', skip_word (c ∷ s))))

unfoldable pub gettoken : Text → Token
gettoken ps =
    let s : Text = skip_space ps in
    record { ret = (lex s).0; q = s; eq = (lex s).1; rest = skip_space (lex s).1 }

-- *s && strchr(toks, *s)
unfoldable pub starts : Text → Text → Bool
starts toks [] = false
starts toks (c ∷ s) = not (c == 0) && strchr toks c

-- peek's answer, and the new *ps.
unfoldable pub peek : Text → Text → Bool × Text
peek ps toks = (starts toks (skip_space ps), skip_space ps)
