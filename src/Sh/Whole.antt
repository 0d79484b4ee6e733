-- ===== src/Sh/Whole.antt =====
-- parsecmd of xv6-public/sh.c on a printed line in memory.
use modificacion_sistema_ope.Base.{ℕ, ◌+◌, ◌-◌, ◌≡◌, sym, ap, ◌∙◌, subst, [], ◌++◌, length}
use modificacion_sistema_ope.Str.{Mem}
use modificacion_sistema_ope.Sh.Lexer.{Text}
use modificacion_sistema_ope.Sh.Defs.{Word, Cmd, ok, bind, nulterminate, parsecmd}
use modificacion_sistema_ope.Sh.Shape.{Keeps}
use modificacion_sistema_ope.Sh.Nul.{Keeps-map}
use modificacion_sistema_ope.Sh.Strings.{IsString, Terminated, parsecmd-Terminated}
use modificacion_sistema_ope.Sh.Print.{Line, print_line, line_cmd}
use modificacion_sistema_ope.Sh.Reading.{AllSpace, IsGap}
use modificacion_sistema_ope.Sh.Redirs.{text_of, map_cmd, text_of-append}
use modificacion_sistema_ope.Sh.RoundTrip.{NamedLine, parse-print}

-- The word is a string of its bytes, where the line ends at `es`.
abbrev pub Readable : ℕ → Mem → Word → Type 0
Readable es m w = IsString m (es - length w.start) (text_of w)

Terminated-Readable :
    (line : Text) (es : ℕ) (m : Mem) (w : Word) → Terminated line es m w → Readable es m w
Terminated-Readable line es m w t =
    let same : text_of w ≡ t.bytes =
      ap (λ (s : Text). text_of (record { start = s; end = w.end })) t.between
      ∙ text_of-append t.bytes w.end in
    subst (IsString m (es - length w.start)) (sym same) t.string

-- Where white space and a printed line, whose words are names, whose commands have fewer than
-- MAXARGS arguments, and in which white space, chosen for each token, that is not empty follows the
-- token, stand in memory as a string, parsecmd returns a command
-- whose words, read from memory as strings, make it the command that the line stands for.
pub parsecmd-print :
    (s : ℕ) (lead : Text) (gap : Text → Text) (x : Line) (m : Mem)
    → AllSpace lead
    → ((r : Text) → IsGap (gap r))
    → NamedLine x
    → IsString m s (lead ++ print_line gap x [])
    → (cmd : Cmd Word) × (m' : Mem) × (parsecmd s (lead ++ print_line gap x []) m ≡ ok (cmd, m'))
      × (map_cmd text_of cmd ≡ line_cmd x)
      × Keeps (Readable (s + length (lead ++ print_line gap x [])) m') cmd
parsecmd-print s lead gap x m spaces g named there =
    let line = lead ++ print_line gap x [] in
    let es = s + length line in
    let (cmd, parsed, words) = parse-print lead gap x spaces g named in
    let m' : Mem = nulterminate es cmd m in
    let run : parsecmd s line m ≡ ok (cmd, m') =
      unfold parsecmd in
      ap (λ p. bind {B = Cmd Word × Mem} p λ c. ok (c, nulterminate es c m)) parsed in
    let (kept, other) = parsecmd-Terminated s line m m' cmd there run in
    (
      cmd,
      m',
      run,
      words,
      Keeps-map (Terminated line es m') _ (Terminated-Readable line es m') cmd kept,
    )
