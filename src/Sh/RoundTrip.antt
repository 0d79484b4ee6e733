-- ===== src/Sh/RoundTrip.antt =====
-- The parse functions of xv6-public/sh.c read back the line that was printed.
use modificacion_sistema_ope.Base.{
  ℕ, zero, suc, ◌+◌, ◌*◌, ◌<◌, ◌≤◌, ◌≡◌, inl, refl, arith, ap, ap₂, ◌∙◌, false, [], ◌∷◌, ◌++◌,
  length,
}
use modificacion_sistema_ope.Sh.Defs.{
  Word, Cmd, exec, pipe, list, maxargs, ok, store_args, parse_back,
}
use modificacion_sistema_ope.Sh.Lexer.{Text, skip_space, starts, peek}
use modificacion_sistema_ope.Sh.Words.{skip_space_idem}
use modificacion_sistema_ope.Sh.Shape.{length-space}
use modificacion_sistema_ope.Sh.Print.{
  Redirs, Args, print_redirs, print_args, print_back, redirs_cmd, words, args_redirs, backs,
}
use modificacion_sistema_ope.Sh.Reading.{
  IsGap, Follows, after_simple, after_pipe, after_back, after_line, Follows-weaken, starts-Follows,
}
use modificacion_sistema_ope.Sh.Redirs.{
  text_of, map_cmd, texts, Reads, NamedRedirs, parseredirs_lem,
}
use modificacion_sistema_ope.Sh.Defs.{parseline, parsepipe, parseexec, finish, parse}
use modificacion_sistema_ope.Sh.Print.{
  Line, line, line_then, Pipeline, last, piped, Simple, command, block, print_line, print_pipe,
  print_simple, line_cmd, pipe_cmd, simple_cmd,
}
use modificacion_sistema_ope.Sh.Redirs.{parse_back_lem}
use modificacion_sistema_ope.Sh.Arguments.{
  NamedArgs, count_args, args-no_redirect, parse_args_lem, stop-no_redirect,
}
use modificacion_sistema_ope.Sh.Reading.{AllSpace, skip_all}
use modificacion_sistema_ope.Sh.Ends.{
  stored, pipe-simple, pipe-no_pipe, back-no_back, line-back, line-no_list, command-no_block,
  symbol, back-Follows, bar-Follows, semicolon-Follows, close-Follows, bar-Past, semicolon-Past,
  close-Past, open-Past,
}

-- The words are words, and a command has at most MAXARGS - 1 arguments.
unfoldable mutual
  pub NamedLine : Line → Type 0
  NamedLine (line p n) = NamedPipe p
  NamedLine (line_then p n l) = NamedPipe p × NamedLine l

  pub NamedPipe : Pipeline → Type 0
  NamedPipe (last x) = NamedSimple x
  NamedPipe (piped x p) = NamedSimple x × NamedPipe p

  pub NamedSimple : Simple → Type 0
  NamedSimple (command rs args) = NamedRedirs rs × NamedArgs args × (count_args args < maxargs)
  NamedSimple (block l rs) = NamedLine l × NamedRedirs rs

module _ (gap : Text → Text) (g : (s : Text) → IsGap (gap s)) where
  command_lem :
      (rs : Redirs) (args : Args) (fuel : ℕ) (s rest : Text)
      → NamedSimple (command rs args)
      → length s < fuel
      → skip_space s ≡ skip_space (print_redirs gap rs (print_args gap args rest))
      → Follows after_simple rest
      → Reads (parseexec (suc fuel) s) s rest (simple_cmd (command rs args))
  unfolding NamedLine
  command_lem rs args fuel s rest (nr, na, few) l e f =
      let middle = print_args gap args rest in
      let (ret, r, t, b) =
        parseredirs_lem gap g rs fuel (exec []) (skip_space s) middle nr
          (omega (arith, l, length-space s)) (skip_space_idem s ∙ e)
          (args-no_redirect gap g args rest na f) in
      let (cmd, r', t', b') =
        parse_args_lem gap g args fuel [] ret (skip_space middle) rest na (omega (arith, few))
          (omega (arith, l, length-space s, b)) (skip_space_idem middle) f in
      let no : starts (b'(' ∷ []) (skip_space s) ≡ false =
        ap (starts (b'(' ∷ [])) e ∙ command-no_block gap g rs args rest na f in
      (
        cmd,
        (unfold parseexec peek in ground (arith, no, r, r')),
        t'
            ∙ ap (λ c. store_args (words args) (args_redirs args c)) t
            ∙ stored rs args
            ∙ (unfold simple_cmd in refl),
        omega (arith, b, b', length-space s),
      )

  -- parsepipe and the '&'s after it.
  abbrev ReadsBacks : ℕ → Pipeline → ℕ → Text → Text → Type 0
  ReadsBacks fuel p n s rest =
      (first cmd : Cmd Word) × (s₁ : Text) × (parsepipe fuel s ≡ ok (first, s₁))
      × (parse_back fuel first s₁ ≡ ok (cmd, skip_space rest))
      × (texts cmd ≡ backs n (pipe_cmd p))
      × (length (skip_space rest) ≤ length s)

  backs_lem :
      (p : Pipeline) (n fuel : ℕ) (s rest : Text)
      → Reads (parsepipe fuel s) s (print_back gap n rest) (pipe_cmd p)
      → length s < fuel
      → Follows after_back rest
      → ReadsBacks fuel p n s rest
  backs_lem p n fuel s rest (first, r, t, b) l f =
      let middle = print_back gap n rest in
      let (cmd, r', t', b') =
        parse_back_lem gap g n fuel first (skip_space middle) rest (omega (arith, l, b))
          (skip_space_idem middle) (starts-Follows (b'&' ∷ []) after_back rest back-no_back f) in
      (first, cmd, skip_space middle, r, r', t' ∙ ap (backs n) t, omega (arith, b, b'))

  mutual
    unfolding NamedLine print_line line_cmd parseline peek

    simple_lem :
        (x : Simple) (fuel : ℕ) (s rest : Text)
        → NamedSimple x
        → 4 * length s + 1 < fuel
        → skip_space s ≡ skip_space (print_simple gap x rest)
        → Follows after_simple rest
        → Reads (parseexec fuel s) s rest (simple_cmd x)
    simple_lem x zero s rest n l e f = absurd (omega arith)
    simple_lem (command rs args) (suc fuel) s rest n l e f =
        command_lem rs args fuel s rest n (omega (arith, l)) e f
    simple_lem (block x rs) (suc zero) s rest n l e f = absurd (omega arith)
    simple_lem (block x rs) (suc (suc fuel)) s rest n l e f =
        let tail = print_redirs gap rs rest in
        let inner = print_line gap x (symbol gap g b')' tail) in
        let (opened, on, small) = open-Past gap g s inner e in
        let (cmd, r, t, b) =
          line_lem x fuel (skip_space inner) (symbol gap g b')' tail) n.0 (omega (arith, l, small))
            (skip_space_idem inner) (close-Follows gap g tail) in
        let (closed, past, less) = close-Past gap g tail in
        let (cmd₁, r₁, t₁, b₁) =
          parseredirs_lem gap g rs fuel cmd (skip_space tail) rest n.1
            (omega (arith, l, small, b, less)) (skip_space_idem tail)
            (starts-Follows (b'<' ∷ b'>' ∷ []) after_simple rest stop-no_redirect f) in
        (
          cmd₁,
          (ground (arith, skip_space_idem s, opened, on, r, closed, past, r₁)),
          t₁ ∙ ap (redirs_cmd rs) t,
          omega (arith, small, b, less, b₁),
        )

    pipe_lem :
        (p : Pipeline) (fuel : ℕ) (s rest : Text)
        → NamedPipe p
        → 4 * length s + 2 < fuel
        → skip_space s ≡ skip_space (print_pipe gap p rest)
        → Follows after_pipe rest
        → Reads (parsepipe fuel s) s rest (pipe_cmd p)
    pipe_lem p zero s rest n l e f = absurd (omega arith)
    pipe_lem (last x) (suc fuel) s rest n l e f =
        let (cmd, r, t, b) =
          simple_lem x fuel s rest n (omega (arith, l)) e
            (Follows-weaken after_pipe after_simple rest pipe-simple f) in
        let no = starts-Follows (b'|' ∷ []) after_pipe rest pipe-no_pipe f in
        (cmd, (ground (arith, r, no, skip_space_idem rest)), t, b)
    pipe_lem (piped x p) (suc fuel) s rest n l e f =
        let tail = print_pipe gap p rest in
        let next = symbol gap g b'|' tail in
        let (cmd, r, t, b) =
          simple_lem x fuel s next n.0 (omega (arith, l)) e (bar-Follows gap g tail) in
        let (found, on, small) = bar-Past gap g tail in
        let (right, r₂, t₂, b₂) =
          pipe_lem p fuel (skip_space tail) rest n.1 (omega (arith, l, b, small))
            (skip_space_idem tail) f in
        (
          pipe cmd right,
          (ground (arith, r, found, on, r₂)),
          ap₂ pipe t t₂,
          omega (arith, b, small, b₂),
        )

    line_lem :
        (x : Line) (fuel : ℕ) (s rest : Text)
        → NamedLine x
        → 4 * length s + 3 < fuel
        → skip_space s ≡ skip_space (print_line gap x rest)
        → Follows after_line rest
        → Reads (parseline fuel s) s rest (line_cmd x)
    line_lem x zero s rest n l e f = absurd (omega arith)
    line_lem (line p n) (suc fuel) s rest named l e f =
        let back = Follows-weaken after_line after_back rest line-back f in
        let (first, cmd, s₁, r, r', t, b) =
          backs_lem p n fuel s rest
            (pipe_lem p fuel s (print_back gap n rest) named (omega (arith, l)) e
              (back-Follows gap g n rest back))
            (omega (arith, l)) back in
        let no = starts-Follows (b';' ∷ []) after_line rest line-no_list f in
        (cmd, (ground (arith, r, r', no, skip_space_idem rest)), t, b)
    line_lem (line_then p n x) (suc fuel) s rest named l e f =
        let tail = print_line gap x rest in
        let next = symbol gap g b';' tail in
        let back = semicolon-Follows gap g tail in
        let (first, cmd, s₁, r, r', t, b) =
          backs_lem p n fuel s next
            (pipe_lem p fuel s (print_back gap n next) named.0 (omega (arith, l)) e
              (back-Follows gap g n next back))
            (omega (arith, l)) back in
        let (found, on, small) = semicolon-Past gap g tail in
        let (right, r₂, t₂, b₂) =
          line_lem x fuel (skip_space tail) rest named.1 (omega (arith, l, b, small))
            (skip_space_idem tail) f in
        (
          list cmd right,
          (ground (arith, r, r', found, on, r₂)),
          ap₂ list t t₂,
          omega (arith, b, small, b₂),
        )

finish-end : (cmd : Cmd Word) (s : Text) → s ≡ [] → finish cmd s ≡ ok cmd
unfolding finish
finish-end cmd s e = ground (arith, e)

-- parse on white space and a printed line, with any white space after each token, gives a command with the line's words.
pub parse-print :
    (lead : Text) (gap : Text → Text) (x : Line)
    → AllSpace lead
    → ((s : Text) → IsGap (gap s))
    → NamedLine x
    → (cmd : Cmd Word) × (parse (lead ++ print_line gap x []) ≡ ok cmd)
      × (map_cmd text_of cmd ≡ line_cmd x)
parse-print lead gap x spaces g named =
    let text = lead ++ print_line gap x [] in
    let nothing : skip_space [] ≡ [] = unfold skip_space in refl in
    let (cmd, r, t, b) =
      line_lem gap g x (4 * length text + 4) text [] named (omega arith)
        (skip_all lead (print_line gap x []) spaces) (inl nothing) in
    (cmd, (unfold parse peek in ground (arith, r, nothing, finish-end cmd [] refl)), t)
