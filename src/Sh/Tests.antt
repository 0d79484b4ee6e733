-- ===== src/Sh/Tests.antt =====
-- Runs of the shell's parser.
use modificacion_sistema_ope.Base.{
  ℕ, ◌+◌, ◌-◌, ◌<◌, ◌≡◌, ◌≢◌, ◌⊎◌, refl, ap, sym, subst, length, arith, [], ◌∷◌, ◌++◌, get_or,
}
use modificacion_sistema_ope.Str.{Mem}
use modificacion_sistema_ope.Sh.Defs.{
  Word, Cmd, exec, redir, o_wronly_create, missing_file, leftovers, ok, panic, out_of_fuel, bind,
  redirect, parseredirs, store_args, parse_args, parse_back, parseline, finish, parse, nulterminate,
  parsecmd,
}
use modificacion_sistema_ope.Sh.Lexer.{
  Text, strchr, skip_space, skip_word, lex_redir, lex, gettoken, starts, peek,
}
use modificacion_sistema_ope.Sh.Shape.{Keeps}
use modificacion_sistema_ope.Sh.Fuel.{parse-terminates}
use modificacion_sistema_ope.Sh.Strings.{IsString, Terminated, parsecmd-Terminated}
use modificacion_sistema_ope.Sh.Print.{
  output, append, no_redirs, redirect_to, no_args, arg, Line, line, line_then, last, piped, command,
  block, print_line, line_cmd, print_back, print_redirs, print_args,
}
use modificacion_sistema_ope.Sh.Redirs.{map_cmd, text_of}
use modificacion_sistema_ope.Sh.RoundTrip.{NamedLine}
use modificacion_sistema_ope.Sh.Reading.{IsGap}
use modificacion_sistema_ope.Sh.Whole.{Readable, parsecmd-print}

-- a>b
abbrev to_file : Text
to_file = b'a' ∷ b'>' ∷ b'b' ∷ []

abbrev to_file_cmd : Cmd Word
to_file_cmd =
    redir (exec (record { start = to_file; end = b'>' ∷ b'b' ∷ [] } ∷ []))
      (record { start = b'b' ∷ []; end = [] }) o_wronly_create 1

parsed : parse to_file ≡ ok to_file_cmd
unfolding parse parseline parse_args parse_back parseredirs finish peek starts gettoken lex strchr
    lex_redir skip_space skip_word redirect store_args
parsed = refl

-- a)
unclosed : parse (b'a' ∷ b')' ∷ []) ≡ panic leftovers
unfolding parse parseline parse_args parse_back parseredirs finish peek starts gettoken lex strchr
    lex_redir skip_space skip_word redirect store_args
unclosed = refl

no_file : parse (b'a' ∷ b'<' ∷ b'|' ∷ []) ≡ panic missing_file
unfolding parse parseline parse_args parse_back parseredirs finish peek starts gettoken lex strchr
    lex_redir skip_space skip_word redirect store_args
no_file = refl

abbrev memory : Mem
memory a = get_or to_file (a - 100) 0

parsecmd_run : parsecmd 100 to_file memory ≡ ok (to_file_cmd, nulterminate 103 to_file_cmd memory)
unfolding parsecmd
parsecmd_run =
    ap (λ p. bind {B = Cmd Word × Mem} p λ cmd. ok (cmd, nulterminate 103 cmd memory)) parsed

memory-IsString : IsString memory 100 to_file
memory-IsString = (omega arith, refl, (omega arith, refl, (omega arith, refl, refl)))

parse-terminates_example : parse to_file ≢ out_of_fuel
parse-terminates_example = parse-terminates to_file

parsecmd-Terminated_example :
    Keeps (Terminated to_file 103 (nulterminate 103 to_file_cmd memory)) to_file_cmd
    × ((a : ℕ) → (a < 100) ⊎ (103 < a) → nulterminate 103 to_file_cmd memory a ≡ memory a)
parsecmd-Terminated_example =
    parsecmd-Terminated 100 to_file memory (nulterminate 103 to_file_cmd memory) to_file_cmd
      memory-IsString parsecmd_run

-- (a >> b & ; c) > d | e &
abbrev sample : Line
sample =
    line
      (piped
        (block
          (line_then
            (last (
              command no_redirs
                (arg (b'a' ∷ []) (redirect_to append (b'b' ∷ []) no_redirs) no_args)))
            1 (line (last (command no_redirs (arg (b'c' ∷ []) no_redirs no_args))) 0))
          (redirect_to output (b'd' ∷ []) no_redirs))
        (last (command no_redirs (arg (b'e' ∷ []) no_redirs no_args))))
      1

sample-Named : NamedLine sample
unfolding NamedLine strchr
sample-Named = (
  (
    (
      (tt, ((omega arith, refl, tt), ((omega arith, refl, tt), tt), tt), omega arith),
      (tt, ((omega arith, refl, tt), tt, tt), omega arith),
    ),
    ((omega arith, refl, tt), tt),
  ),
  (tt, ((omega arith, refl, tt), tt, tt), omega arith),
)

-- Blanks, and a newline at the end.
abbrev gaps : Text → Text
gaps [] = 10 ∷ []
gaps (c ∷ s) = b' ' ∷ []

gaps-IsGap : (s : Text) → IsGap (gaps s)
unfolding strchr
gaps-IsGap [] = (refl, tt)
gaps-IsGap (c ∷ s) = (refl, tt)

abbrev sample_text : Text
sample_text =
    9 ∷ b'(' ∷ b' ' ∷ b'a' ∷ b' ' ∷ b'>' ∷ b'>' ∷ b' ' ∷ b'b' ∷ b' ' ∷ b'&' ∷ b' ' ∷ b';' ∷ b' '
    ∷ b'c' ∷ b' ' ∷ b')' ∷ b' ' ∷ b'>' ∷ b' ' ∷ b'd' ∷ b' ' ∷ b'|' ∷ b' ' ∷ b'e' ∷ b' ' ∷ b'&' ∷ 10
    ∷ []

sample_printed : (9 ∷ []) ++ print_line gaps sample [] ≡ sample_text
unfolding print_line print_back print_redirs print_args
sample_printed = refl

abbrev sample_memory : Mem
sample_memory a = get_or sample_text (a - 100) 0

sample-IsString : IsString sample_memory 100 sample_text
sample-IsString = (
  omega arith,
  refl,
  (
    omega arith,
    refl,
    (
      omega arith,
      refl,
      (
        omega arith,
        refl,
        (
          omega arith,
          refl,
          (
            omega arith,
            refl,
            (
              omega arith,
              refl,
              (
                omega arith,
                refl,
                (
                  omega arith,
                  refl,
                  (
                    omega arith,
                    refl,
                    (
                      omega arith,
                      refl,
                      (
                        omega arith,
                        refl,
                        (
                          omega arith,
                          refl,
                          (
                            omega arith,
                            refl,
                            (
                              omega arith,
                              refl,
                              (
                                omega arith,
                                refl,
                                (
                                  omega arith,
                                  refl,
                                  (
                                    omega arith,
                                    refl,
                                    (
                                      omega arith,
                                      refl,
                                      (
                                        omega arith,
                                        refl,
                                        (
                                          omega arith,
                                          refl,
                                          (
                                            omega arith,
                                            refl,
                                            (
                                              omega arith,
                                              refl,
                                              (
                                                omega arith,
                                                refl,
                                                (
                                                  omega arith,
                                                  refl,
                                                  (
                                                    omega arith,
                                                    refl,
                                                    (omega arith, refl, (omega arith, refl, refl)),
                                                  ),
                                                ),
                                              ),
                                            ),
                                          ),
                                        ),
                                      ),
                                    ),
                                  ),
                                ),
                              ),
                            ),
                          ),
                        ),
                      ),
                    ),
                  ),
                ),
              ),
            ),
          ),
        ),
      ),
    ),
  ),
)

parsecmd-print_example :
    (cmd : Cmd Word) × (m' : Mem) × (parsecmd 100
        ((9 ∷ []) ++ print_line gaps sample [])
        sample_memory
      ≡ ok (cmd, m'))
    × (map_cmd text_of cmd ≡ line_cmd sample)
    × Keeps (Readable (100 + length ((9 ∷ []) ++ print_line gaps sample [])) m') cmd
parsecmd-print_example =
    parsecmd-print 100 (9 ∷ []) gaps sample sample_memory ((unfold strchr in refl), tt) gaps-IsGap
      sample-Named (subst (IsString sample_memory 100) (sym sample_printed) sample-IsString)
