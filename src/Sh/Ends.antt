-- ===== src/Sh/Ends.antt =====
-- Where the parts of a printed line end, as peek of xv6-public/sh.c sees it.
use modificacion_sistema_ope.Base.{
  ℕ, zero, suc, ◌<◌, ◌≡◌, inr, refl, arith, ap, ◌∙◌, true, false, List, [], ◌∷◌, ◌++◌, length,
}
use modificacion_sistema_ope.Sh.Defs.{Cmd, exec, store_args}
use modificacion_sistema_ope.Sh.Lexer.{Text, whitespace, strchr, skip_space, gettoken, starts}
use modificacion_sistema_ope.Sh.Words.{skip_space_idem}
use modificacion_sistema_ope.Sh.Print.{
  input, output, append, Redirs, no_redirs, redirect_to, Args, no_args, arg, print_redirs,
  print_args, print_back, redirs_cmd, words, args_redirs,
}
use modificacion_sistema_ope.Sh.Reading.{
  IsGap, Follows, skip_space-name, after_simple, after_pipe, after_back, after_line, starts-name,
  plain-no_block, Follows-weaken, starts-Follows,
}
use modificacion_sistema_ope.Sh.Redirs.{single-step}
use modificacion_sistema_ope.Sh.Arguments.{NamedArgs}

store_args-redirs :
    (ws : List Text) (rs : Redirs) (cmd : Cmd Text)
    → store_args ws (redirs_cmd rs cmd) ≡ redirs_cmd rs (store_args ws cmd)
unfolding redirs_cmd store_args
store_args-redirs ws no_redirs cmd = refl
store_args-redirs ws (redirect_to input file rs) cmd = store_args-redirs ws rs _
store_args-redirs ws (redirect_to output file rs) cmd = store_args-redirs ws rs _
store_args-redirs ws (redirect_to append file rs) cmd = store_args-redirs ws rs _

store_args-args :
    (ws : List Text) (args : Args) (cmd : Cmd Text)
    → store_args ws (args_redirs args cmd) ≡ args_redirs args (store_args ws cmd)
unfolding args_redirs
store_args-args ws no_args cmd = refl
store_args-args ws (arg w rs args) cmd =
    store_args-args ws args (redirs_cmd rs cmd)
    ∙ ap (args_redirs args) (store_args-redirs ws rs cmd)

pub stored :
    (rs : Redirs) (args : Args)
    → store_args (words args) (args_redirs args (redirs_cmd rs (exec [])))
      ≡ args_redirs args (redirs_cmd rs (exec (words args)))
stored rs args =
    store_args-args (words args) args (redirs_cmd rs (exec []))
    ∙ ap (args_redirs args)
        (store_args-redirs (words args) rs (exec []) ∙ (unfold store_args in refl))

stop-no_block : (c : ℕ) → strchr after_simple c ≡ true → strchr (b'(' ∷ []) c ≡ false
unfolding strchr
stop-no_block c h = ground (arith, h)

pub pipe-simple : (c : ℕ) → strchr after_pipe c ≡ true → strchr after_simple c ≡ true
unfolding strchr
pipe-simple c h = ground (arith, h)

pub pipe-no_pipe : (c : ℕ) → strchr after_pipe c ≡ true → strchr (b'|' ∷ []) c ≡ false
unfolding strchr
pipe-no_pipe c h = ground (arith, h)

back-pipe : (c : ℕ) → strchr after_back c ≡ true → strchr after_pipe c ≡ true
unfolding strchr
back-pipe c h = ground (arith, h)

pub back-no_back : (c : ℕ) → strchr after_back c ≡ true → strchr (b'&' ∷ []) c ≡ false
unfolding strchr
back-no_back c h = ground (arith, h)

pub line-back : (c : ℕ) → strchr after_line c ≡ true → strchr after_back c ≡ true
unfolding strchr
line-back c h = ground (arith, h)

pub line-no_list : (c : ℕ) → strchr after_line c ≡ true → strchr (b';' ∷ []) c ≡ false
unfolding strchr
line-no_list c h = ground (arith, h)

module _ (gap : Text → Text) (g : (s : Text) → IsGap (gap s)) where
  -- A printed simple command is no block.
  pub command-no_block :
      (rs : Redirs) (args : Args) (rest : Text)
      → NamedArgs args
      → Follows after_simple rest
      → starts (b'(' ∷ []) (skip_space (print_redirs gap rs (print_args gap args rest))) ≡ false
  unfolding print_redirs print_args
  command-no_block no_redirs no_args rest n f =
      starts-Follows (b'(' ∷ []) after_simple rest stop-no_block f
  command-no_block no_redirs (arg w rs args) rest (n, _, _) f =
      let after = print_redirs gap rs (print_args gap args rest) in
      ap (starts (b'(' ∷ [])) (skip_space-name w (gap after ++ after) n)
      ∙ starts-name (b'(' ∷ []) w (gap after ++ after) n plain-no_block
  command-no_block (redirect_to input file rs) args rest n f =
      unfold starts strchr skip_space in refl
  command-no_block (redirect_to output file rs) args rest n f =
      unfold starts strchr skip_space in refl
  command-no_block (redirect_to append file rs) args rest n f =
      unfold starts strchr skip_space in refl

  -- A symbol of one byte, as it is printed.
  abbrev pub symbol : ℕ → Text → Text
  symbol c rest = c ∷ (gap rest ++ rest)

  symbol-Follows :
      (l : Text) (c : ℕ) (rest : Text)
      → skip_space (symbol c rest) ≡ symbol c rest
      → strchr l c ≡ true
      → Follows l (symbol c rest)
  symbol-Follows l c rest e h = inr (c, gap rest ++ rest, e, h)

  skip_space-symbol :
      (c : ℕ) (rest : Text)
      → strchr whitespace c ≡ false
      → skip_space (symbol c rest) ≡ symbol c rest
  skip_space-symbol c rest h = unfold skip_space in ground (arith, h)

  pub back-Follows :
      (n : ℕ) (rest : Text) → Follows after_back rest → Follows after_pipe (print_back gap n rest)
  unfolding print_back
  back-Follows zero rest f = Follows-weaken after_back after_pipe rest back-pipe f
  back-Follows (suc n) rest f =
      symbol-Follows after_pipe b'&' (print_back gap n rest)
        (skip_space-symbol b'&' (print_back gap n rest) (unfold strchr in refl))
        (unfold strchr in refl)

  -- The symbols that go on with a command, a line and a block.
  pub bar-Follows : (s : Text) → Follows after_simple (symbol b'|' s)
  bar-Follows s =
      symbol-Follows after_simple b'|' s (skip_space-symbol b'|' s (unfold strchr in refl))
        (unfold strchr in refl)

  pub semicolon-Follows : (s : Text) → Follows after_back (symbol b';' s)
  semicolon-Follows s =
      symbol-Follows after_back b';' s (skip_space-symbol b';' s (unfold strchr in refl))
        (unfold strchr in refl)

  pub close-Follows : (s : Text) → Follows after_line (symbol b')' s)
  close-Follows s =
      symbol-Follows after_line b')' s (skip_space-symbol b')' s (unfold strchr in refl))
        (unfold strchr in refl)

  -- Past a symbol that the last call stopped at.
  abbrev pub Past : ℕ → Text → Type 0
  Past c rest =
      let s = skip_space (symbol c rest) in
      (starts (c ∷ []) (skip_space s) ≡ true)
      × ((gettoken (skip_space s)).rest ≡ skip_space rest)
      × (length (skip_space rest) < length s)

  pub bar-Past : (s : Text) → Past b'|' s
  bar-Past s =
      single-step gap g b'|' (skip_space (symbol b'|' s)) s (unfold strchr in refl, omega arith)
        (skip_space_idem (symbol b'|' s) ∙ skip_space-symbol b'|' s (unfold strchr in refl))

  pub semicolon-Past : (s : Text) → Past b';' s
  semicolon-Past s =
      single-step gap g b';' (skip_space (symbol b';' s)) s (unfold strchr in refl, omega arith)
        (skip_space_idem (symbol b';' s) ∙ skip_space-symbol b';' s (unfold strchr in refl))

  pub close-Past : (s : Text) → Past b')' s
  close-Past s =
      single-step gap g b')' (skip_space (symbol b')' s)) s (unfold strchr in refl, omega arith)
        (skip_space_idem (symbol b')' s) ∙ skip_space-symbol b')' s (unfold strchr in refl))

  pub open-Past :
      (s rest : Text)
      → skip_space s ≡ skip_space (symbol b'(' rest)
      → (starts (b'(' ∷ []) (skip_space s) ≡ true)
        × ((gettoken (skip_space s)).rest ≡ skip_space rest)
        × (length (skip_space rest) < length s)
  open-Past s rest e =
      single-step gap g b'(' s rest (unfold strchr in refl, omega arith)
        (e ∙ skip_space-symbol b'(' rest (unfold strchr in refl))
