-- ===== src/Sh/Print.antt =====
-- The grammar that the parse functions of xv6-public/sh.c read, as trees and as text.
use modificacion_sistema_ope.Base.{ℕ, zero, suc, List, [], ◌∷◌, ◌++◌}
use modificacion_sistema_ope.Sh.Defs.{Cmd, exec, redir, pipe, list, back, o_rdonly, o_wronly_create}
use modificacion_sistema_ope.Sh.Lexer.{Text}

-- The operators of a redirection.
pub data Operator : Type 0 where
  input output append : Operator

abbrev pub operator_text : Operator → Text
operator_text input = b'<' ∷ []
operator_text output = b'>' ∷ []
operator_text append = b'>' ∷ b'>' ∷ []

-- A word and its redirections, and the other trees of a line.
pub data Redirs : Type 0 where
  no_redirs : Redirs
  redirect_to : Operator → Text → Redirs → Redirs

pub data Args : Type 0 where
  no_args : Args
  arg : Text → Redirs → Args → Args

mutual
  pub data Line : Type 0 where
    line : Pipeline → ℕ → Line
    line_then : Pipeline → ℕ → Line → Line

  pub data Pipeline : Type 0 where
    last : Simple → Pipeline
    piped : Simple → Pipeline → Pipeline

  pub data Simple : Type 0 where
    command : Redirs → Args → Simple
    block : Line → Redirs → Simple

module _ (gap : Text → Text) where
  -- Each token is followed by white space: `gap s` where the text `s` comes after it. No two tokens
  -- of a line have the same text after them, so that this is any choice of white space for each.
  abbrev pub token : Text → Text → Text
  token t rest = t ++ (gap rest ++ rest)

  unfoldable pub print_redirs : Redirs → Text → Text
  print_redirs no_redirs rest = rest
  print_redirs (redirect_to op file rs) rest =
      token (operator_text op) (token file (print_redirs rs rest))

  unfoldable pub print_args : Args → Text → Text
  print_args no_args rest = rest
  print_args (arg word rs args) rest = token word (print_redirs rs (print_args args rest))

  unfoldable pub print_back : ℕ → Text → Text
  print_back zero rest = rest
  print_back (suc n) rest = token (b'&' ∷ []) (print_back n rest)

  unfoldable mutual
    pub print_line : Line → Text → Text
    print_line (line p n) rest = print_pipe p (print_back n rest)
    print_line (line_then p n l) rest =
        print_pipe p (print_back n (token (b';' ∷ []) (print_line l rest)))

    pub print_pipe : Pipeline → Text → Text
    print_pipe (last s) rest = print_simple s rest
    print_pipe (piped s p) rest = print_simple s (token (b'|' ∷ []) (print_pipe p rest))

    pub print_simple : Simple → Text → Text
    print_simple (command rs args) rest = print_redirs rs (print_args args rest)
    print_simple (block l rs) rest =
        token (b'(' ∷ []) (print_line l (token (b')' ∷ []) (print_redirs rs rest)))

-- The commands that the trees stand for, their words as text.
unfoldable pub redirs_cmd : Redirs → Cmd Text → Cmd Text
redirs_cmd no_redirs cmd = cmd
redirs_cmd (redirect_to input file rs) cmd = redirs_cmd rs (redir cmd file o_rdonly 0)
redirs_cmd (redirect_to output file rs) cmd = redirs_cmd rs (redir cmd file o_wronly_create 1)
redirs_cmd (redirect_to append file rs) cmd = redirs_cmd rs (redir cmd file o_wronly_create 1)

unfoldable pub words : Args → List Text
words no_args = []
words (arg word rs args) = word ∷ words args

unfoldable pub args_redirs : Args → Cmd Text → Cmd Text
args_redirs no_args cmd = cmd
args_redirs (arg word rs args) cmd = args_redirs args (redirs_cmd rs cmd)

unfoldable pub backs : ℕ → Cmd Text → Cmd Text
backs zero cmd = cmd
backs (suc n) cmd = backs n (back cmd)

unfoldable mutual
  pub line_cmd : Line → Cmd Text
  line_cmd (line p n) = backs n (pipe_cmd p)
  line_cmd (line_then p n l) = list (backs n (pipe_cmd p)) (line_cmd l)

  pub pipe_cmd : Pipeline → Cmd Text
  pipe_cmd (last s) = simple_cmd s
  pipe_cmd (piped s p) = pipe (simple_cmd s) (pipe_cmd p)

  pub simple_cmd : Simple → Cmd Text
  simple_cmd (command rs args) = args_redirs args (redirs_cmd rs (exec (words args)))
  simple_cmd (block l rs) = redirs_cmd rs (line_cmd l)
