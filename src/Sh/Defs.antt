-- ===== src/Sh/Defs.antt =====
-- The parser of xv6-public/sh.c: the parse functions, nulterminate and parsecmd.
use modificacion_sistema_ope.Base.{
  ℕ, zero, suc, ◌+◌, ◌-◌, ◌*◌, not, ◌||◌, List, [], ◌∷◌, ◌++◌, ◌==◌, leb, update, if◌then◌else◌,
  length,
}
use modificacion_sistema_ope.Sh.Lexer.{Text, Token, gettoken, peek}
use modificacion_sistema_ope.Str.{Mem}

-- argv[i] with eargv[i], and file with efile.
pub record Word : Type 0 where
  pub start : Text
  pub end : Text

-- struct cmd and its five kinds, over what they keep of a word.
pub data Cmd {ℓ} (A : Type ℓ) : Type ℓ where
  exec : List A → Cmd A
  redir : Cmd A → A → ℕ → ℕ → Cmd A
  pipe list : Cmd A → Cmd A → Cmd A
  back : Cmd A → Cmd A

abbrev pub maxargs : ℕ
maxargs = 10

abbrev pub o_rdonly : ℕ
o_rdonly = 0

-- O_WRONLY|O_CREATE
abbrev pub o_wronly_create : ℕ
o_wronly_create = 0x201

pub data Message : Type 0 where
  missing_file not_a_block missing_paren syntax too_many_args leftovers : Message

-- A call returns, or the shell panics; `out_of_fuel` has no counterpart in the program.
pub data Parsed {ℓ} (A : Type ℓ) : Type ℓ where
  ok : A → Parsed A
  panic : Message → Parsed A
  out_of_fuel : Parsed A

abbrev pub bind {ℓ κ} : {A : Type ℓ} {B : Type κ} → Parsed A → (A → Parsed B) → Parsed B
bind (ok a) f = f a
bind (panic e) f = panic e
bind out_of_fuel f = out_of_fuel

abbrev pub Parser : Type 0
Parser = Text → Parsed (Cmd Word × Text)

-- The switch of parseredirs, on what gettoken returned for the operator.
unfoldable pub redirect : ℕ → Word → Cmd Word → Cmd Word
redirect tok file cmd =
    if tok == b'<'
    then redir cmd file o_rdonly 0
    else (if tok == b'>' || tok == b'+' then redir cmd file o_wronly_create 1 else cmd)

unfoldable pub parseredirs : ℕ → Cmd Word → Parser
parseredirs zero cmd ps = out_of_fuel
parseredirs (suc fuel) cmd ps =
    let (redirection, s) = peek ps (b'<' ∷ b'>' ∷ []) in
    let operator : Token = gettoken s in
    let name : Token = gettoken operator.rest in
    let file : Word = record { start = name.q; end = name.eq } in
    let more : Parsed (Cmd Word × Text) =
      parseredirs fuel (redirect operator.ret file cmd) name.rest in
    if redirection then (if name.ret == b'a' then more else panic missing_file) else ok (cmd, s)

-- cmd->argv and cmd->eargv, where `cmd` is the command in which the redirections `ret` end.
unfoldable pub store_args {ℓ} : {A : Type ℓ} → List A → Cmd A → Cmd A
store_args args (exec old) = exec args
store_args args (redir cmd file mode fd) = redir (store_args args cmd) file mode fd
store_args args (pipe left right) = pipe left right
store_args args (list left right) = list left right
store_args args (back cmd) = back cmd

-- The loop of parseexec: `argc` is the length of `args`.
unfoldable pub parse_args : ℕ → List Word → Cmd Word → Parser
parse_args zero args ret ps = out_of_fuel
parse_args (suc fuel) args ret ps =
    let (stop, s) = peek ps (b'|' ∷ b')' ∷ b'&' ∷ b';' ∷ []) in
    let t : Token = gettoken s in
    let args₁ : List Word = args ++ record { start = t.q; end = t.eq } ∷ [] in
    let more : Parsed (Cmd Word × Text) =
      bind (parseredirs fuel ret t.rest) λ (ret₁, s₁). parse_args fuel args₁ ret₁ s₁ in
    if stop
    then ok (store_args args ret, s)
    else (if t.ret == 0
        then ok (store_args args ret, t.rest)
        else (if not (t.ret == b'a')
            then panic syntax
            else (if leb maxargs (length args₁) then panic too_many_args else more)))

-- The loop of parseline on '&'.
unfoldable pub parse_back : ℕ → Cmd Word → Parser
parse_back zero cmd ps = out_of_fuel
parse_back (suc fuel) cmd ps =
    let (background, s) = peek ps (b'&' ∷ []) in
    let more : Parsed (Cmd Word × Text) = parse_back fuel (back cmd) (gettoken s).rest in
    if background then more else ok (cmd, s)

-- Each call costs a unit of fuel.
unfoldable mutual
  pub parseline : ℕ → Parser
  parseline zero ps = out_of_fuel
  parseline (suc fuel) ps = bind (parsepipe fuel ps) λ (first, s).
      bind (parse_back fuel first s) λ (cmd, s₁).
        let (sequence, s₂) = peek s₁ (b';' ∷ []) in
        let more : Parsed (Cmd Word × Text) =
          bind (parseline fuel (gettoken s₂).rest) λ (right, s₃). ok (list cmd right, s₃) in
        if sequence then more else ok (cmd, s₂)

  pub parsepipe : ℕ → Parser
  parsepipe zero ps = out_of_fuel
  parsepipe (suc fuel) ps = bind (parseexec fuel ps) λ (cmd, s).
      let (piped, s₁) = peek s (b'|' ∷ []) in
      let more : Parsed (Cmd Word × Text) =
        bind (parsepipe fuel (gettoken s₁).rest) λ (right, s₂). ok (pipe cmd right, s₂) in
      if piped then more else ok (cmd, s₁)

  pub parseblock : ℕ → Parser
  parseblock zero ps = out_of_fuel
  parseblock (suc fuel) ps =
      let (opened, s) = peek ps (b'(' ∷ []) in
      let more : Parsed (Cmd Word × Text) = bind (parseline fuel (gettoken s).rest) λ (cmd, s₁).
        let (closed, s₂) = peek s₁ (b')' ∷ []) in
        if closed then parseredirs fuel cmd (gettoken s₂).rest else panic missing_paren in
      if opened then more else panic not_a_block

  pub parseexec : ℕ → Parser
  parseexec zero ps = out_of_fuel
  parseexec (suc fuel) ps =
      let (opened, s) = peek ps (b'(' ∷ []) in
      let block : Parsed (Cmd Word × Text) = parseblock fuel s in
      let simple : Parsed (Cmd Word × Text) =
        bind (parseredirs fuel (exec []) s) λ (ret, s₁). parse_args fuel [] ret s₁ in
      if opened then block else simple

-- parsecmd's tests after parseline.
unfoldable pub finish : Cmd Word → Text → Parsed (Cmd Word)
finish cmd [] = ok cmd
finish cmd (c ∷ s) = panic leftovers

-- Four calls between two bytes of the line at most.
unfoldable pub parse : Text → Parsed (Cmd Word)
parse line = bind (parseline (4 * length line + 4) line) λ (cmd, s). finish cmd (peek s []).1

-- for(i=0; ecmd->argv[i]; i++) *ecmd->eargv[i] = 0
unfoldable pub nul_args : ℕ → List Word → Mem → Mem
nul_args es [] m = m
nul_args es (arg ∷ args) m = nul_args es args (update m (es - length arg.end) 0)

-- The line ends at the address `es`.
unfoldable pub nulterminate : ℕ → Cmd Word → Mem → Mem
nulterminate es (exec args) m = nul_args es args m
nulterminate es (redir cmd file mode fd) m = update (nulterminate es cmd m) (es - length file.end) 0
nulterminate es (pipe left right) m = nulterminate es right (nulterminate es left m)
nulterminate es (list left right) m = nulterminate es right (nulterminate es left m)
nulterminate es (back cmd) m = nulterminate es cmd m

-- parsecmd on the line that the string at the address `s` is.
unfoldable pub parsecmd : ℕ → Text → Mem → Parsed (Cmd Word × Mem)
parsecmd s line m = bind (parse line) λ cmd. ok (cmd, nulterminate (s + length line) cmd m)
