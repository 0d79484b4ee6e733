-- ===== src/Sh/Redirs.antt =====
-- parseredirs and the loops of xv6-public/sh.c read back what was printed.
use modificacion_sistema_ope.Base.{
  ℕ, zero, suc, ◌-◌, ◌<◌, ◌≤◌, ◌≡◌, ◌≢◌, refl, arith, ap, ◌∙◌, true, false, [], ◌∷◌, ◌++◌, length,
  take, map, length-append,
}
use modificacion_sistema_ope.Sh.Defs.{
  Word, Cmd, exec, redir, pipe, list, back, Parsed, ok, redirect, parseredirs, parse_back, o_rdonly,
  o_wronly_create,
}
use modificacion_sistema_ope.Sh.Lexer.{Text, strchr, skip_space, gettoken, starts, peek}
use modificacion_sistema_ope.Sh.Tokens.{gettoken-peeked}
use modificacion_sistema_ope.Sh.Words.{skip_space_idem}
use modificacion_sistema_ope.Sh.Shape.{length-space, length-token}
use modificacion_sistema_ope.Sh.Print.{
  Operator, input, output, append, operator_text, Redirs, no_redirs, redirect_to, print_redirs,
  print_back, redirs_cmd, backs,
}
use modificacion_sistema_ope.Sh.Reading.{
  IsGap, IsName, skip_space-name, gettoken-name, gettoken-single, code, gettoken-operator,
  skip_space-operator, starts-operator,
}

-- The bytes between the two pointers.
abbrev pub text_of : Word → Text
text_of w = take (length w.start - length w.end) w.start

-- The command with its words as text.
abbrev pub map_cmd {ℓ κ} : {A : Type ℓ} {B : Type κ} → (A → B) → Cmd A → Cmd B
map_cmd f (exec args) = exec (map f args)
map_cmd f (redir cmd file mode fd) = redir (map_cmd f cmd) (f file) mode fd
map_cmd f (pipe left right) = pipe (map_cmd f left) (map_cmd f right)
map_cmd f (list left right) = list (map_cmd f left) (map_cmd f right)
map_cmd f (back cmd) = back (map_cmd f cmd)

abbrev pub texts : Cmd Word → Cmd Text
texts cmd = map_cmd text_of cmd

take-append : (w e : Text) → take (length w) (w ++ e) ≡ w
take-append [] e = refl
take-append (c ∷ w) e = ap (λ l. c ∷ l) (take-append w e)

pub text_of-append : (w e : Text) → text_of (record { start = w ++ e; end = e }) ≡ w
text_of-append w e = ap (λ n. take n (w ++ e)) (omega (arith, length-append w e)) ∙ take-append w e

-- The call on `s` returns a command with the words of `c`, and goes on at `rest`.
abbrev pub Reads : Parsed (Cmd Word × Text) → Text → Text → Cmd Text → Type 0
Reads r s rest c =
    (cmd : Cmd Word) × (r ≡ ok (cmd, skip_space rest))
    × (texts cmd ≡ c)
    × (length (skip_space rest) ≤ length s)

abbrev pub NamedRedirs : Redirs → Type 0
NamedRedirs no_redirs = Unit
NamedRedirs (redirect_to op file rs) = IsName file × NamedRedirs rs

texts-redirect :
    (op : Operator) (file : Word) (cmd : Cmd Word) (t : Text) (rs : Redirs)
    → text_of file ≡ t
    → redirs_cmd rs (texts (redirect (code op) file cmd))
      ≡ redirs_cmd (redirect_to op t rs) (texts cmd)
unfolding redirect redirs_cmd
texts-redirect input file cmd t rs e = ap (λ x. redirs_cmd rs (redir (texts cmd) x o_rdonly 0)) e
texts-redirect output file cmd t rs e =
    ap (λ x. redirs_cmd rs (redir (texts cmd) x o_wronly_create 1)) e
texts-redirect append file cmd t rs e =
    ap (λ x. redirs_cmd rs (redir (texts cmd) x o_wronly_create 1)) e

module _ (gap : Text → Text) (g : (s : Text) → IsGap (gap s)) where
  abbrev pub placed : Text → Text → Word
  placed w rest = record { start = w ++ (gap rest ++ rest); end = gap rest ++ rest }

  parseredirs-step :
      (op : Operator) (file rest : Text) (fuel : ℕ) (cmd : Cmd Word) (s : Text)
      → IsName file
      → skip_space s
        ≡ operator_text op ++ (gap (file ++ (gap rest ++ rest)) ++ (file ++ (gap rest ++ rest)))
      → (parseredirs (suc fuel) cmd s
          ≡ parseredirs fuel (redirect (code op) (placed file rest) cmd) (skip_space rest))
        × (length (skip_space rest) < length s)
  unfolding parseredirs peek
  parseredirs-step op file rest fuel cmd s n e =
      let p = skip_space s in
      let (ret, next) =
        gettoken-operator op (gap (file ++ (gap rest ++ rest))) p (file ++ (gap rest ++ rest))
          (g (file ++ (gap rest ++ rest))) (skip_space_idem s ∙ e) in
      let on = next ∙ skip_space-name file (gap rest ++ rest) n in
      let name =
        gettoken-name (gap rest) (g rest) (gettoken p).rest file rest n
          (ap skip_space on ∙ skip_space-name file (gap rest ++ rest) n) in
      let yes : starts (b'<' ∷ b'>' ∷ []) p ≡ true =
        ap (starts (b'<' ∷ b'>' ∷ [])) e
        ∙ starts-operator op (gap (file ++ (gap rest ++ rest)) ++ (file ++ (gap rest ++ rest))) in
      let last = length-token (gettoken p).rest in
      (
        ground (arith, yes, ret, name),
        omega (
          arith,
          gettoken-peeked (b'<' ∷ b'>' ∷ []) s yes,
          length-space s,
          last,
          ap (λ t. length t.rest) name,
        ),
      )

  -- parseredirs reads the redirections, and stops at anything else.
  pub parseredirs_lem :
      (rs : Redirs) (fuel : ℕ) (cmd : Cmd Word) (s rest : Text)
      → NamedRedirs rs
      → length s < fuel
      → skip_space s ≡ skip_space (print_redirs gap rs rest)
      → starts (b'<' ∷ b'>' ∷ []) (skip_space rest) ≡ false
      → Reads (parseredirs fuel cmd s) s rest (redirs_cmd rs (texts cmd))
  parseredirs_lem rs zero cmd s rest n l e f = absurd (omega arith)
  parseredirs_lem no_redirs (suc fuel) cmd s rest n l e f = (
    cmd,
    unfold parseredirs peek print_redirs in ground (arith, e, f),
    unfold redirs_cmd in refl,
    unfold print_redirs in omega (arith, length-space s, ap length e),
  )
  parseredirs_lem (redirect_to op file rs) (suc fuel) cmd s rest (n, ns) l e f =
      let after = print_redirs gap rs rest in
      let (step, small) = parseredirs-step op file after fuel cmd s n (
        e
        ∙ (unfold print_redirs in
            skip_space-operator op
              (gap (file ++ (gap after ++ after)) ++ (file ++ (gap after ++ after))))) in
      let (c, r, t, b) =
        parseredirs_lem rs fuel (redirect (code op) (placed file after) cmd) (skip_space after) rest
          ns (omega (arith, l, small)) (skip_space_idem after) f in
      (
        c,
        step ∙ r,
        t
            ∙ texts-redirect op (placed file after) cmd file rs
                (text_of-append file (gap after ++ after)),
        omega (arith, b, small),
      )

  -- peek finds a symbol of one byte, and gettoken goes past it.
  pub single-step :
      (c : ℕ) (s rest : Text)
      → (strchr (b'|' ∷ b'(' ∷ b')' ∷ b';' ∷ b'&' ∷ b'<' ∷ []) c ≡ true) × (c ≢ 0)
      → skip_space s ≡ c ∷ (gap rest ++ rest)
      → (starts (c ∷ []) (skip_space s) ≡ true)
        × ((gettoken (skip_space s)).rest ≡ skip_space rest)
        × (length (skip_space rest) < length s)
  single-step c s rest one e =
      let t =
        gettoken-single (gap rest) (g rest) (skip_space s) c rest one (skip_space_idem s ∙ e) in
      let yes : starts (c ∷ []) (skip_space s) ≡ true =
        unfold starts strchr in ground (arith, e, one) in
      (
        yes,
        ap (λ x. x.rest) t,
        omega (arith, gettoken-peeked (c ∷ []) s yes, length-space s, ap (λ x. length x.rest) t),
      )

  parse_back-step :
      (fuel : ℕ) (cmd : Cmd Word) (s rest : Text)
      → skip_space s ≡ b'&' ∷ (gap rest ++ rest)
      → (parse_back (suc fuel) cmd s ≡ parse_back fuel (back cmd) (skip_space rest))
        × (length (skip_space rest) < length s)
  parse_back-step fuel cmd s rest e =
      let (found, next, small) = single-step b'&' s rest (unfold strchr in refl, omega arith) e in
      ((unfold parse_back peek in ground (arith, found, next)), small)

  -- The loop on '&'.
  pub parse_back_lem :
      (n fuel : ℕ) (cmd : Cmd Word) (s rest : Text)
      → length s < fuel
      → skip_space s ≡ skip_space (print_back gap n rest)
      → starts (b'&' ∷ []) (skip_space rest) ≡ false
      → Reads (parse_back fuel cmd s) s rest (backs n (texts cmd))
  parse_back_lem n zero cmd s rest l e f = absurd (omega arith)
  parse_back_lem zero (suc fuel) cmd s rest l e f = (
    cmd,
    unfold parse_back peek print_back in ground (arith, e, f),
    unfold backs in refl,
    unfold print_back in omega (arith, length-space s, ap length e),
  )
  parse_back_lem (suc n) (suc fuel) cmd s rest l e f =
      let after = print_back gap n rest in
      let (step, small) =
        parse_back-step fuel cmd s after (e ∙ (unfold print_back skip_space strchr in refl)) in
      let (c, r, t, b) =
        parse_back_lem n fuel (back cmd) (skip_space after) rest (omega (arith, l, small))
          (skip_space_idem after) f in
      (c, step ∙ r, t ∙ (unfold backs in refl), omega (arith, b, small))
