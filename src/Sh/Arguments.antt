-- ===== src/Sh/Arguments.antt =====
-- The loop of parseexec in xv6-public/sh.c reads back the arguments that were printed.
use modificacion_sistema_ope.Base.{
  ℕ, zero, suc, ◌+◌, ◌<◌, ◌≡◌, inl, inr, refl, arith, sym, ap, ap₂, ◌∙◌, true, false, List, [], ◌∷◌,
  ◌++◌, length, map, length-append, leb,
}
use modificacion_sistema_ope.Sh.Defs.{
  Word, Cmd, exec, redir, pipe, list, back, maxargs, ok, bind, parseredirs, store_args, parse_args,
}
use modificacion_sistema_ope.Sh.Lexer.{Text, strchr, skip_space, gettoken, starts, lex, peek}
use modificacion_sistema_ope.Sh.Tokens.{gettoken-forward}
use modificacion_sistema_ope.Sh.Words.{skip_space_idem}
use modificacion_sistema_ope.Sh.Shape.{length-space}
use modificacion_sistema_ope.Sh.Print.{
  Args, no_args, arg, print_redirs, print_args, words, args_redirs,
}
use modificacion_sistema_ope.Sh.Reading.{
  IsGap, IsName, Follows, skip_space-name, gettoken-name, after_simple, starts-name,
  plain-no_redirect, plain-no_stop, starts-Follows, starts-stop,
}
use modificacion_sistema_ope.Base.{gt→leb, append-nil}
use modificacion_sistema_ope.Sh.Redirs.{
  text_of, texts, text_of-append, Reads, NamedRedirs, placed, parseredirs_lem,
}

abbrev pub NamedArgs : Args → Type 0
NamedArgs no_args = Unit
NamedArgs (arg word rs args) = IsName word × NamedRedirs rs × NamedArgs args

abbrev pub count_args : Args → ℕ
count_args no_args = 0
count_args (arg word rs args) = suc (count_args args)

map_cmd-store_args :
    (args : List Word) (cmd : Cmd Word)
    → texts (store_args args cmd) ≡ store_args (map text_of args) (texts cmd)
unfolding store_args
map_cmd-store_args args (exec old) = refl
map_cmd-store_args args (redir cmd file mode fd) =
    ap (λ c. redir c (text_of file) mode fd) (map_cmd-store_args args cmd)
map_cmd-store_args args (pipe left right) = refl
map_cmd-store_args args (list left right) = refl
map_cmd-store_args args (back cmd) = refl

map-snoc :
    (args : List Word) (w : Word) (t : Text) (ws : List Text)
    → text_of w ≡ t
    → map text_of (args ++ w ∷ []) ++ ws ≡ map text_of args ++ (t ∷ ws)
map-snoc [] w t ws e = ap (λ x. x ∷ ws) e
map-snoc (v ∷ args) w t ws e = ap (λ l. text_of v ∷ l) (map-snoc args w t ws e)

gettoken-end : (s : Text) → skip_space s ≡ [] → ((gettoken s).ret ≡ 0) × ((gettoken s).rest ≡ [])
unfolding gettoken
gettoken-end s e = (unfold lex in ground (arith, e), unfold lex skip_space in ground (arith, e))

pub stop-no_redirect : (c : ℕ) → strchr after_simple c ≡ true → strchr (b'<' ∷ b'>' ∷ []) c ≡ false
unfolding strchr
stop-no_redirect c h = ground (arith, h)

module _ (gap : Text → Text) (g : (s : Text) → IsGap (gap s)) where
  -- What is printed of arguments is no redirection.
  pub args-no_redirect :
      (more : Args) (rest : Text)
      → NamedArgs more
      → Follows after_simple rest
      → starts (b'<' ∷ b'>' ∷ []) (skip_space (print_args gap more rest)) ≡ false
  args-no_redirect no_args rest n f =
      (unfold print_args in starts-Follows (b'<' ∷ b'>' ∷ []) after_simple rest stop-no_redirect f)
  args-no_redirect (arg w rs more) rest (n, _, _) f =
      let after = print_redirs gap rs (print_args gap more rest) in
      unfold print_args in
      ap (starts (b'<' ∷ b'>' ∷ [])) (skip_space-name w (gap after ++ after) n)
      ∙ starts-name (b'<' ∷ b'>' ∷ []) w (gap after ++ after) n plain-no_redirect

  parse_args-step :
      (w rest : Text) (fuel : ℕ) (args : List Word) (ret : Cmd Word) (s : Text)
      → IsName w
      → suc (length args) < maxargs
      → skip_space s ≡ w ++ (gap rest ++ rest)
      → (parse_args (suc fuel) args ret s
          ≡ bind
              (parseredirs fuel ret (skip_space rest))
              λ (ret₁, s₁). parse_args fuel (args ++ placed gap g w rest ∷ []) ret₁ s₁)
        × (length (skip_space rest) < length s)
  unfolding parse_args peek
  parse_args-step w rest fuel args ret s n few e =
      let t = gettoken-name (gap rest) (g rest) (skip_space s) w rest n (skip_space_idem s ∙ e) in
      let no : starts after_simple (skip_space s) ≡ false =
        ap (starts after_simple) e
        ∙ starts-name after_simple w (gap rest ++ rest) n plain-no_stop in
      let room : leb maxargs (length (args ++ placed gap g w rest ∷ [])) ≡ false =
        gt→leb maxargs (length (args ++ placed gap g w rest ∷ []))
          (omega (arith, few, length-append args (placed gap g w rest ∷ []))) in
      (
        ground (arith, no, t, room),
        omega (
          arith,
          length-space s,
          gettoken-forward (skip_space s) (λ z. absurd (omega (arith, z, ap (λ x. x.ret) t))),
          ap (λ x. length x.rest) t,
        ),
      )

  stopped :
      (fuel : ℕ) (args : List Word) (ret : Cmd Word) (s rest : Text)
      → skip_space s ≡ skip_space rest
      → Follows after_simple rest
      → parse_args (suc fuel) args ret s ≡ ok (store_args args ret, skip_space rest)
  unfolding parse_args peek
  stopped fuel args ret s rest e f = elim (starts-stop rest f) [
    | inl stops ↦ ground (arith, stops, e)
    | inr z ↦
        let (ret, next) = gettoken-end (skip_space s) (skip_space_idem s ∙ e ∙ z) in
        let no : starts after_simple (skip_space s) ≡ false =
          unfold starts in ground (arith, e, z) in
        ground (arith, no, ret, next, z)
  ]

  -- The loop of parseexec.
  pub parse_args_lem :
      (more : Args) (fuel : ℕ) (args : List Word) (ret : Cmd Word) (s rest : Text)
      → NamedArgs more
      → length args + count_args more < maxargs
      → length s < fuel
      → skip_space s ≡ skip_space (print_args gap more rest)
      → Follows after_simple rest
      → Reads
          (parse_args fuel args ret s)
          s
          rest
          (store_args (map text_of args ++ words more) (args_redirs more (texts ret)))
  parse_args_lem more zero args ret s rest n few l e f = absurd (omega arith)
  parse_args_lem no_args (suc fuel) args ret s rest n few l e f = (
    store_args args ret,
    stopped fuel args ret s rest (e ∙ (unfold print_args in refl)) f,
    map_cmd-store_args args ret
        ∙ (unfold words args_redirs in
            ap (λ l. store_args l (texts ret)) (sym (append-nil (map text_of args)))),
    unfold print_args in omega (arith, length-space s, ap length e),
  )
  parse_args_lem (arg w rs more) (suc fuel) args ret s rest (n, nr, ns) few l e f =
      let after = print_args gap more rest in
      let text = print_redirs gap rs after in
      let (step, small) =
        parse_args-step w text fuel args ret s n (omega (arith, few))
          (e ∙ (unfold print_args in skip_space-name w (gap text ++ text) n)) in
      let (ret₁, r, t, b) =
        parseredirs_lem gap g rs fuel ret (skip_space text) after nr (omega (arith, l, small))
          (skip_space_idem text) (args-no_redirect more rest ns f) in
      let placed_args = args ++ placed gap g w text ∷ [] in
      let (cmd, r', t', b') =
        parse_args_lem more fuel placed_args ret₁ (skip_space after) rest ns
          (omega (arith, few, length-append args (placed gap g w text ∷ [])))
          (omega (arith, l, small, b)) (skip_space_idem after) f in
      (
        cmd,
        step ∙ ap (λ x. bind x λ (c, s₁). parse_args fuel placed_args c s₁) r ∙ r',
        t'
            ∙ (unfold words args_redirs in
                ap₂ (λ l c. store_args l (args_redirs more c))
                  (map-snoc args (placed gap g w text) w (words more)
                    (text_of-append w (gap text ++ text)))
                  t),
        omega (arith, small, b, b'),
      )
