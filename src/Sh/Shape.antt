-- ===== src/Sh/Shape.antt =====
-- The parser of xv6-public/sh.c: its fuel is enough, and what it keeps are words of the line.
use modificacion_sistema_ope.Base.{
  ℕ, zero, suc, ◌<◌, ◌≤◌, ◌≡◌, arith, Bool, true, false, not, ◌||◌, List, [], ◌∷◌, ◌++◌, ◌==◌, leb,
  if◌then◌else◌, length,
}
use modificacion_sistema_ope.Sh.Defs.{
  Word, Cmd, exec, redir, pipe, list, back, maxargs, Parsed, redirect, parseredirs, store_args,
  parse_args, parse_back,
}
use modificacion_sistema_ope.Sh.Lexer.{Text, skip_space, gettoken, starts, peek}
use modificacion_sistema_ope.Sh.Ensures.{Ensures, returned, panicked, Ensures-if, Ensures-bind}
use modificacion_sistema_ope.Sh.Tokens.{
  gettoken-rest, gettoken-forward, gettoken-IsWord, gettoken-peeked,
}
use modificacion_sistema_ope.Sh.Words.{
  Suffix, IsWord, Suffix-trans, Suffix-length, skip_space-Suffix,
}

abbrev pub AllWords {ℓ} : (Word → Type ℓ) → List Word → Type ℓ
AllWords P [] = Unit
AllWords P (w ∷ ws) = P w × AllWords P ws

-- `P` holds of every word that the command keeps.
abbrev pub Keeps {ℓ} : (Word → Type ℓ) → Cmd Word → Type ℓ
Keeps P (exec args) = AllWords P args
Keeps P (redir cmd file mode fd) = Keeps P cmd × P file
Keeps P (pipe left right) = Keeps P left × Keeps P right
Keeps P (list left right) = Keeps P left × Keeps P right
Keeps P (back cmd) = Keeps P cmd

module _ {ℓ} (P : Word → Type ℓ) where
  AllWords-append : (ws : List Word) (w : Word) → AllWords P ws → P w → AllWords P (ws ++ w ∷ [])
  AllWords-append [] w h k = (k, tt)
  AllWords-append (v ∷ ws) w (h, hs) k = (h, AllWords-append ws w hs k)

  store_args-Keeps :
      (args : List Word) (cmd : Cmd Word)
      → Keeps P cmd
      → AllWords P args
      → Keeps P (store_args args cmd)
  unfolding store_args
  store_args-Keeps args (exec old) h k = k
  store_args-Keeps args (redir cmd file mode fd) (h, f) k = (store_args-Keeps args cmd h k, f)
  store_args-Keeps args (pipe left right) h k = h
  store_args-Keeps args (list left right) h k = h
  store_args-Keeps args (back cmd) h k = h

  Keeps-if : (b : Bool) (x y : Cmd Word) → Keeps P x → Keeps P y → Keeps P (if b then x else y)
  Keeps-if true x y h k = h
  Keeps-if false x y h k = k

  redirect-Keeps :
      (tok : ℕ) (file : Word) (cmd : Cmd Word)
      → Keeps P cmd
      → P file
      → Keeps P (redirect tok file cmd)
  unfolding redirect
  redirect-Keeps tok file cmd h f =
      Keeps-if (tok == b'<') _ _ (h, f) (Keeps-if (tok == b'>' || tok == b'+') _ _ (h, f) h)

pub length-space : (s : Text) → length (skip_space s) ≤ length s
length-space s = Suffix-length (skip_space s) s (skip_space-Suffix s)

pub length-token : (s : Text) → length (gettoken s).rest ≤ length s
length-token s = Suffix-length (gettoken s).rest s (gettoken-rest s)

module _ (line : Text) where
  -- What a call leaves of `n` bytes of the text, and the command it returns.
  abbrev pub Good : ℕ → Cmd Word × Text → Type 0
  Good n (cmd, rest) = (length rest ≤ n) × Suffix rest line × Keeps (IsWord line) cmd

  pub space_on : (s : Text) → Suffix s line → Suffix (skip_space s) line
  space_on s h = Suffix-trans (skip_space s) s line (skip_space-Suffix s) h

  pub token_on : (s : Text) → Suffix s line → Suffix (gettoken s).rest line
  token_on s h = Suffix-trans (gettoken s).rest s line (gettoken-rest s) h

  IsWord-on :
      (s : Text)
      → Suffix s line
      → (gettoken s).ret ≡ b'a'
      → IsWord line (record { start = (gettoken s).q; end = (gettoken s).eq })
  IsWord-on s h a =
      let w = gettoken-IsWord s a in
      record {
        within = Suffix-trans (gettoken s).q s line w.within h;
        bytes = w.bytes;
        between = w.between;
        plain_bytes = w.plain_bytes;
        nonempty = w.nonempty;
        ends = w.ends;
      }

  pub weaken :
      {m n : ℕ} {r : Parsed (Cmd Word × Text)} → m ≤ n → Ensures (Good m) r → Ensures (Good n) r
  weaken h (returned {a} (l, s, k)) = returned (omega (arith, l), s, k)
  weaken h panicked = panicked

  pub parseredirs-Good :
      (fuel : ℕ) (cmd : Cmd Word) (s : Text)
      → length s < fuel
      → Suffix s line
      → Keeps (IsWord line) cmd
      → Ensures (Good (length s)) (parseredirs fuel cmd s)
  unfolding parseredirs peek
  parseredirs-Good zero cmd s n h k = absurd (omega arith)
  parseredirs-Good (suc fuel) cmd s n h k =
      let p = skip_space s in
      let name = (gettoken p).rest in
      Ensures-if (starts (b'<' ∷ b'>' ∷ []) p)
        (λ yes.
          Ensures-if ((gettoken name).ret == b'a')
            (λ a.
              let on = token_on p (space_on s h) in
              let bound : length (gettoken name).rest < length s = omega (
                arith,
                length-space s,
                gettoken-peeked (b'<' ∷ b'>' ∷ []) s yes,
                length-token name,
              ) in
              weaken (omega (arith, bound)) (
                parseredirs-Good fuel _ (gettoken name).rest (omega (arith, bound))
                  (token_on name on)
                  (redirect-Keeps (IsWord line) (gettoken p).ret _ cmd k
                    (IsWord-on name on (ground (arith, a))))))
            (λ _. panicked))
        (λ _. returned (length-space s, space_on s h, k))

  pub parse_args-Good :
      (fuel : ℕ) (args : List Word) (ret : Cmd Word) (s : Text)
      → length s < fuel
      → Suffix s line
      → Keeps (IsWord line) ret
      → AllWords (IsWord line) args
      → Ensures (Good (length s)) (parse_args fuel args ret s)
  unfolding parse_args peek
  parse_args-Good zero args ret s n h k a = absurd (omega arith)
  parse_args-Good (suc fuel) args ret s n h k a =
      let p = skip_space s in
      let t = gettoken p in
      let on = space_on s h in
      let kept = store_args-Keeps (IsWord line) args ret k a in
      Ensures-if (starts (b'|' ∷ b')' ∷ b'&' ∷ b';' ∷ []) p)
        (λ _. returned (length-space s, on, kept))
        (λ _.
          Ensures-if (t.ret == 0)
            (λ _. returned (omega (arith, length-space s, length-token p), token_on p on, kept))
            (λ z.
              Ensures-if (not (t.ret == b'a')) (λ _. panicked)
                (λ w.
                  let bound : length t.rest < length s =
                    omega (arith, length-space s, gettoken-forward p (λ e. ground (arith, e, z))) in
                  let word = IsWord-on p on (ground (arith, w)) in
                  Ensures-if (leb maxargs (length (args ++ _ ∷ []))) (λ _. panicked)
                    (λ _.
                      Ensures-bind
                        (parseredirs-Good fuel ret t.rest (omega (arith, bound)) (token_on p on) k)
                        λ (ret₁, s₁) (l, on₁, k₁). weaken (omega (arith, l, bound)) (
                          parse_args-Good fuel (args ++ _ ∷ []) ret₁ s₁ (omega (arith, l, bound))
                            on₁ k₁ (AllWords-append (IsWord line) args _ a word))))))

  pub parse_back-Good :
      (fuel : ℕ) (cmd : Cmd Word) (s : Text)
      → length s < fuel
      → Suffix s line
      → Keeps (IsWord line) cmd
      → Ensures (Good (length s)) (parse_back fuel cmd s)
  unfolding parse_back peek
  parse_back-Good zero cmd s n h k = absurd (omega arith)
  parse_back-Good (suc fuel) cmd s n h k =
      let p = skip_space s in
      Ensures-if (starts (b'&' ∷ []) p)
        (λ yes.
          let bound : length (gettoken p).rest < length s =
            omega (arith, length-space s, gettoken-peeked (b'&' ∷ []) s yes) in
          weaken (omega (arith, bound)) (
            parse_back-Good fuel (back cmd) (gettoken p).rest (omega (arith, bound))
              (token_on p (space_on s h)) k))
        (λ _. returned (length-space s, space_on s h, k))
