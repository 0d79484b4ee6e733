-- ===== src/Sh/Fuel.antt =====
-- The parser of xv6-public/sh.c: parsecmd's fuel is enough for every line.
use modificacion_sistema_ope.Base.{
  ℕ, zero, suc, ◌+◌, ◌*◌, ◌<◌, ◌≡◌, ◌≢◌, refl, arith, [], ◌∷◌, length,
}
use modificacion_sistema_ope.Sh.Defs.{
  Word, Cmd, exec, ok, out_of_fuel, parseline, parsepipe, parseblock, parseexec, finish, parse,
}
use modificacion_sistema_ope.Sh.Lexer.{Text, skip_space, gettoken, starts, peek}
use modificacion_sistema_ope.Sh.Ensures.{
  Ensures, returned, panicked, Ensures-ok, Ensures-fuel, Ensures-if, Ensures-bind,
}
use modificacion_sistema_ope.Sh.Tokens.{gettoken-peeked}
use modificacion_sistema_ope.Sh.Words.{Suffix, IsWord}
use modificacion_sistema_ope.Sh.Shape.{
  Keeps, Good, space_on, token_on, length-space, length-token, weaken, parseredirs-Good,
  parse_args-Good, parse_back-Good,
}

module _ (line : Text) where
  mutual
    unfolding parseline peek

    parseline-Good :
        (fuel : ℕ) (s : Text)
        → 4 * length s + 3 < fuel
        → Suffix s line
        → Ensures (Good line (length s)) (parseline fuel s)
    parseline-Good zero s n h = absurd (omega arith)
    parseline-Good (suc fuel) s n h =
        Ensures-bind (parsepipe-Good fuel s (omega (arith, n)) h) λ (first, s₁) (l₁, on₁, k₁).
          Ensures-bind (parse_back-Good line fuel first s₁ (omega (arith, n, l₁)) on₁ k₁)
            λ (cmd, s₂) (l₂, on₂, k₂).
              Ensures-if (starts (b';' ∷ []) (skip_space s₂))
                (λ yes.
                  let bound : length (gettoken (skip_space s₂)).rest < length s =
                    omega (arith, l₁, l₂, length-space s₂, gettoken-peeked (b';' ∷ []) s₂ yes) in
                  Ensures-bind
                    (parseline-Good fuel (gettoken (skip_space s₂)).rest (omega (arith, n, bound))
                      (token_on line (skip_space s₂) (space_on line s₂ on₂)))
                    λ (right, s₃) (l₃, on₃, k₃). returned (omega (arith, l₃, bound), on₃, (k₂, k₃)))
                (λ _. returned (omega (arith, l₁, l₂, length-space s₂), space_on line s₂ on₂, k₂))

    parsepipe-Good :
        (fuel : ℕ) (s : Text)
        → 4 * length s + 2 < fuel
        → Suffix s line
        → Ensures (Good line (length s)) (parsepipe fuel s)
    parsepipe-Good zero s n h = absurd (omega arith)
    parsepipe-Good (suc fuel) s n h =
        Ensures-bind (parseexec-Good fuel s (omega (arith, n)) h) λ (cmd, s₁) (l₁, on₁, k₁).
          Ensures-if (starts (b'|' ∷ []) (skip_space s₁))
            (λ yes.
              let bound : length (gettoken (skip_space s₁)).rest < length s =
                omega (arith, l₁, length-space s₁, gettoken-peeked (b'|' ∷ []) s₁ yes) in
              Ensures-bind
                (parsepipe-Good fuel (gettoken (skip_space s₁)).rest (omega (arith, n, bound))
                  (token_on line (skip_space s₁) (space_on line s₁ on₁)))
                λ (right, s₂) (l₂, on₂, k₂). returned (omega (arith, l₂, bound), on₂, (k₁, k₂)))
            (λ _. returned (omega (arith, l₁, length-space s₁), space_on line s₁ on₁, k₁))

    parseblock-Good :
        (fuel : ℕ) (s : Text)
        → 4 * length s < fuel
        → Suffix s line
        → Ensures (Good line (length s)) (parseblock fuel s)
    parseblock-Good zero s n h = absurd (omega arith)
    parseblock-Good (suc fuel) s n h =
        let p = skip_space s in
        Ensures-if (starts (b'(' ∷ []) p)
          (λ yes.
            let bound : length (gettoken p).rest < length s =
              omega (arith, length-space s, gettoken-peeked (b'(' ∷ []) s yes) in
            Ensures-bind
              (parseline-Good fuel (gettoken p).rest (omega (arith, n, bound))
                (token_on line p (space_on line s h)))
              λ (cmd, s₁) (l₁, on₁, k₁).
                let p₁ = skip_space s₁ in
                let small : length (gettoken p₁).rest < length s =
                  omega (arith, l₁, bound, length-space s₁, length-token p₁) in
                Ensures-if (starts (b')' ∷ []) p₁)
                  (λ _. weaken line (omega (arith, small)) (
                    parseredirs-Good line fuel cmd (gettoken p₁).rest (omega (arith, n, small))
                      (token_on line p₁ (space_on line s₁ on₁)) k₁))
                  (λ _. panicked))
          (λ _. panicked)

    parseexec-Good :
        (fuel : ℕ) (s : Text)
        → 4 * length s + 1 < fuel
        → Suffix s line
        → Ensures (Good line (length s)) (parseexec fuel s)
    parseexec-Good zero s n h = absurd (omega arith)
    parseexec-Good (suc fuel) s n h =
        let p = skip_space s in
        let on = space_on line s h in
        Ensures-if (starts (b'(' ∷ []) p)
          (λ _.
            weaken line (length-space s)
              (parseblock-Good fuel p (omega (arith, n, length-space s)) on))
          (λ _.
            Ensures-bind
              (parseredirs-Good line fuel (exec []) p (omega (arith, n, length-space s)) on tt)
              λ (ret, s₁) (l₁, on₁, k₁). weaken line (omega (arith, l₁, length-space s)) (
                parse_args-Good line fuel [] ret s₁ (omega (arith, n, l₁, length-space s)) on₁ k₁
                  tt))

finish-Keeps :
    (line : Text) (cmd : Cmd Word) (s : Text)
    → Keeps (IsWord line) cmd
    → Ensures (Keeps (IsWord line)) (finish cmd s)
unfolding finish
finish-Keeps line cmd [] h = returned h
finish-Keeps line cmd (c ∷ s) h = panicked

parse-Keeps : (line : Text) → Ensures (Keeps (IsWord line)) (parse line)
unfolding parse
parse-Keeps line =
    Ensures-bind (parseline-Good line (4 * length line + 4) line (omega arith) ([], refl))
      λ (cmd, s) (l, on, k). finish-Keeps line cmd _ k

-- The fuel of parsecmd, four calls for each byte of the line and four more, is enough for every
-- line: the parser returns or panics.
pub parse-terminates : (line : Text) → parse line ≢ out_of_fuel
parse-terminates line = Ensures-fuel (parse-Keeps line)

-- Every word that a parsed command keeps is a stretch of the line without white space or symbols.
pub parse-words : (line : Text) (cmd : Cmd Word) → parse line ≡ ok cmd → Keeps (IsWord line) cmd
parse-words line cmd e = Ensures-ok (parse-Keeps line) e
