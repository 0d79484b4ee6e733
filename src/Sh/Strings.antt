-- ===== src/Sh/Strings.antt =====
-- parsecmd of xv6-public/sh.c: what nulterminate leaves where the command's words start.
use modificacion_sistema_ope.Base.{
  ℕ, ◌+◌, ◌-◌, ◌<◌, ◌≡◌, ◌≢◌, ◌⊎◌, refl, arith, sym, ap, ◌∙◌, subst, [], ◌∷◌, ◌++◌, length,
  length-append, true,
}
use mathlib.Core.Bool.{true≢false}
use modificacion_sistema_ope.Str.{Mem}
use modificacion_sistema_ope.Sh.Defs.{
  Word, Cmd, Parsed, ok, panic, out_of_fuel, bind, parse, nulterminate, parsecmd,
}
use modificacion_sistema_ope.Sh.Lexer.{Text}
use modificacion_sistema_ope.Sh.Words.{
  plain, AllPlain, Ends, Suffix, IsWord, Suffix-trans, Suffix-length,
}
use modificacion_sistema_ope.Sh.Shape.{Keeps}
use modificacion_sistema_ope.Sh.Fuel.{parse-words}
use modificacion_sistema_ope.Sh.Nul.{
  Keeps-map, Keeps-both, end_of, nulterminate-other, nulterminate-ends,
}

-- A string of C.
abbrev pub IsString : Mem → ℕ → Text → Type 0
IsString m a [] = m a ≡ 0
IsString m a (c ∷ s) = (c ≢ 0) × (m a ≡ c) × IsString m (a + 1) s

-- A suffix of a string is where its length says.
IsString-at :
    (m : Mem) (a : ℕ) (u r : Text)
    → IsString m a (u ++ r)
    → IsString m (a + length (u ++ r) - length r) r
IsString-at m a [] r h = subst (λ n. IsString m n r) (omega arith) h
IsString-at m a (c ∷ u) r (n, e, h) =
    subst (λ k. IsString m k r) (omega (arith, length-append u r)) (IsString-at m (a + 1) u r h)

suffix_at :
    (m : Mem) (a : ℕ) (line r : Text)
    → IsString m a line
    → Suffix r line
    → IsString m (a + length line - length r) r
suffix_at m a line r h (u, p) =
    subst (λ l. IsString m (a + length l - length r) r) (sym p)
      (IsString-at m a u r (subst (IsString m a) p h))

append-injective : (u v r t : Text) → u ++ r ≡ v ++ t → length r ≡ length t → r ≡ t
append-injective [] [] r t e n = e
append-injective [] (c ∷ v) r t e n = absurd (omega (arith, n, ap length e, length-append v t))
append-injective (c ∷ u) [] r t e n = absurd (omega (arith, n, ap length e, length-append u r))
append-injective (c ∷ u) (d ∷ v) r t e n = append-injective u v r t (cc) n

-- Two suffixes at one address are the same.
suffix_unique : (line r t : Text) → Suffix r line → Suffix t line → length r ≡ length t → r ≡ t
suffix_unique line r t (u, p) (v, q) n = append-injective u v r t (sym p ∙ q) n

module _ (s : ℕ) (line : Text) (m : Mem) (h : IsString m s line) (cmd : Cmd Word) where
  abbrev after : Mem
  after = nulterminate (s + length line) cmd m

  -- A plain byte of the line is not written.
  plain-after :
      (c : ℕ) (r : Text)
      → Keeps (IsWord line) cmd
      → Suffix (c ∷ r) line
      → plain c ≡ true
      → after (s + length line - length (c ∷ r)) ≡ c
  plain-after c r k on p =
      let (n, e, rest) = suffix_at m s line (c ∷ r) h on in
      nulterminate-other (s + length line) _ cmd m
        (Keeps-map (IsWord line) _ (λ w i. elsewhere w i) cmd k)
      ∙ e
    where
      elsewhere :
          (w : Word)
          → IsWord line w
          → s + length line - length (c ∷ r) ≢ s + length line - length w.end
      elsewhere w i e =
          let in_line = Suffix-trans w.end w.start line (i.bytes, i.between) i.within in
          let same : w.end ≡ c ∷ r =
            suffix_unique line w.end (c ∷ r) in_line on
              (omega (arith, e, Suffix-length w.end line in_line, Suffix-length (c ∷ r) line on)) in
          true≢false (sym p ∙ subst Ends same i.ends)

  IsString-after :
      (bytes r : Text)
      → Keeps (IsWord line) cmd
      → Suffix (bytes ++ r) line
      → AllPlain bytes
      → after (s + length line - length r) ≡ 0
      → IsString after (s + length line - length (bytes ++ r)) bytes
  IsString-after [] r k on p z = z
  IsString-after (c ∷ bytes) r k on (p, ps) z =
      let on₁ = Suffix-trans (bytes ++ r) (c ∷ bytes ++ r) line (c ∷ [], refl) on in
      let (n, e, rest) = suffix_at m s line (c ∷ bytes ++ r) h on in
      (
        n,
        plain-after c (bytes ++ r) k on p,
        subst (λ a. IsString after a bytes) (omega (arith, Suffix-length (c ∷ bytes ++ r) line on))
            (IsString-after bytes r k on₁ ps z),
      )

-- After parsecmd, a word of the command is a string of its bytes.
pub record Terminated (line : Text) (es : ℕ) (m : Mem) (w : Word) : Type 0 where
  pub bytes : Text
  pub between : w.start ≡ bytes ++ w.end
  pub within : Suffix w.start line
  pub plain_bytes : AllPlain bytes
  pub nonempty : bytes ≢ []
  pub string : IsString m (es - length w.start) bytes

parsecmd-result :
    (s : ℕ) (line : Text) (m m' : Mem) (cmd : Cmd Word)
    → parsecmd s line m ≡ ok (cmd, m')
    → (parse line ≡ ok cmd) × (m' ≡ nulterminate (s + length line) cmd m)
unfolding parsecmd
parsecmd-result s line m m' cmd e = by_outcome (parse line) e
  where
    by_outcome :
        (r : Parsed (Cmd Word))
        → bind {B = Cmd Word × Mem} r (λ c. ok (c, nulterminate (s + length line) c m))
          ≡ ok (cmd, m')
        → (r ≡ ok cmd) × (m' ≡ nulterminate (s + length line) cmd m)
    by_outcome (ok c) q = (cc q, cc q)
    by_outcome (panic x) q = absurd (cc q)
    by_outcome out_of_fuel q = absurd (cc q)

-- After parsecmd on a string, each word of the command is a string.
pub parsecmd-Terminated :
    (s : ℕ) (line : Text) (m m' : Mem) (cmd : Cmd Word)
    → IsString m s line
    → parsecmd s line m ≡ ok (cmd, m')
    → Keeps (Terminated line (s + length line) m') cmd
      × ((a : ℕ) → (a < s) ⊎ (s + length line < a) → m' a ≡ m a)
parsecmd-Terminated s line m m' cmd h e =
    let (parsed, out) = parsecmd-result s line m m' cmd e in
    let k = parse-words line cmd parsed in
    let es = s + length line in
    let after : Mem = nulterminate es cmd m in
    subst
      (λ x.
        Keeps (Terminated line es x) cmd × ((a : ℕ) → (a < s) ⊎ (s + length line < a) → x a ≡ m a))
      (sym out)
      (
        Keeps-map (λ w. IsWord line w × (after (end_of es w) ≡ 0)) (Terminated line es after)
            (λ w (i, z). record {
              bytes = i.bytes;
              between = i.between;
              within = i.within;
              plain_bytes = i.plain_bytes;
              nonempty = i.nonempty;
              string =
                  subst (λ x. IsString after (es - length x) i.bytes) (sym i.between)
                    (IsString-after s line m h cmd i.bytes w.end k
                      (subst (λ x. Suffix x line) i.between i.within) i.plain_bytes z);
            })
            cmd (Keeps-both (IsWord line) _ cmd k (nulterminate-ends es cmd m)),
        λ a o. nulterminate-other es a cmd m (
            Keeps-map (IsWord line) _
              (λ w i q.
                let in_line = Suffix-trans w.end w.start line (i.bytes, i.between) i.within in
                ground (arith, o, q, Suffix-length w.end line in_line))
              cmd k),
      )
