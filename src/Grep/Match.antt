-- ===== src/Grep/Match.antt =====
-- What match decides: the language of the pattern.
use modificacion_sistema_ope.Base.{
  ℕ, ◌≡◌, ◌↔◌, inl, inr, refl, arith, sym, ap, ◌∙◌, subst, Bool, true, false, ◌||◌, ◌==◌, List, [],
  ◌∷◌, ◌++◌, Bool-cases,
}
use modificacion_sistema_ope.Grep.Language.{
  one, many, Pattern, cons, parse, Word, nothing, single, skip, more, Starts, Occurs, Language,
}
use modificacion_sistema_ope.Grep.Defs.{
  caret, dot, star, dollar, matchstar, match_one, is_nul, matchhere, match_from, match,
}

module _ (c : ℕ) (p : Pattern) (here : List ℕ → Bool) where
  module _ (sound : (text : List ℕ) → here text ≡ true → Starts p text) where
    skipped : (text : List ℕ) → Starts p text → Starts (cons (many c) p) text
    skipped text (w, u, e, word, end) = (w, u, e, skip word, end)

    star-Starts : (text : List ℕ) → matchstar c here text ≡ true → Starts (cons (many c) p) text
    unfolding matchstar
    star-Starts [] h = skipped [] (sound [] h)
    star-Starts (x ∷ text) h = elim (Bool-cases (here (x ∷ text))) [
      | inl now ↦ skipped (x ∷ text) (sound (x ∷ text) now)
      | inr later ↦ elim (Bool-cases (x == c || c == dot)) [
        | inl fits ↦
            let (w, u, e, word, end) = star-Starts text (ground (arith, later, fits, h)) in
            (x ∷ w, u, ap (λ l. x ∷ l) e, more (ground (arith, fits)) word, end)
        | inr stops ↦ absurd (ground (arith, later, stops, h))
      ]
    ]

    one-Starts : (text : List ℕ) → match_one c here text ≡ true → Starts (cons (one c) p) text
    one-Starts [] h = absurd (ground arith)
    one-Starts (x ∷ text) h = elim (Bool-cases (c == dot || c == x)) [
      | inl fits ↦
          let (w, u, e, word, end) = sound text (ground (arith, fits, h)) in
          (x ∷ w, u, ap (λ l. x ∷ l) e, single (ground (arith, fits)) word, end)
      | inr stops ↦ absurd (ground (arith, stops, h))
    ]

  module _ (complete : (text : List ℕ) → Starts p text → here text ≡ true) where
    matchstar_now : (text : List ℕ) → here text ≡ true → matchstar c here text ≡ true
    unfolding matchstar
    matchstar_now [] h = h
    matchstar_now (x ∷ text) h = ground (arith, h)

    matchstar-Word :
        (w u : List ℕ)
        → Word (many c ∷ p.items) w
        → (p.anchored ≡ true → u ≡ [])
        → matchstar c here (w ++ u) ≡ true
    unfolding matchstar
    matchstar-Word w u (skip word) end =
        matchstar_now (w ++ u) (complete (w ++ u) (w, u, refl, word, end))
    matchstar-Word (x ∷ w) u (more fits word) end =
        ground (arith, matchstar-Word w u word end, fits)

    match_one-Word :
        (w u : List ℕ)
        → Word (one c ∷ p.items) w
        → (p.anchored ≡ true → u ≡ [])
        → match_one c here (w ++ u) ≡ true
    match_one-Word [] u word end = elim word [ ]
    match_one-Word (x ∷ w) u (single fits word) end =
        ground (arith, complete (w ++ u) (w, u, refl, word, end), fits)

-- The one-character pattern that is not '$'.
abbrev last : ℕ → Pattern
last c = record { items = one c ∷ []; anchored = false }

abbrev empty : Pattern
empty = record { items = []; anchored = false }

abbrev only_end : Pattern
only_end = record { items = []; anchored = true }

empty-Starts : (text : List ℕ) → Starts empty text
empty-Starts text = ([], text, refl, nothing, λ e. cc)

is_nul-Starts : (text : List ℕ) → is_nul text ≡ true → Starts only_end text
is_nul-Starts [] h = ([], [], refl, nothing, λ e. refl)
is_nul-Starts (x ∷ text) h = absurd (ground arith)

matchhere-Starts : (re text : List ℕ) → matchhere re text ≡ true → Starts (parse re) text
unfolding matchhere parse
matchhere-Starts [] text h = empty-Starts text
matchhere-Starts (c ∷ []) text h = elim (Bool-cases (c == dollar)) [
  | inl z ↦
      let e : parse (c ∷ []) ≡ only_end = ground (arith, z) in
      subst (λ p. Starts p text) (sym e) (is_nul-Starts text (ground (arith, z, h)))
  | inr z ↦
      let e : parse (c ∷ []) ≡ last c = ground (arith, z) in
      subst (λ p. Starts p text) (sym e)
        (one-Starts c empty (matchhere []) (λ t _. empty-Starts t) text (ground (arith, z, h)))
]
matchhere-Starts (c ∷ d ∷ re) text h = elim (Bool-cases (d == star)) [
  | inl z ↦
      let e : parse (c ∷ d ∷ re) ≡ cons (many c) (parse re) = ground (arith, z) in
      subst (λ p. Starts p text) (sym e)
        (star-Starts c (parse re) (matchhere re) (matchhere-Starts re) text (ground (arith, z, h)))
  | inr z ↦
      let e : parse (c ∷ d ∷ re) ≡ cons (one c) (parse (d ∷ re)) = ground (arith, z) in
      subst (λ p. Starts p text) (sym e)
        (one-Starts c (parse (d ∷ re)) (matchhere (d ∷ re)) (matchhere-Starts (d ∷ re)) text
          (ground (arith, z, h)))
]

only_end-is_nul : (text : List ℕ) → Starts only_end text → is_nul text ≡ true
only_end-is_nul text ([], u, e, nothing, end) = ap is_nul (e ∙ end refl)
only_end-is_nul text (x ∷ w, u, e, word, end) = elim word [ ]

Starts-matchhere : (re text : List ℕ) → Starts (parse re) text → matchhere re text ≡ true
unfolding matchhere parse
Starts-matchhere [] text (w, u, e, word, end) = refl
Starts-matchhere (c ∷ []) text s = elim (Bool-cases (c == dollar)) [
  | inl z ↦
      let e : parse (c ∷ []) ≡ only_end = ground (arith, z) in
      ground (arith, z, only_end-is_nul text (subst (λ p. Starts p text) e s))
  | inr z ↦
      let e : parse (c ∷ []) ≡ last c = ground (arith, z) in
      let (w, u, q, word, end) = subst (λ p. Starts p text) e s in
      ground (
        arith,
        z,
        subst (λ t. match_one c (matchhere []) t ≡ true) (sym q)
            (match_one-Word c empty (matchhere []) (λ t _. refl) w u word end),
      )
]
Starts-matchhere (c ∷ d ∷ re) text s = elim (Bool-cases (d == star)) [
  | inl z ↦
      let e : parse (c ∷ d ∷ re) ≡ cons (many c) (parse re) = ground (arith, z) in
      let (w, u, q, word, end) = subst (λ p. Starts p text) e s in
      ground (
        arith,
        z,
        subst (λ t. matchstar c (matchhere re) t ≡ true) (sym q)
            (matchstar-Word c (parse re) (matchhere re) (Starts-matchhere re) w u word end),
      )
  | inr z ↦
      let e : parse (c ∷ d ∷ re) ≡ cons (one c) (parse (d ∷ re)) = ground (arith, z) in
      let (w, u, q, word, end) = subst (λ p. Starts p text) e s in
      ground (
        arith,
        z,
        subst (λ t. match_one c (matchhere (d ∷ re)) t ≡ true) (sym q)
            (match_one-Word c (parse (d ∷ re)) (matchhere (d ∷ re)) (Starts-matchhere (d ∷ re)) w u
              word end),
      )
]

match_from-Occurs : (re text : List ℕ) → match_from re text ≡ true → Occurs (parse re) text
unfolding match_from
match_from-Occurs re [] h = ([], [], refl, matchhere-Starts re [] h)
match_from-Occurs re (x ∷ text) h = elim (Bool-cases (matchhere re (x ∷ text))) [
  | inl now ↦ ([], x ∷ text, refl, matchhere-Starts re (x ∷ text) now)
  | inr later ↦
      let (a, b, e, s) = match_from-Occurs re text (ground (arith, later, h)) in
      (x ∷ a, b, ap (λ l. x ∷ l) e, s)
]

match_from_now : (re text : List ℕ) → matchhere re text ≡ true → match_from re text ≡ true
unfolding match_from
match_from_now re [] h = h
match_from_now re (x ∷ text) h = ground (arith, h)

Starts-match_from : (re a b : List ℕ) → Starts (parse re) b → match_from re (a ++ b) ≡ true
unfolding match_from
Starts-match_from re [] b s = match_from_now re b (Starts-matchhere re b s)
Starts-match_from re (x ∷ a) b s = ground (arith, Starts-match_from re a b s)

match-Language : (re text : List ℕ) → match re text ≡ true → Language re text
unfolding match
match-Language [] text h = match_from-Occurs [] text h
match-Language (c ∷ re) text h = elim (Bool-cases (c == caret)) [
  | inl z ↦ inl (ground (arith, z), matchhere-Starts re text (ground (arith, z, h)))
  | inr z ↦ inr (ground (arith, z), match_from-Occurs (c ∷ re) text (ground (arith, z, h)))
]

Language-match : (re text : List ℕ) → Language re text → match re text ≡ true
unfolding match
Language-match [] text (a, b, e, s) = rw e (Starts-match_from [] a b s)
Language-match (c ∷ re) text (inl (z, s)) = ground (arith, z, Starts-matchhere re text s)
Language-match (c ∷ re) text (inr (z, (a, b, e, s))) =
    ground (
      arith,
      z,
      subst (λ t. match_from (c ∷ re) t ≡ true) (sym e) (Starts-match_from (c ∷ re) a b s),
    )

-- match accepts exactly the texts in which a word of the pattern stands: at the start if the
-- pattern begins with '^', at the end if it ends with '$'.
pub match_lem : (re text : List ℕ) → match re text ≡ true ↔ Language re text
match_lem re text = (match-Language re text, Language-match re text)
