-- ===== src/Fs/Components.antt =====
-- The elements of a path, and that skipelem takes them off one by one.
use modificacion_sistema_ope.Base.{
  ℕ, ◌<◌, ◌≤◌, ◌≡◌, ◌⊎◌, inl, inr, refl, arith, sym, ap, ◌∙◌, false, ◌==◌, if◌then◌else◌, List, [],
  ◌∷◌, ◌++◌, take, length, none, some, Bool-cases, append_assoc, append-nil,
}
use modificacion_sistema_ope.Fs.Defs.{slash, dirsiz, skip_slashes, until_slash, skipelem}

-- An element that ends here; between two slashes there is none.
abbrev pub flush : List ℕ → List (List ℕ) → List (List ℕ)
flush [] names = names
flush (c ∷ s) names = take dirsiz (c ∷ s) ∷ names

-- The nonempty stretches between slashes, cut to DIRSIZ bytes, with `s` read already.
unfoldable pub components_from : List ℕ → List ℕ → List (List ℕ)
components_from s [] = flush s []
components_from s (c ∷ path) =
    let next : List (List ℕ) = components_from [] path in
    let more : List (List ℕ) = components_from (s ++ c ∷ []) path in
    if c == slash then flush s next else more

abbrev pub components : List ℕ → List (List ℕ)
components path = components_from [] path

components-skip_slashes : (path : List ℕ) → components (skip_slashes path) ≡ components path
unfolding skip_slashes components_from
components-skip_slashes [] = refl
components-skip_slashes (c ∷ path) = elim (Bool-cases (c == slash)) [
  | inl s ↦ ground (arith, s, components-skip_slashes path)
  | inr n ↦ ground (arith, n)
]

components_from-until_slash :
    (d : ℕ) (s path : List ℕ)
    → components_from (d ∷ s) path
      ≡ take dirsiz (d ∷ s ++ (until_slash path).0) ∷ components (until_slash path).1
unfolding until_slash components_from
components_from-until_slash d s [] = rw (append-nil s) refl
components_from-until_slash d s (c ∷ path) = elim (Bool-cases (c == slash)) [
  | inl e ↦ ground (arith, e, append-nil s)
  | inr n ↦ ground (
    arith,
    n,
    components_from-until_slash d (s ++ c ∷ []) path,
    append_assoc s (c ∷ []) (until_slash path).0,
  )
]

length-skip_slashes : (path : List ℕ) → length (skip_slashes path) ≤ length path
unfolding skip_slashes
length-skip_slashes [] = omega arith
length-skip_slashes (c ∷ path) = ground (arith, length-skip_slashes path)

length-until_slash : (path : List ℕ) → length (until_slash path).1 ≤ length path
unfolding until_slash
length-until_slash [] = omega arith
length-until_slash (c ∷ path) = ground (arith, length-until_slash path)

skip_slashes_head :
    (path : List ℕ) (c : ℕ) (s : List ℕ) → skip_slashes path ≡ c ∷ s → (c == slash) ≡ false
unfolding skip_slashes
skip_slashes_head [] c s e = cc
skip_slashes_head (d ∷ path) c s e = elim (Bool-cases (d == slash)) [
  | inl h ↦ skip_slashes_head path c s (ground (arith, h, e))
  | inr n ↦ ground (arith, n, e)
]

-- From a byte that is not a slash.
components_cons :
    (c : ℕ) (s : List ℕ)
    → (c == slash) ≡ false
    → components (c ∷ s) ≡ take dirsiz (c ∷ (until_slash s).0) ∷ components (until_slash s).1
unfolding components_from
components_cons c s n = ground (arith, n, components_from-until_slash c [] s)

List-cases : (l : List ℕ) → (l ≡ []) ⊎ ((c : ℕ) × (s : List ℕ) × (l ≡ c ∷ s))
List-cases [] = inl refl
List-cases (c ∷ s) = inr (c, s, refl)

-- What skip_slashes leaves is empty if it has no element.
skip_slashes-empty : (path : List ℕ) → components (skip_slashes path) ≡ [] → skip_slashes path ≡ []
skip_slashes-empty path e = elim (List-cases (skip_slashes path)) [
  | inl q ↦ q
  | inr (c, s, q) ↦
      absurd
        (cc (sym (components_cons c s (skip_slashes_head path c s q)) ∙ ap components (sym q) ∙ e))
]

-- skipelem fails on a path with no element, and otherwise gives the first one and a shorter path
-- with the others, which is empty if there are none.
pub skipelem_lem :
    (path : List ℕ)
    → ((skipelem path ≡ none) × (components path ≡ []))
      ⊎ ((rest name : List ℕ) × (skipelem path ≡ some (rest, name))
          × (components path ≡ name ∷ components rest)
          × (length rest < length path)
          × (components rest ≡ [] → rest ≡ []))
skipelem_lem path = elim (List-cases (skip_slashes path)) [
  | inl q ↦ inl (
    unfold skipelem in ground (arith, q),
    sym (components-skip_slashes path) ∙ ap components q ∙ (unfold components_from in refl),
  )
  | inr (c, s, q) ↦
      let n = skip_slashes_head path c s q in
      let r = skip_slashes (until_slash s).1 in
      inr (
        r,
        take dirsiz (c ∷ (until_slash s).0),
        unfold skipelem until_slash in ground (arith, q, n),
        sym (components-skip_slashes path)
            ∙ ap components q
            ∙ components_cons c s n
            ∙ ap (λ l. take dirsiz (c ∷ (until_slash s).0) ∷ l)
                (sym (components-skip_slashes (until_slash s).1)),
        omega (
          arith,
          length-skip_slashes (until_slash s).1,
          length-until_slash s,
          length-skip_slashes path,
          ap length q,
        ),
        skip_slashes-empty (until_slash s).1,
      )
]
