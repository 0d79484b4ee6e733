-- ===== src/Fs/Walk.antt =====
-- What namex finds: a walk over the elements of the path that leaks no reference.
use modificacion_sistema_ope.Base.{
  ℕ, zero, suc, ◌+◌, ◌<◌, ◌≡◌, ◌≢◌, ◌⊎◌, inl, inr, refl, arith, sym, ap, ◌∙◌, subst, Bool, true,
  false, ◌&&◌, ◌==◌, if◌then◌else◌, List, [], ◌∷◌, length, Option, none, some, Bool-cases,
  Option-cases,
}
use modificacion_sistema_ope.Fs.Directory.{Directory}
use modificacion_sistema_ope.Fs.Components.{components_from, components, skipelem_lem}
use modificacion_sistema_ope.Fs.Namex.{
  iget, iput, Resolved, is_end, namex_from, rootino, starts_at_root, namex,
}

module _ (dir : Directory) where
  -- The inode at the end of a list of names.
  unfoldable pub walk : ℕ → List (List ℕ) → Option ℕ
  walk ip [] = some ip
  walk ip (n ∷ names) =
      if dir.is_dir ip
      then elim (dir.dirlookup ip n) [ none ↦ none | some next ↦ walk next names ]
      else none

  -- The directory that holds the last of a list of names.
  unfoldable pub walk_parent : ℕ → List (List ℕ) → Option ℕ
  walk_parent ip [] = none
  walk_parent ip (n ∷ []) = if dir.is_dir ip then some ip else none
  walk_parent ip (n ∷ m ∷ names) =
      if dir.is_dir ip
      then elim (dir.dirlookup ip n) [ none ↦ none | some next ↦ walk_parent next (m ∷ names) ]
      else none

  abbrev pub target : Bool → ℕ → List (List ℕ) → Option ℕ
  target false ip names = walk ip names
  target true ip names = walk_parent ip names

  abbrev pub last_or : List ℕ → List (List ℕ) → List ℕ
  last_or name [] = name
  last_or name (n ∷ names) = last_or n names

  -- One reference on the inode returned, if one is.
  abbrev pub one_on : Option ℕ → ℕ → ℕ
  one_on none j = 0
  one_on (some i) j = if j == i then 1 else 0

  pub record Finds (parent : Bool) (ip : ℕ) (names : List (List ℕ)) (name : List ℕ) (base : ℕ → ℕ)
      (out : Option Resolved) : Type 0 where
    pub found : Resolved
    pub returns : out ≡ some found
    pub inode : found.ip ≡ target parent ip names
    pub last : found.ip ≢ none → found.name ≡ last_or name names
    pub refs : (j : ℕ) → found.refs j ≡ base j + one_on found.ip j

  target_file :
      (parent : Bool) (ip : ℕ) (n : List ℕ) (names : List (List ℕ))
      → dir.is_dir ip ≡ false
      → target parent ip (n ∷ names) ≡ none
  unfolding walk walk_parent
  target_file false ip n names f = ground (arith, f)
  target_file true ip n [] f = ground (arith, f)
  target_file true ip n (m ∷ names) f = ground (arith, f)

  target_missing :
      (parent : Bool) (ip : ℕ) (n : List ℕ) (names : List (List ℕ))
      → (parent ≡ true → names ≢ [])
      → dir.is_dir ip ≡ true
      → dir.dirlookup ip n ≡ none
      → target parent ip (n ∷ names) ≡ none
  unfolding walk walk_parent
  target_missing false ip n names h d e = ground (arith, d, e)
  target_missing true ip n [] h d e = absurd (h refl refl)
  target_missing true ip n (m ∷ names) h d e = ground (arith, d, e)

  target_next :
      (parent : Bool) (ip next : ℕ) (n : List ℕ) (names : List (List ℕ))
      → (parent ≡ true → names ≢ [])
      → dir.is_dir ip ≡ true
      → dir.dirlookup ip n ≡ some next
      → target parent ip (n ∷ names) ≡ target parent next names
  unfolding walk walk_parent
  target_next false ip next n names h d e = ground (arith, d, e)
  target_next true ip next n [] h d e = absurd (h refl refl)
  target_next true ip next n (m ∷ names) h d e = ground (arith, d, e)

  -- The counts with one reference on `ip`.
  abbrev HasOne : ℕ → (ℕ → ℕ) → (ℕ → ℕ) → Type 0
  HasOne ip base refs = (j : ℕ) → refs j ≡ base j + (if j == ip then 1 else 0)

  end-Finds :
      (parent : Bool) (ip : ℕ) (name : List ℕ) (base refs : ℕ → ℕ)
      → HasOne ip base refs
      → Finds parent ip [] name base (
          if parent
          then some (record { ip = none; name = name; refs = iput ip refs })
          else some (record { ip = some ip; name = name; refs = refs }))
  unfolding walk walk_parent
  end-Finds false ip name base refs r = record {
    found = record { ip = some ip; name = name; refs = refs };
    returns = refl;
    inode = refl;
    last = λ _. refl;
    refs = λ j. ground (arith, r j);
  }
  end-Finds true ip name base refs r = record {
    found = record { ip = none; name = name; refs = iput ip refs };
    returns = refl;
    inode = refl;
    last = λ h. absurd (h refl);
    refs = λ j. ground (arith, r j);
  }

  fails-Finds :
      (parent : Bool) (ip : ℕ) (names : List (List ℕ)) (name element : List ℕ) (base refs : ℕ → ℕ)
      → target parent ip names ≡ none
      → HasOne ip base refs
      → Finds parent ip names name base
          (some (record { ip = none; name = element; refs = iput ip refs }))
  fails-Finds parent ip names name element base refs e r = record {
    found = record { ip = none; name = element; refs = iput ip refs };
    returns = refl;
    inode = sym e;
    last = λ h. absurd (h refl);
    refs = λ j. ground (arith, r j);
  }

  stops-Finds :
      (ip : ℕ) (name element : List ℕ) (base refs : ℕ → ℕ)
      → dir.is_dir ip ≡ true
      → HasOne ip base refs
      → Finds true ip
          (element ∷ [])
          name
          base
          (some (record { ip = some ip; name = element; refs = refs }))
  unfolding walk_parent
  stops-Finds ip name element base refs d r = record {
    found = record { ip = some ip; name = element; refs = refs };
    returns = refl;
    inode = ground (arith, d);
    last = λ _. refl;
    refs = λ j. ground (arith, r j);
  }

  goes-Finds :
      (parent : Bool) (ip next : ℕ) (names : List (List ℕ)) (name element : List ℕ) (base : ℕ → ℕ)
      (out : Option Resolved)
      → target parent ip (element ∷ names) ≡ target parent next names
      → Finds parent next names element base out
      → Finds parent ip (element ∷ names) name base out
  goes-Finds parent ip next names name element base out e f = record {
    found = f.found;
    returns = f.returns;
    inode = f.inode ∙ sym e;
    last = f.last;
    refs = f.refs;
  }

  rest_end : (rest : List ℕ) → (rest ≡ []) ⊎ (is_end rest ≡ false)
  rest_end [] = inl refl
  rest_end (c ∷ s) = inr refl

  components_end : (n : List ℕ) → (n ∷ components []) ≡ n ∷ []
  unfolding components_from
  components_end n = refl

  namex_from-Finds :
      (parent : Bool) (fuel ip : ℕ) (path name : List ℕ) (base refs : ℕ → ℕ)
      → length path < fuel
      → HasOne ip base refs
      → Finds parent ip (components path) name base (namex_from dir parent fuel ip path name refs)
  namex_from-Finds parent zero ip path name base refs h r = absurd (omega arith)
  namex_from-Finds parent (suc fuel) ip path name base refs h r =
      let via =
        λ (names : List (List ℕ)) (out : Option Resolved) (c : components path ≡ names)
            (f : Finds parent ip names name base out)
            (e : namex_from dir parent (suc fuel) ip path name refs ≡ out).
          subst
            (λ n. Finds parent ip n name base (namex_from dir parent (suc fuel) ip path name refs))
            (sym c) (subst (λ o. Finds parent ip names name base o) (sym e) f) in
      elim (skipelem_lem path) [
        | inl (e, c) ↦
            via [] _ c (end-Finds parent ip name base refs r)
              (unfold namex_from in ground (arith, e))
        | inr (rest, element, e, c, l, end) ↦ elim (Bool-cases (dir.is_dir ip)) [
          | inr file ↦
              via (element ∷ components rest) _ c
                (fails-Finds parent ip _ name element base refs
                  (target_file parent ip element (components rest) file) r)
                (unfold namex_from in ground (arith, e, file))
          | inl directory ↦ elim (Bool-cases (parent && is_end rest)) [
            | inl stops ↦
                let q : parent ≡ true = ground (arith, stops) in
                let z : rest ≡ [] = elim (rest_end rest) [
                  | inl z ↦ z
                  | inr z ↦ absurd (ground (arith, stops, z))
                ] in
                via (element ∷ []) _
                  (c ∙ ap (λ l. element ∷ components l) z ∙ components_end element)
                  (subst
                    (λ b.
                      Finds b ip (element ∷ []) name base
                        (some (record { ip = some ip; name = element; refs = refs })))
                    (sym q) (stops-Finds ip name element base refs directory r))
                  (unfold namex_from in ground (arith, e, directory, stops))
            | inr goes ↦
                let more : parent ≡ true → components rest ≢ [] =
                  λ q z. ground (arith, goes, q, end z) in
                elim (Option-cases (dir.dirlookup ip element)) [
                  | inl missing ↦
                      via (element ∷ components rest) _ c
                        (fails-Finds parent ip _ name element base refs
                          (target_missing parent ip element (components rest) more directory
                            missing)
                          r)
                        (unfold namex_from in ground (arith, e, directory, goes, missing))
                  | inr (next, there) ↦
                      via (element ∷ components rest) _ c
                        (goes-Finds parent ip next _ name element base _
                          (target_next parent ip next element (components rest) more directory
                            there)
                          (namex_from-Finds parent fuel next rest element base
                            (iput ip (iget next refs)) (omega arith)
                            (λ j. ground (arith, r j, r ip, r next))))
                        (unfold namex_from in ground (arith, e, directory, goes, there))
                ]
          ]
        ]
      ]

  -- namex returns, whatever the path. Without `parent` it returns the inode that a walk over the
  -- elements of the path finds, from the root if the path starts with a slash and from the
  -- current directory if not; with `parent`, the directory of the last element; or none. Where it
  -- returns an inode, `name` is the last element if there is one, and the inode has one reference
  -- more; no other count changes.
  pub namex_lem :
      (parent : Bool) (cwd : ℕ) (path name : List ℕ) (refs : ℕ → ℕ)
      → Finds parent
          (if starts_at_root path then rootino else cwd)
          (components path)
          name
          refs
          (namex dir parent cwd path name refs)
  unfolding namex
  namex_lem parent cwd path name refs =
      namex_from-Finds parent (suc (length path)) (if starts_at_root path then rootino else cwd)
        path name refs (iget (if starts_at_root path then rootino else cwd) refs) (omega arith)
        (λ j. ground arith)
