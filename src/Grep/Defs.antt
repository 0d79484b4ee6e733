-- ===== src/Grep/Defs.antt =====
-- match, matchhere and matchstar of xv6-public/grep.c. A string is the list of its bytes before
-- the NUL, so `re[0] == '\0'` is the empty list.
use modificacion_sistema_ope.Base.{ℕ, Bool, true, false, ◌||◌, ◌==◌, if◌then◌else◌, List, [], ◌∷◌}

-- '^', '.', '*' and '$'
abbrev pub caret : ℕ
caret = 94

abbrev pub dot : ℕ
dot = 46

abbrev pub star : ℕ
star = 42

abbrev pub dollar : ℕ
dollar = 36

-- matchstar(c, re, text), with `here` for `matchhere(re, _)`: its loop ends with the text.
unfoldable pub matchstar : ℕ → (List ℕ → Bool) → List ℕ → Bool
matchstar c here [] = here []
matchstar c here (x ∷ text) =
    let rest : Bool = matchstar c here text in
    if here (x ∷ text) then true else if x == c || c == dot then rest else false

-- The last two tests of matchhere, with `here` for `matchhere(re+1, _)`.
abbrev pub match_one : ℕ → (List ℕ → Bool) → List ℕ → Bool
match_one c here [] = false
match_one c here (x ∷ text) = if c == dot || c == x then here text else false

abbrev pub is_nul : List ℕ → Bool
is_nul [] = true
is_nul (x ∷ text) = false

unfoldable pub matchhere : List ℕ → List ℕ → Bool
matchhere [] text = true
matchhere (c ∷ []) text = if c == dollar then is_nul text else match_one c (matchhere []) text
matchhere (c ∷ d ∷ re) text =
    if d == star then matchstar c (matchhere re) text else match_one c (matchhere (d ∷ re)) text

-- match's loop over the text, its end included.
unfoldable pub match_from : List ℕ → List ℕ → Bool
match_from re [] = matchhere re []
match_from re (x ∷ text) =
    let rest : Bool = match_from re text in if matchhere re (x ∷ text) then true else rest

unfoldable pub match : List ℕ → List ℕ → Bool
match [] text = match_from [] text
match (c ∷ re) text = if c == caret then matchhere re text else match_from (c ∷ re) text
