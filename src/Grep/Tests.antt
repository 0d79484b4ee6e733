-- ===== src/Grep/Tests.antt =====
-- grep's matcher at concrete patterns.
use modificacion_sistema_ope.Base.{◌≡◌, ◌↔◌, refl, true, false, List, [], ◌∷◌, ℕ}
use modificacion_sistema_ope.Grep.Defs.{
  caret, dot, star, dollar, matchstar, matchhere, match_from, match,
}
use modificacion_sistema_ope.Grep.Language.{Language}
use modificacion_sistema_ope.Grep.Match.{match_lem}

-- "^a.*b$"
abbrev pattern : List ℕ
pattern = caret ∷ 97 ∷ dot ∷ star ∷ 98 ∷ dollar ∷ []

-- "axxb"
abbrev line : List ℕ
line = 97 ∷ 120 ∷ 120 ∷ 98 ∷ []

accepts : match pattern line ≡ true
unfolding match matchhere matchstar
accepts = refl

-- "b*c" in "abb"
rejects : match (98 ∷ star ∷ 99 ∷ []) (97 ∷ 98 ∷ 98 ∷ []) ≡ false
unfolding match match_from matchhere matchstar
rejects = refl

match_lem_example :
    match (caret ∷ 97 ∷ dot ∷ star ∷ 98 ∷ dollar ∷ []) line ≡ true ↔ Language pattern line
match_lem_example = match_lem pattern line
