-- ===== src/Fs/Tests.antt =====
-- Path names at concrete paths, and the examples that xv6-public/fs.c gives of skipelem.
use modificacion_sistema_ope.Base.{
  ℕ, ◌≡◌, refl, true, false, Option, none, some, List, [], ◌∷◌, ◌==◌, if◌then◌else◌,
}
use modificacion_sistema_ope.Fs.Defs.{slash, skip_slashes, until_slash, skipelem}
use modificacion_sistema_ope.Fs.Directory.{Directory}
use modificacion_sistema_ope.Fs.Components.{components}
use modificacion_sistema_ope.Fs.Namex.{namex_from, namex, Resolved}
use modificacion_sistema_ope.Fs.Walk.{Finds, namex_lem}

-- "///a//bb" is "bb" after "a".
abbrev slashed : List ℕ
slashed = slash ∷ slash ∷ slash ∷ 97 ∷ slash ∷ slash ∷ 98 ∷ 98 ∷ []

slashed_runs : skipelem slashed ≡ some (98 ∷ 98 ∷ [], 97 ∷ [])
unfolding skipelem skip_slashes until_slash
slashed_runs = refl

only_slashes : skipelem (slash ∷ slash ∷ slash ∷ slash ∷ []) ≡ none
unfolding skipelem skip_slashes until_slash
only_slashes = refl

-- Inode 1 is the root, which has "a", inode 2, a directory that has everything as inode 3.
abbrev tree : Directory
tree = record {
  is_dir = λ i. if i == 3 then false else true;
  dirlookup = λ i name. if i == 1 then some 2 else if i == 2 then some 3 else none;
}

abbrev found_ip : Option Resolved → Option ℕ
found_ip none = none
found_ip (some f) = f.ip

file_found : found_ip (namex tree false 7 slashed [] (λ j. 0)) ≡ some 3
unfolding namex namex_from skipelem skip_slashes until_slash
file_found = refl

namex_lem_example :
    Finds tree true 1 (components slashed) [] (λ j. 0) (namex tree true 7 slashed [] (λ j. 0))
namex_lem_example = namex_lem tree true 7 slashed [] (λ j. 0)
