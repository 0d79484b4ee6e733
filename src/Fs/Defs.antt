-- ===== src/Fs/Defs.antt =====
-- skipelem of xv6-public/fs.c. A string is the list of its bytes before the NUL; `name`, which
-- has DIRSIZ bytes and a NUL only where it is shorter, is the list of the bytes that it names.
use modificacion_sistema_ope.Base.{ℕ, ◌==◌, if◌then◌else◌, List, [], ◌∷◌, take, Option, none, some}

-- '/'
abbrev pub slash : ℕ
slash = 47

abbrev pub dirsiz : ℕ
dirsiz = 14

-- `while(*path == '/') path++`
unfoldable pub skip_slashes : List ℕ → List ℕ
skip_slashes [] = []
skip_slashes (c ∷ path) = let rest = skip_slashes path in if c == slash then rest else c ∷ path

-- `while(*path != '/' && *path != 0) path++`: the bytes passed, and the path there.
unfoldable pub until_slash : List ℕ → List ℕ × List ℕ
until_slash [] = ([], [])
until_slash (c ∷ path) =
    let rest : List ℕ × List ℕ = until_slash path in
    if c == slash then ([], c ∷ path) else (c ∷ rest.0, rest.1)

-- The path after its first element, and the element.
unfoldable pub skipelem : List ℕ → Option (List ℕ × List ℕ)
skipelem path = elim (skip_slashes path) [
  | [] ↦ none
  | c ∷ s ↦
      let (element, rest) = until_slash (c ∷ s) in some (skip_slashes rest, take dirsiz element)
]
