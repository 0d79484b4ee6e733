-- ===== src/Grep/Language.antt =====
-- The language of a pattern of xv6-public/grep.c, as a description of its own.
use modificacion_sistema_ope.Base.{
  ℕ, ◌≡◌, ◌≢◌, ◌⊎◌, Bool, true, false, ◌==◌, if◌then◌else◌, List, [], ◌∷◌, ◌++◌,
}
use modificacion_sistema_ope.Grep.Defs.{caret, dot, star, dollar}

-- A pattern is a sequence of single characters and of starred ones, where '.' is any character,
-- and it may be anchored at the end.
pub data Item : Type 0 where
  one : ℕ → Item
  many : ℕ → Item

pub record Pattern : Type 0 where
  pub items : List Item
  pub anchored : Bool

abbrev pub cons : Item → Pattern → Pattern
cons i p = record p { items = i ∷ p.items }

unfoldable pub parse : List ℕ → Pattern
parse [] = record { items = []; anchored = false }
parse (c ∷ []) =
    if c == dollar
    then record { items = []; anchored = true }
    else record { items = one c ∷ []; anchored = false }
parse (c ∷ d ∷ re) = if d == star then cons (many c) (parse re) else cons (one c) (parse (d ∷ re))

abbrev pub Fits : ℕ → ℕ → Type 0
Fits c x = (c ≡ dot) ⊎ (c ≡ x)

-- The words of a sequence of items.
pub data Word : List Item → List ℕ → Type 0 where
  nothing : Word [] []
  single :
      {c x : ℕ} {is : List Item} {w : List ℕ} → Fits c x → Word is w → Word (one c ∷ is) (x ∷ w)
  skip : {c : ℕ} {is : List Item} {w : List ℕ} → Word is w → Word (many c ∷ is) w
  more :
      {c x : ℕ} {is : List Item} {w : List ℕ}
      → Fits c x
      → Word (many c ∷ is) w
      → Word (many c ∷ is) (x ∷ w)

-- The text starts with a word of the pattern, and is that word if the pattern is anchored.
abbrev pub Starts : Pattern → List ℕ → Type 0
Starts p text = (w u : List ℕ) × (text ≡ w ++ u) × Word p.items w × (p.anchored ≡ true → u ≡ [])

-- A word of the pattern stands in the text: at its start if the pattern begins with '^', and at
-- its end if the pattern ends with '$'.
abbrev pub Occurs : Pattern → List ℕ → Type 0
Occurs p text = (a b : List ℕ) × (text ≡ a ++ b) × Starts p b

abbrev pub Language : List ℕ → List ℕ → Type 0
Language [] text = Occurs (parse []) text
Language (c ∷ re) text =
    ((c ≡ caret) × Starts (parse re) text) ⊎ ((c ≢ caret) × Occurs (parse (c ∷ re)) text)
