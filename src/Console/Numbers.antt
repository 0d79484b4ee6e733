-- ===== src/Console/Numbers.antt =====
-- printint of xv6-public/console.c prints the number, and its 16 bytes are enough.
use modificacion_sistema_ope.Base.{
  ℕ, zero, suc, ◌+◌, ◌-◌, ◌*◌, ◌/◌, ◌%◌, ◌^◌, ◌<◌, ◌≤◌, ◌≡◌, ◌⊎◌, inl, inr, refl, arith, sym, ap,
  ◌∙◌, List, [], ◌∷◌, ◌++◌, length, length-append, append-nil, append_assoc, Bool, true, false,
  ◌&&◌, ◌||◌, ◌==◌, ltb, leb, if◌then◌else◌, get_or, ℕ_discrete,
}
use modificacion_sistema_ope.Console.Defs.{digits, convert, stored, put_from, printint}

-- The number that a digit stands for, and a text of digits after the number `n`.
abbrev pub digit : ℕ → ℕ
digit c = if ltb c b'a' then c - b'0' else c - b'a' + 10

abbrev pub number : ℕ → ℕ → List ℕ → ℕ
number base n [] = n
number base n (c ∷ s) = number base (n * base + digit c) s

-- One of the digits '0' to '9' and 'a' to 'f', below the base.
abbrev pub is_digit : ℕ → Bool
is_digit c = (leb b'0' c && leb c b'9') || (leb b'a' c && leb c b'f')

abbrev pub AllDigits : ℕ → List ℕ → Type 0
AllDigits base [] = Unit
AllDigits base (c ∷ s) = (is_digit c ≡ true) × (digit c < base) × AllDigits base s

-- The bases that cprintf uses.
abbrev pub IsBase : ℕ → Type 0
IsBase base = (base ≡ 10) ⊎ (base ≡ 16)

-- An int's sign and magnitude.
abbrev pub negative : ℕ → Bool → Bool
negative xx sign = sign && leb (2 ^ 31) xx

abbrev pub magnitude : ℕ → Bool → ℕ
magnitude xx sign = if negative xx sign then 2 ^ 32 - xx else xx

divide :
    (base : ℕ)
    → IsBase base
    → (x : ℕ)
    → (x / base * base + x % base ≡ x) × (x % base < 16) × (10 * (x / base) ≤ x) × (x % base < base)
divide base (inl e) x = ground (arith, e)
divide base (inr e) x = ground (arith, e)

-- A test of all numbers below `n`.
all_below : (ℕ → Bool) → ℕ → Bool
all_below p zero = true
all_below p (suc n) = p n && all_below p n

all_below_lem : (p : ℕ → Bool) (n d : ℕ) → all_below p n ≡ true → d < n → p d ≡ true
unfolding all_below
all_below_lem p zero d h l = absurd (omega arith)
all_below_lem p (suc n) d h l = elim (ℕ_discrete d n) [
  | yes e ↦ ground (arith, h, e)
  | no ne ↦ all_below_lem p n d (ground (arith, h)) (omega (arith, ne, l))
]

digit-digits : (d : ℕ) → d < 16 → digit (get_or digits d 0) ≡ d
digit-digits d h =
    let same =
      all_below_lem (λ k. digit (get_or digits k 0) == k) 16 d (unfold all_below in refl) h in
    ground (arith, same)

-- The digits from the last one on.
value : ℕ → List ℕ → ℕ
value base [] = 0
value base (c ∷ s) = value base s * base + digit c

number-snoc :
    (base n : ℕ) (s : List ℕ) (c : ℕ)
    → number base n (s ++ c ∷ []) ≡ number base n s * base + digit c
number-snoc base n [] c = refl
number-snoc base n (d ∷ s) c = number-snoc base (n * base + digit d) s c

number-put_from : (base : ℕ) (s : List ℕ) → number base 0 (put_from s) ≡ value base s
unfolding put_from value
number-put_from base [] = refl
number-put_from base (c ∷ s) =
    number-snoc base 0 (put_from s) c ∙ ap (λ n. n * base + digit c) (number-put_from base s)

value-convert :
    (fuel base x : ℕ) → IsBase base → x < 2 ^ fuel → value base (convert fuel base x) ≡ x
unfolding convert value
value-convert zero base x b h = omega (arith, h)
value-convert (suc fuel) base x b h =
    let (whole, small, less, _) = divide base b x in
    let ih = value-convert fuel base (x / base) b (omega (arith, h, less)) in
    ground (arith, whole, digit-digits (x % base) small, ih)

length-convert :
    (fuel base x k : ℕ) → IsBase base → x < 10 ^ suc k → length (convert fuel base x) ≤ suc k
unfolding convert
length-convert zero base x k b h = omega arith
length-convert (suc fuel) base x zero b h =
    let (whole, small, less, _) = divide base b x in
    let none_left : x / base ≡ 0 = omega (arith, less, h) in ground (arith, none_left)
length-convert (suc fuel) base x (suc k) b h =
    let (whole, small, less, _) = divide base b x in
    let ih = length-convert fuel base (x / base) k b (omega (arith, h, less)) in ground (arith, ih)

convert_nonempty : (fuel base x : ℕ) → 1 ≤ length (convert (suc fuel) base x)
unfolding convert
convert_nonempty fuel base x = omega arith

length-put_from : (s : List ℕ) → length (put_from s) ≡ length s
unfolding put_from
length-put_from [] = refl
length-put_from (c ∷ s) = omega (arith, length-append (put_from s) (c ∷ []), length-put_from s)

put_from-append : (s t : List ℕ) → put_from (s ++ t) ≡ put_from t ++ put_from s
unfolding put_from
put_from-append [] t = sym (append-nil (put_from t))
put_from-append (c ∷ s) t =
    ap (λ l. l ++ c ∷ []) (put_from-append s t) ∙ append_assoc (put_from t) (put_from s) (c ∷ [])

is_digit-digits : (d : ℕ) → d < 16 → is_digit (get_or digits d 0) ≡ true
is_digit-digits d h =
    all_below_lem (λ k. is_digit (get_or digits k 0)) 16 d (unfold all_below in refl) h

AllDigits-append :
    (base : ℕ) (s t : List ℕ) → AllDigits base s → AllDigits base t → AllDigits base (s ++ t)
AllDigits-append base [] t a b = b
AllDigits-append base (c ∷ s) t (d, l, a) b = (d, l, AllDigits-append base s t a b)

AllDigits-put_from : (base : ℕ) (s : List ℕ) → AllDigits base s → AllDigits base (put_from s)
unfolding put_from
AllDigits-put_from base [] a = tt
AllDigits-put_from base (c ∷ s) (d, l, a) =
    AllDigits-append base (put_from s) (c ∷ []) (AllDigits-put_from base s a) (d, l, tt)

AllDigits-last :
    (base : ℕ) (b : Bool) (s : List ℕ) → AllDigits base s → AllDigits base (if b then [] else s)
AllDigits-last base true s a = tt
AllDigits-last base false s a = a

AllDigits-convert : (fuel base x : ℕ) → IsBase base → AllDigits base (convert fuel base x)
unfolding convert
AllDigits-convert zero base x b = tt
AllDigits-convert (suc fuel) base x b =
    let (_, small, _, less) = divide base b x in
    (
      is_digit-digits (x % base) small,
      omega (arith, digit-digits (x % base) small, less),
      AllDigits-last base (x / base == 0) (convert fuel base (x / base))
          (AllDigits-convert fuel base (x / base) b),
    )

minus : Bool → List ℕ
minus b = if b then b'-' ∷ [] else []

put_from-minus : (b : Bool) → put_from (minus b) ≡ minus b
unfolding put_from minus
put_from-minus true = refl
put_from-minus false = refl

length-minus : (b : Bool) → length (minus b) ≤ 1
unfolding minus
length-minus true = omega arith
length-minus false = omega arith

-- In base 10 or 16, printint prints a minus sign exactly for a negative int that is to have its
-- sign, and then one or more digits of the base, which are the magnitude, and stores at most 11
-- bytes.
pub printint_lem :
    (xx base : ℕ) (sign : Bool)
    → xx < 2 ^ 32
    → IsBase base
    → (text : List ℕ) × (printint xx base sign
        ≡ (if negative xx sign then b'-' ∷ [] else []) ++ text)
      × (number base 0 text ≡ magnitude xx sign)
      × (1 ≤ length text)
      × AllDigits base text
      × (length (stored xx base sign) ≤ 11)
unfolding printint stored minus
printint_lem xx base sign h b =
    let x = magnitude xx sign in
    let small : x < 2 ^ 32 = ground (arith, h) in
    let ds = convert 32 base x in
    (
      put_from ds,
      put_from-append ds (minus (negative xx sign))
          ∙ ap (λ l. l ++ put_from ds) (put_from-minus (negative xx sign)),
      number-put_from base ds ∙ value-convert 32 base x b small,
      omega (arith, length-put_from ds, convert_nonempty 31 base x),
      AllDigits-put_from base ds (AllDigits-convert 32 base x b),
      omega (
        arith,
        length-append ds (minus (negative xx sign)),
        length-minus (negative xx sign),
        length-convert 32 base x 9 b (omega (arith, small)),
      ),
    )
