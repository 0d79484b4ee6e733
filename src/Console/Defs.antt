-- ===== src/Console/Defs.antt =====
-- printint, consoleintr and consoleread of xv6-public/console.c. cons.lock makes consoleintr one
-- step, and consoleread one from each sleep to the next.
use modificacion_sistema_ope.Base.{
  ℕ, zero, suc, ◌+◌, ◌-◌, ◌/◌, ◌%◌, ◌^◌, Bool, true, false, not, ◌&&◌, ◌||◌, List, [], ◌∷◌, ◌++◌,
  ◌==◌, ltb, leb, update, if◌then◌else◌, get_or,
}

abbrev pub input_buf : ℕ
input_buf = 128

-- `buf` is the array, a function of the index; r, w and e are uints.
pub record Input : Type 0 where
  pub buf : ℕ → ℕ
  pub r : ℕ
  pub w : ℕ
  pub e : ℕ

-- The static `input` at boot.
abbrev pub boot : Input
boot = record { buf = λ j. 0; r = 0; w = 0; e = 0 }

abbrev pub add_uint : ℕ → ℕ → ℕ
add_uint a b = (a + b) % 2 ^ 32

abbrev pub sub_uint : ℕ → ℕ → ℕ
sub_uint a b = (a + 2 ^ 32 - b) % 2 ^ 32

-- C('P'), C('U'), C('H') and C('D')
abbrev pub ctrl_p : ℕ
ctrl_p = 16

abbrev pub ctrl_u : ℕ
ctrl_u = 21

abbrev pub ctrl_h : ℕ
ctrl_h = 8

abbrev pub ctrl_d : ℕ
ctrl_d = 4

abbrev pub delete : ℕ
delete = 0x7f

abbrev pub newline : ℕ
newline = 10

abbrev pub return : ℕ
return = 13

-- What consputc gets for a byte that is taken back.
abbrev pub backspace : ℕ
backspace = 0x100

-- The input, what consputc got, whether wakeup(&input.r) was called, and doprocdump.
pub record Typed (A : Type 0) : Type 0 where
  pub input : A
  pub echo : List ℕ
  pub woken : Bool
  pub procdump : Bool

-- The loop of C('U'). At most INPUT_BUF bytes are behind input.e.
unfoldable pub kill_line : ℕ → Input → Input × List ℕ
kill_line zero i = (i, [])
kill_line (suc fuel) i =
    let rest : Input × List ℕ = kill_line fuel (record i { e = sub_uint i.e 1 }) in
    if not (i.e == i.w) && not (i.buf (sub_uint i.e 1 % input_buf) == newline)
    then (rest.0, backspace ∷ rest.1)
    else (i, [])

-- `case C('H'): case '\x7f'`
unfoldable pub erase : Input → Input × List ℕ
erase i = if not (i.e == i.w) then (record i { e = sub_uint i.e 1 }, backspace ∷ []) else (i, [])

-- input.buf[input.e++ % INPUT_BUF] = c, a char.
abbrev pub store_char : ℕ → Input → Input
store_char c i = record i { buf = update i.buf (i.e % input_buf) (c % 256); e = add_uint i.e 1 }

-- `default`: `c` after the test of '\r'.
unfoldable pub enter : ℕ → Input → Typed Input
enter c i =
    let j : Input = store_char c i in
    if c == newline || c == ctrl_d || j.e == add_uint j.r input_buf
    then record { input = record j { w = j.e }; echo = c ∷ []; woken = true; procdump = false }
    else record { input = j; echo = c ∷ []; woken = false; procdump = false }

-- consoleintr's switch on a byte.
unfoldable pub key : ℕ → Input → Typed Input
key c i =
    if c == ctrl_p
    then record { input = i; echo = []; woken = false; procdump = true }
    else if c == ctrl_u
    then (let (j, out) = kill_line input_buf i in
        record { input = j; echo = out; woken = false; procdump = false })
    else if c == ctrl_h || c == delete
    then (let (j, out) = erase i in
        record { input = j; echo = out; woken = false; procdump = false })
    else if not (c == 0) && ltb (sub_uint i.e i.r) input_buf
    then enter (if c == return then newline else c) i
    else record { input = i; echo = []; woken = false; procdump = false }

-- consoleintr on what getc returns until it is negative.
unfoldable pub consoleintr : List ℕ → Input → Typed Input
consoleintr [] i = record { input = i; echo = []; woken = false; procdump = false }
consoleintr (c ∷ rest) i =
    let t : Typed Input = key c i in
    let u : Typed Input = consoleintr rest t.input in
    record {
      input = u.input;
      echo = t.echo ++ u.echo;
      woken = t.woken || u.woken;
      procdump = t.procdump || u.procdump;
    }

-- How consoleread goes on: it returns the bytes it stored (and their number), it returns -1, or
-- it sleeps on &input.r with `n` bytes to go after the stored ones.
pub data Outcome : Type 0 where
  returns : List ℕ → Outcome
  fails : Outcome
  sleeps : (n : ℕ) → List ℕ → Outcome

-- From the loop's test on, with `n` bytes of `target` to go and the bytes `dst` stored.
unfoldable pub consoleread : ℕ → Bool → ℕ → List ℕ → Input → Outcome × Input
consoleread target killed zero dst i = (returns dst, i)
consoleread target killed (suc n) dst i =
    let c : ℕ = i.buf (i.r % input_buf) in
    let j : Input = record i { r = add_uint i.r 1 } in
    let rest : Outcome × Input = consoleread target killed n (dst ++ c ∷ []) j in
    if i.r == i.w
    then (if killed then fails else sleeps (suc n) dst, i)
    else if c == ctrl_d
    then (returns dst, if ltb (suc n) target then record j { r = sub_uint j.r 1 } else j)
    else if c == newline
    then (returns (dst ++ c ∷ []), j)
    else rest

abbrev pub digits : List ℕ
digits =
    b'0' ∷ b'1' ∷ b'2' ∷ b'3' ∷ b'4' ∷ b'5' ∷ b'6' ∷ b'7' ∷ b'8' ∷ b'9' ∷ b'a' ∷ b'b' ∷ b'c' ∷ b'd'
    ∷ b'e' ∷ b'f' ∷ []

-- The do-while loop of printint: what it stores in buf, which has 16 places.
unfoldable pub convert : ℕ → ℕ → ℕ → List ℕ
convert zero base x = []
convert (suc fuel) base x =
    let rest : List ℕ = convert fuel base (x / base) in
    get_or digits (x % base) 0 ∷ (if x / base == 0 then [] else rest)

-- The contents of buf after the sign; an int is its bit pattern.
unfoldable pub stored : ℕ → ℕ → Bool → List ℕ
stored xx base sign =
    let negative : Bool = sign && leb (2 ^ 31) xx in
    let x : ℕ = if negative then 2 ^ 32 - xx else xx in
    convert 32 base x ++ (if negative then b'-' ∷ [] else [])

unfoldable pub put_from : List ℕ → List ℕ
put_from [] = []
put_from (c ∷ s) = put_from s ++ c ∷ []

-- What printint gives to consputc: while(--i >= 0) consputc(buf[i]).
unfoldable pub printint : ℕ → ℕ → Bool → List ℕ
printint xx base sign = put_from (stored xx base sign)
