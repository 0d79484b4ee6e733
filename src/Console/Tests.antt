-- ===== src/Console/Tests.antt =====
-- Runs of the console.
use modificacion_sistema_ope.Base.{
  ℕ, zero, suc, ◌^◌, ◌<◌, ◌≤◌, ◌≡◌, ◌≢◌, refl, arith, inl, List, [], ◌∷◌, length, replicate, true,
  false,
}
use modificacion_sistema_ope.Console.Defs.{
  boot, input_buf, ctrl_h, ctrl_d, newline, return, backspace, erase, enter, key, consoleintr,
  returns, sleeps, consoleread, convert, stored, put_from, printint, sub_uint,
}
use modificacion_sistema_ope.Console.Spec.{
  Event, keys, read, typed, got, editor_run, console_run, console_after,
}
use modificacion_sistema_ope.Console.Typing.{AllBytes}
use modificacion_sistema_ope.Console.Refine.{ByteKeys, console_run-refines, full_buffer_ready}
use modificacion_sistema_ope.Console.Numbers.{AllDigits, number, printint_lem}

-- lx, backspace, s, return, and ^D; read twice, and once more.
abbrev session : List Event
session =
    keys (b'l' ∷ b'x' ∷ ctrl_h ∷ b's' ∷ return ∷ [])
    ∷ read false 10 []
    ∷ keys (ctrl_d ∷ [])
    ∷ read false 10 []
    ∷ read false 10 []
    ∷ []

session_replies :
    console_run boot session
    ≡ typed (b'l' ∷ b'x' ∷ backspace ∷ b's' ∷ newline ∷ []) true false
      ∷ got (returns (b'l' ∷ b's' ∷ newline ∷ []))
      ∷ typed (ctrl_d ∷ []) true false
      ∷ got (returns [])
      ∷ got (sleeps 10 [])
      ∷ []
unfolding consoleintr key enter erase consoleread
session_replies = refl

session-ByteKeys : ByteKeys session
session-ByteKeys = (
  (omega arith, (omega arith, (omega arith, (omega arith, (omega arith, tt))))),
  ((omega arith, tt), tt),
)

console_run-refines_example :
    console_run boot session ≡ editor_run (record { ready = []; line = [] }) session
console_run-refines_example = console_run-refines session session-ByteKeys

-- A line that is too long to be entered by a return.
abbrev long_line : List Event
long_line = keys (replicate input_buf b'x') ∷ []

AllBytes-replicate : (n c : ℕ) → c < 256 → AllBytes (replicate n c)
AllBytes-replicate zero c h = tt
AllBytes-replicate (suc n) c h = (h, AllBytes-replicate n c h)

long_line_full :
    sub_uint (console_after boot long_line).e (console_after boot long_line).r ≡ input_buf
unfolding consoleintr key enter
long_line_full = refl

full_buffer_ready_example : (console_after boot long_line).r ≢ (console_after boot long_line).w
full_buffer_ready_example =
    full_buffer_ready long_line (AllBytes-replicate input_buf b'x' (omega arith), tt) long_line_full

-- The least int.
least :
    printint (2 ^ 31) 10 true
    ≡ b'-' ∷ b'2' ∷ b'1' ∷ b'4' ∷ b'7' ∷ b'4' ∷ b'8' ∷ b'3' ∷ b'6' ∷ b'4' ∷ b'8' ∷ []
unfolding printint stored convert put_from
least = refl

printint_lem_example :
    (text : List ℕ) × (printint (2 ^ 31) 10 true ≡ b'-' ∷ text)
    × (number 10 0 text ≡ 2 ^ 31)
    × (1 ≤ length text)
    × AllDigits 10 text
    × (length (stored (2 ^ 31) 10 true) ≤ 11)
printint_lem_example = printint_lem (2 ^ 31) 10 true (omega arith) (inl refl)
