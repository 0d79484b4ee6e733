-- ===== src/Console/Spec.antt =====
-- What the console promises: an editor of one line before a queue of the bytes entered.
use modificacion_sistema_ope.Base.{
  ℕ, zero, suc, ◌+◌, ◌%◌, Bool, true, false, not, ◌&&◌, ◌||◌, List, [], ◌∷◌, ◌++◌, ◌==◌, ltb,
  if◌then◌else◌, length, replicate,
}
use modificacion_sistema_ope.Console.Defs.{
  Input, input_buf, ctrl_p, ctrl_u, ctrl_h, ctrl_d, delete, newline, return, backspace, Typed,
  consoleintr, Outcome, returns, fails, sleeps, consoleread,
}

-- The bytes that can be read, and the line that can still be changed.
pub record Editor : Type 0 where
  pub ready : List ℕ
  pub line : List ℕ

abbrev pub held : Editor → List ℕ
held l = l.ready ++ l.line

abbrev pub drop_last : List ℕ → List ℕ
drop_last [] = []
drop_last (x ∷ []) = []
drop_last (x ∷ y ∷ xs) = x ∷ drop_last (y ∷ xs)

-- A byte goes to the end of the line; a newline, an end of file or a full buffer enters it.
unfoldable pub add : ℕ → Editor → Typed Editor
add c l =
    let line = l.line ++ c % 256 ∷ [] in
    if c == newline || c == ctrl_d || suc (length (held l)) == input_buf
    then record {
      input = record { ready = l.ready ++ line; line = [] };
      echo = c ∷ [];
      woken = true;
      procdump = false;
    }
    else record { input = record l { line = line }; echo = c ∷ []; woken = false; procdump = false }

unfoldable pub edit : ℕ → Editor → Typed Editor
edit c l =
    if c == ctrl_p
    then record { input = l; echo = []; woken = false; procdump = true }
    else if c == ctrl_u
    then record {
      input = record l { line = [] };
      echo = replicate (length l.line) backspace;
      woken = false;
      procdump = false;
    }
    else if c == ctrl_h || c == delete
    then record {
      input = record l { line = drop_last l.line };
      echo = if length l.line == 0 then [] else backspace ∷ [];
      woken = false;
      procdump = false;
    }
    else if not (c == 0) && ltb (length (held l)) input_buf
    then add (if c == return then newline else c) l
    else record { input = l; echo = []; woken = false; procdump = false }

unfoldable pub edit_all : List ℕ → Editor → Typed Editor
edit_all [] l = record { input = l; echo = []; woken = false; procdump = false }
edit_all (c ∷ rest) l =
    let t : Typed Editor = edit c l in
    let u : Typed Editor = edit_all rest t.input in
    record {
      input = u.input;
      echo = t.echo ++ u.echo;
      woken = t.woken || u.woken;
      procdump = t.procdump || u.procdump;
    }

-- Up to `n` bytes of the queue, to the end of a line or before an end of file, which only a read
-- without bytes takes.
unfoldable pub take_line : Bool → ℕ → List ℕ → List ℕ → Outcome × List ℕ
take_line killed zero dst q = (returns dst, q)
take_line killed (suc n) dst [] = (if killed then fails else sleeps (suc n) dst, [])
take_line killed (suc n) dst (c ∷ q) =
    let rest : Outcome × List ℕ = take_line killed n (dst ++ c ∷ []) q in
    if c == ctrl_d
    then (returns dst, if length dst == 0 then q else c ∷ q)
    else if c == newline
    then (returns (dst ++ c ∷ []), q)
    else rest

-- What happens at the console. A sleeper that is woken goes on by another `read`.
pub data Event : Type 0 where
  keys : List ℕ → Event
  read : (killed : Bool) (n : ℕ) (dst : List ℕ) → Event

pub data Reply : Type 0 where
  typed : List ℕ → Bool → Bool → Reply
  got : Outcome → Reply

abbrev pub editor_step : Editor → Event → Reply × Editor
editor_step l (keys cs) = let t = edit_all cs l in (typed t.echo t.woken t.procdump, t.input)
editor_step l (read killed n dst) =
    let (o, q) = take_line killed n dst l.ready in (got o, record l { ready = q })

abbrev pub editor_run : Editor → List Event → List Reply
editor_run l [] = []
editor_run l (e ∷ es) = (editor_step l e).0 ∷ editor_run (editor_step l e).1 es

-- The same by the functions of console.c.
abbrev pub console_step : Input → Event → Reply × Input
console_step i (keys cs) = let t = consoleintr cs i in (typed t.echo t.woken t.procdump, t.input)
console_step i (read killed n dst) =
    let (o, j) = consoleread (n + length dst) killed n dst i in (got o, j)

abbrev pub console_run : Input → List Event → List Reply
console_run i [] = []
console_run i (e ∷ es) = (console_step i e).0 ∷ console_run (console_step i e).1 es

-- The states they end in.
abbrev pub editor_after : Editor → List Event → Editor
editor_after l [] = l
editor_after l (e ∷ es) = editor_after (editor_step l e).1 es

abbrev pub console_after : Input → List Event → Input
console_after i [] = i
console_after i (e ∷ es) = console_after (console_step i e).1 es
