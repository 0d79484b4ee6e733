-- ===== src/Console/Refine.antt =====
-- The console of xv6-public/console.c refines its editor, over every sequence of events.
use modificacion_sistema_ope.Base.{
  ℕ, zero, suc, ◌+◌, ◌%◌, ◌≡◌, ◌≢◌, refl, arith, ap, ap₂, sym, subst, List, [], ◌∷◌, ◌++◌, length,
  length-append, Bool, true, false, ◌==◌, if◌then◌else◌, Bool-cases, inl, inr,
}
use modificacion_sistema_ope.Console.Defs.{
  Input, input_buf, ctrl_d, newline, add_uint, sub_uint, Outcome, returns, fails, sleeps,
  consoleread, boot,
}
use modificacion_sistema_ope.Console.Spec.{
  Editor, held, take_line, Event, keys, read, got, editor_step, editor_run, editor_after,
  console_step, console_run, console_after,
}
use modificacion_sistema_ope.Console.Window.{Ring-mod}
use modificacion_sistema_ope.Console.Editing.{Shows}
use modificacion_sistema_ope.Console.Typing.{AllBytes, consoleintr-Agree}

-- What consoleread returns, and what it leaves of the input.
abbrev Took : Outcome × Input → Outcome × List ℕ → List ℕ → Type 0
Took out spec line = (out.0 ≡ spec.0) × Shows out.1 (record { ready = spec.1; line = line })

took :
    (out : Outcome × Input) (spec : Outcome × List ℕ) (line : List ℕ) (o : Outcome) (j : Input)
    (q : List ℕ)
    → out ≡ (o, j)
    → spec ≡ (o, q)
    → Shows j (record { ready = q; line = line })
    → Took out spec line
took out spec line o j q p r s =
    subst (λ x. Took out x line) (sym r) (subst (λ x. Took x (o, q) line) (sym p) (refl, s))

abbrev next : Input → Input
next i = record i { r = add_uint i.r 1 }

next-Shows :
    (i : Input) (c : ℕ) (q line : List ℕ)
    → Shows i (record { ready = c ∷ q; line = line })
    → Shows (next i) (record { ready = q; line = line })
next-Shows i c q line s = record {
  small = omega arith;
  at_w = omega (arith, s.at_w);
  at_e = omega (arith, s.at_e);
  ring = Ring-mod i.buf (suc i.r) (add_uint i.r 1) (q ++ line) (omega arith) s.ring.1;
  fits = omega (arith, s.fits);
  open_line = s.open_line;
  entered = λ e. absurd (omega (arith, e, s.fits));
}

-- A byte that is there, with what the rest of the loop does.
consoleread-step :
    (target : ℕ) (killed : Bool) (n : ℕ) (dst : List ℕ) (i : Input) (c : ℕ) (q line : List ℕ)
    → target ≡ suc n + length dst
    → Shows i (record { ready = c ∷ q; line = line })
    → Took
        (consoleread target killed n (dst ++ c ∷ []) (next i))
        (take_line killed n (dst ++ c ∷ []) q)
        line
    → Took (consoleread target killed (suc n) dst i) (take_line killed (suc n) dst (c ∷ q)) line
consoleread-step target killed n dst i c q line e s (o, shows) =
    let some_left : (i.r == i.w) ≡ false =
      ground (arith, s.at_w, s.small, s.fits, length-append q line) in
    let c_here : i.buf (i.r % input_buf) ≡ c = s.ring.0 in
    let moved = next-Shows i c q line s in
    let back : sub_uint (add_uint i.r 1) 1 ≡ i.r = omega (arith, s.small) in
    let again : record (next i) { r = sub_uint (add_uint i.r 1) 1 } ≡ i =
      ap (λ r. record i { r = r }) back in
    let bytes = dst ++ c ∷ [] in
    elim (Bool-cases (c == ctrl_d)) [
      | inl d ↦ elim (Bool-cases (length dst == 0)) [
        | inl z ↦
            took _ _ line (returns dst) (next i) q
              (unfold consoleread in ground (arith, some_left, c_here, d, e, z))
              (unfold take_line in ground (arith, d, z)) moved
        | inr z ↦
            took _ _ line (returns dst) i (c ∷ q)
              (unfold consoleread in ground (arith, some_left, c_here, d, e, z, again))
              (unfold take_line in ground (arith, d, z)) s
      ]
      | inr d ↦ elim (Bool-cases (c == newline)) [
        | inl w ↦
            took _ _ line (returns bytes) (next i) q
              (unfold consoleread in ground (arith, some_left, c_here, d, w))
              (unfold take_line in ground (arith, d, w)) moved
        | inr w ↦
            took _ _ line (take_line killed n bytes q).0
              (consoleread target killed n bytes (next i)).1 (take_line killed n bytes q).1
              (unfold consoleread in ground (arith, some_left, c_here, d, w, o))
              (unfold take_line in ground (arith, d, w)) shows
      ]
    ]

consoleread-Took :
    (target : ℕ) (killed : Bool) (n : ℕ) (dst : List ℕ) (i : Input) (q line : List ℕ)
    → target ≡ n + length dst
    → Shows i (record { ready = q; line = line })
    → Took (consoleread target killed n dst i) (take_line killed n dst q) line
consoleread-Took target killed zero dst i q line e s = unfold consoleread take_line in (refl, s)
consoleread-Took target killed (suc n) dst i [] line e s =
    let none_left : (i.r == i.w) ≡ true = ground (arith, s.at_w, s.small) in
    let stop : consoleread target killed (suc n) dst i
        ≡ (if killed then fails else sleeps (suc n) dst, i) =
      unfold consoleread in ground (arith, none_left) in
    subst (λ o. Took o (take_line killed (suc n) dst []) line) (sym stop)
      (unfold take_line in (refl, s))
consoleread-Took target killed (suc n) dst i (c ∷ q) line e s =
    consoleread-step target killed n dst i c q line e s (
      consoleread-Took target killed n (dst ++ c ∷ []) (next i) q line
        (omega (arith, e, length-append dst (c ∷ []))) (next-Shows i c q line s))

abbrev pub ByteKeys : List Event → Type 0
ByteKeys [] = Unit
ByteKeys (keys cs ∷ es) = AllBytes cs × ByteKeys es
ByteKeys (read killed n dst ∷ es) = ByteKeys es

steps-Shows :
    (e : Event) (i : Input) (l : Editor)
    → Shows i l
    → ByteKeys (e ∷ [])
    → ((console_step i e).0 ≡ (editor_step l e).0) × Shows (console_step i e).1 (editor_step l e).1
steps-Shows (keys cs) i l s (b, _) =
    let t = consoleintr-Agree cs i l b s in (cc (t.echo, t.woken, t.procdump), t.shows)
steps-Shows (read killed n dst) i l s b =
    let (o, shows) = consoleread-Took (n + length dst) killed n dst i l.ready l.line refl s in
    (ap got o, shows)

ByteKeys-head : (e : Event) (es : List Event) → ByteKeys (e ∷ es) → ByteKeys (e ∷ []) × ByteKeys es
ByteKeys-head (keys cs) es (b, bs) = ((b, tt), bs)
ByteKeys-head (read killed n dst) es bs = (tt, bs)

run-Shows :
    (es : List Event) (i : Input) (l : Editor)
    → Shows i l
    → ByteKeys es
    → (console_run i es ≡ editor_run l es) × Shows (console_after i es) (editor_after l es)
run-Shows [] i l s b = (refl, s)
run-Shows (e ∷ es) i l s b =
    let (h, t) = ByteKeys-head e es b in
    let (r, shows) = steps-Shows e i l s h in
    let (rs, last) = run-Shows es (console_step i e).1 (editor_step l e).1 shows t in
    (ap₂ (λ x xs. x ∷ xs) r rs, last)

boot-Shows : Shows boot (record { ready = []; line = [] })
boot-Shows = record {
  small = omega arith;
  at_w = refl;
  at_e = refl;
  ring = tt;
  fits = omega arith;
  open_line = tt;
  entered = λ e. refl;
}

-- From boot, over any sequence of keys and reads, consoleintr and consoleread give the replies of
-- the editor.
pub console_run-refines :
    (es : List Event)
    → ByteKeys es
    → console_run boot es ≡ editor_run (record { ready = []; line = [] }) es
console_run-refines es b = (run-Shows es boot (record { ready = []; line = [] }) boot-Shows b).0

full-ready : (i : Input) (l : Editor) → Shows i l → sub_uint i.e i.r ≡ input_buf → i.r ≢ i.w
full-ready i l s full z =
    let whole : length (held l) ≡ input_buf = omega (arith, full, s.at_e, s.small, s.fits) in
    let count : length l.ready ≡ input_buf =
      omega (arith, whole, length-append l.ready l.line, ap length (s.entered whole)) in
    absurd (omega (arith, count, s.at_w, z, s.small))

-- From boot, over any sequence of keys and reads, where the buffer is full and takes no more keys,
-- there is something to read.
pub full_buffer_ready :
    (es : List Event)
    → ByteKeys es
    → sub_uint (console_after boot es).e (console_after boot es).r ≡ input_buf
    → (console_after boot es).r ≢ (console_after boot es).w
full_buffer_ready es b =
    full-ready (console_after boot es) (editor_after (record { ready = []; line = [] }) es)
      (run-Shows es boot (record { ready = []; line = [] }) boot-Shows b).1
