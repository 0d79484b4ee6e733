-- ===== src/Console/Editing.antt =====
-- consoleintr of xv6-public/console.c edits the line that its counters enclose.
use modificacion_sistema_ope.Base.{
  ℕ, zero, suc, ◌+◌, ◌%◌, ◌^◌, ◌<◌, ◌≤◌, ◌≡◌, ◌≢◌, ◌⊎◌, inl, inr, refl, arith, ap, sym, ◌∙◌, subst,
  List, [], ◌∷◌, ◌++◌, length, length-append, append_assoc, append-nil, replicate, true, false,
  ◌==◌, if◌then◌else◌,
}
use modificacion_sistema_ope.Console.Defs.{
  Input, input_buf, newline, backspace, kill_line, erase, sub_uint,
}
use modificacion_sistema_ope.Console.Spec.{Editor, held, drop_last}
use modificacion_sistema_ope.Console.Window.{Ring, Ring-init}

abbrev pub NoNewline : List ℕ → Type 0
NoNewline [] = Unit
NoNewline (x ∷ xs) = (x ≢ newline) × NoNewline xs

-- The bytes between r and w are `ready`, those between w and e the line, and a full buffer has
-- been entered.
pub record Shows (i : Input) (l : Editor) : Type 0 where
  pub small : i.r < 2 ^ 32
  pub at_w : i.w ≡ (i.r + length l.ready) % 2 ^ 32
  pub at_e : i.e ≡ (i.r + length (held l)) % 2 ^ 32
  pub ring : Ring i.buf i.r (held l)
  pub fits : length (held l) ≤ input_buf
  pub open_line : NoNewline l.line
  pub entered : length (held l) ≡ input_buf → l.line ≡ []

NoNewline-init : (xs : List ℕ) (x : ℕ) → NoNewline (xs ++ x ∷ []) → NoNewline xs × (x ≢ newline)
NoNewline-init [] x (h, _) = (tt, h)
NoNewline-init (y ∷ xs) x (h, hs) = let (k, n) = NoNewline-init xs x hs in ((h, k), n)

pub NoNewline-snoc : (xs : List ℕ) (x : ℕ) → NoNewline xs → x ≢ newline → NoNewline (xs ++ x ∷ [])
NoNewline-snoc [] x h n = (n, tt)
NoNewline-snoc (y ∷ xs) x (h, hs) n = (h, NoNewline-snoc xs x hs n)

snoc-cases : (xs : List ℕ) → (xs ≡ []) ⊎ ((ys : List ℕ) × (y : ℕ) × (xs ≡ ys ++ y ∷ []))
snoc-cases [] = inl refl
snoc-cases (x ∷ xs) = elim (snoc-cases xs) [
  | inl e ↦ inr ([], x, ap (λ l. x ∷ l) e)
  | inr (ys, y, e) ↦ inr (x ∷ ys, y, ap (λ l. x ∷ l) e)
]

drop_last-snoc : (xs : List ℕ) (x : ℕ) → drop_last (xs ++ x ∷ []) ≡ xs
drop_last-snoc [] x = refl
drop_last-snoc (y ∷ []) x = refl
drop_last-snoc (y ∷ z ∷ xs) x = ap (λ l. y ∷ l) (drop_last-snoc (z ∷ xs) x)

-- The last byte of a line is behind e, and is no newline.
record Last (i : Input) (q ys : List ℕ) : Type 0 where
  apart : (i.e == i.w) ≡ false
  plain : (i.buf (sub_uint i.e 1 % input_buf) == newline) ≡ false
  back : Shows (record i { e = sub_uint i.e 1 }) (record { ready = q; line = ys })

Shows-Last :
    (i : Input) (q ys : List ℕ) (y : ℕ)
    → Shows i (record { ready = q; line = ys ++ y ∷ [] })
    → Last i q ys
Shows-Last i q ys y s =
    let whole : length (q ++ (ys ++ y ∷ [])) ≡ suc (length (q ++ ys)) =
      omega
        (arith, length-append q (ys ++ y ∷ []), length-append ys (y ∷ []), length-append q ys) in
    let (ring, last) =
      Ring-init i.buf i.r (q ++ ys) y
        (subst (Ring i.buf i.r) (sym (append_assoc q ys (y ∷ []))) s.ring) in
    let (plain, n) = NoNewline-init ys y s.open_line in
    let here : sub_uint i.e 1 ≡ (i.r + length (q ++ ys)) % 2 ^ 32 =
      omega (arith, s.at_e, whole, s.small, s.fits) in
    let place : sub_uint i.e 1 % input_buf ≡ (i.r + length (q ++ ys)) % input_buf =
      omega (arith, here) in
    record {
      apart = ground (arith, s.at_e, s.at_w, whole, length-append q ys, s.small, s.fits);
      plain = ground (arith, place, last, n);
      back = record {
        small = s.small;
        at_w = s.at_w;
        at_e = here;
        ring = ring;
        fits = omega (arith, s.fits, whole);
        open_line = plain;
        entered = λ e. absurd (omega (arith, e, s.fits, whole));
      };
    }

empty_line :
    (i : Input) (q : List ℕ) → Shows i (record { ready = q; line = [] }) → (i.e == i.w) ≡ true
empty_line i q s = ground (arith, s.at_e, s.at_w, append-nil q)

-- The loops return an input that shows `l`, and give `echo` to consputc.
abbrev pub After : Input × List ℕ → Editor → List ℕ → Type 0
After out l echo = Shows out.0 l × (out.1 ≡ echo)

pub erase-After :
    (i : Input) (q line : List ℕ)
    → Shows i (record { ready = q; line = line })
    → After
        (erase i)
        (record { ready = q; line = drop_last line })
        (if length line == 0 then [] else backspace ∷ [])
erase-After i q line s = elim (snoc-cases line) [
  | inl e ↦
      let t = subst (λ x. Shows i (record { ready = q; line = x })) e s in
      let stop : erase i ≡ (i, []) = unfold erase in ground (arith, empty_line i q t) in
      subst
        (λ x.
          After (erase i) (record { ready = q; line = drop_last x })
            (if length x == 0 then [] else backspace ∷ []))
        (sym e) (subst (λ o. After o (record { ready = q; line = [] }) []) (sym stop) (t, refl))
  | inr (ys, y, e) ↦
      let t = Shows-Last i q ys y (subst (λ x. Shows i (record { ready = q; line = x })) e s) in
      let go : erase i ≡ (record i { e = sub_uint i.e 1 }, backspace ∷ []) =
        unfold erase in ground (arith, t.apart) in
      let some : (if length line == 0 then [] else backspace ∷ []) ≡ backspace ∷ [] =
        ground (arith, ap length e, length-append ys (y ∷ [])) in
      subst
        (λ o.
          After o (record { ready = q; line = drop_last line })
            (if length line == 0 then [] else backspace ∷ []))
        (sym go)
        (
          subst (λ x. Shows (record i { e = sub_uint i.e 1 }) (record { ready = q; line = x }))
              (sym (ap drop_last e ∙ drop_last-snoc ys y)) t.back,
          sym some,
        )
]

pub kill_line-After :
    (fuel : ℕ) (i : Input) (q line : List ℕ)
    → length line ≤ fuel
    → Shows i (record { ready = q; line = line })
    → After (kill_line fuel i) (record { ready = q; line = [] }) (replicate (length line) backspace)
kill_line-After zero i q [] h s = unfold kill_line in (s, refl)
kill_line-After zero i q (x ∷ line) h s = absurd (omega arith)
kill_line-After (suc fuel) i q line h s = elim (snoc-cases line) [
  | inl e ↦
      let t = subst (λ x. Shows i (record { ready = q; line = x })) e s in
      let stop : kill_line (suc fuel) i ≡ (i, []) =
        unfold kill_line in ground (arith, empty_line i q t) in
      subst (λ o. After o (record { ready = q; line = [] }) (replicate (length line) backspace))
        (sym stop) (t, ap (λ x. replicate (length x) backspace) (sym e))
  | inr (ys, y, e) ↦
      let t = Shows-Last i q ys y (subst (λ x. Shows i (record { ready = q; line = x })) e s) in
      let j : Input = record i { e = sub_uint i.e 1 } in
      let (shows, echo) =
        kill_line-After fuel j q ys (omega (arith, h, ap length e, length-append ys (y ∷ [])))
          t.back in
      let go : kill_line (suc fuel) i ≡ ((kill_line fuel j).0, backspace ∷ (kill_line fuel j).1) =
        unfold kill_line in ground (arith, t.apart, t.plain) in
      let count : length line ≡ suc (length ys) =
        omega (arith, ap length e, length-append ys (y ∷ [])) in
      subst (λ o. After o (record { ready = q; line = [] }) (replicate (length line) backspace))
        (sym go) (shows, ap (λ x. backspace ∷ x) echo ∙ ap (λ n. replicate n backspace) (sym count))
]
