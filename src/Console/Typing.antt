-- ===== src/Console/Typing.antt =====
-- consoleintr of xv6-public/console.c is the editor of lines.
use modificacion_sistema_ope.Base.{
  ℕ, suc, ◌+◌, ◌%◌, ◌^◌, ◌<◌, ◌≡◌, inl, inr, refl, arith, ap, ap₂, sym, ◌∙◌, subst, List, [], ◌∷◌,
  ◌++◌, length, length-append, append_assoc, append-nil, replicate, Bool, true, false, not, ◌&&◌,
  ◌||◌, update, ◌==◌, ltb, if◌then◌else◌, Bool-cases,
}
use modificacion_sistema_ope.Console.Defs.{
  Input, input_buf, ctrl_p, ctrl_u, ctrl_h, ctrl_d, delete, newline, return, backspace, Typed,
  kill_line, erase, enter, key, consoleintr, add_uint, sub_uint, store_char,
}
use modificacion_sistema_ope.Console.Spec.{Editor, held, drop_last, add, edit, edit_all}
use modificacion_sistema_ope.Console.Window.{Ring, Ring-snoc, Ring-update}
use modificacion_sistema_ope.Console.Editing.{Shows, NoNewline-snoc, erase-After, kill_line-After}

-- A call of the source and its counterpart in the specification.
pub record Agree (t : Typed Input) (u : Typed Editor) : Type 0 where
  pub shows : Shows t.input u.input
  pub echo : t.echo ≡ u.echo
  pub woken : t.woken ≡ u.woken
  pub procdump : t.procdump ≡ u.procdump

abbrev result : {A : Type 0} → A → List ℕ → Bool → Bool → Typed A
result a out woken dump = record { input = a; echo = out; woken = woken; procdump = dump }

agree :
    (t : Typed Input) (u : Typed Editor) (i : Input) (l : Editor) (out : List ℕ) (woken dump : Bool)
    → t ≡ result i out woken dump
    → u ≡ result l out woken dump
    → Shows i l
    → Agree t u
agree t u i l out woken dump p q s = subst (Agree t) (sym q) (
    subst (λ x. Agree x (result l out woken dump)) (sym p)
      (record { shows = s; echo = refl; woken = refl; procdump = refl }))

-- input.buf[input.e++ % INPUT_BUF] = c, before the test that enters the line.
record Stored (c : ℕ) (i : Input) (l : Editor) : Type 0 where
  e_small : (store_char c i).e ≡ (i.r + suc (length (held l))) % 2 ^ 32
  bytes : Ring (store_char c i).buf i.r (l.ready ++ (l.line ++ c % 256 ∷ []))
  count : length (l.ready ++ (l.line ++ c % 256 ∷ [])) ≡ suc (length (held l))
  full : ((store_char c i).e == add_uint i.r input_buf) ≡ (suc (length (held l)) == input_buf)

Shows-Stored :
    (c : ℕ) (i : Input) (l : Editor) → Shows i l → length (held l) < input_buf → Stored c i l
Shows-Stored c i l s room =
    let n = length (held l) in
    let place : i.e % input_buf ≡ (i.r + n) % input_buf = omega (arith, s.at_e) in
    let next : (store_char c i).e ≡ (i.r + suc n) % 2 ^ 32 = omega (arith, s.at_e) in
    record {
      e_small = next;
      bytes = subst (Ring (store_char c i).buf i.r) (append_assoc l.ready l.line (c % 256 ∷ [])) (
          Ring-snoc (store_char c i).buf i.r (held l) (c % 256)
            (subst (λ k. Ring (update i.buf k (c % 256)) i.r (held l)) (sym place)
              (Ring-update i.buf i.r n (held l) (c % 256) (omega arith) room s.ring))
            (ground (arith, place)));
      count = omega (
        arith,
        length-append l.ready (l.line ++ c % 256 ∷ []),
        length-append l.line (c % 256 ∷ []),
        length-append l.ready l.line,
      );
      full = ground (arith, next, s.small, room);
    }

-- The byte does not enter the line.
stays :
    (c : ℕ) (i : Input) (l : Editor)
    → c < 256
    → Shows i l
    → length (held l) < input_buf
    → (c == newline || c == ctrl_d || suc (length (held l)) == input_buf) ≡ false
    → Shows (store_char c i) (record l { line = l.line ++ c % 256 ∷ [] })
stays c i l byte s room other =
    let t = Shows-Stored c i l s room in
    record {
      small = s.small;
      at_w = s.at_w;
      at_e = t.e_small ∙ ap (λ n. (i.r + n) % 2 ^ 32) (sym t.count);
      ring = t.bytes;
      fits = omega (arith, t.count, room);
      open_line =
          NoNewline-snoc l.line (c % 256) s.open_line
            (λ e. absurd (ground (arith, e, byte, other)));
      entered = λ e. absurd (ground (arith, e, t.count, other));
    }

-- The byte enters it.
enters :
    (c : ℕ) (i : Input) (l : Editor)
    → Shows i l
    → length (held l) < input_buf
    → Shows
        (record (store_char c i) { w = (store_char c i).e })
        (record { ready = l.ready ++ (l.line ++ c % 256 ∷ []); line = [] })
enters c i l s room =
    let t = Shows-Stored c i l s room in
    let all = l.ready ++ (l.line ++ c % 256 ∷ []) in
    record {
      small = s.small;
      at_w = t.e_small ∙ ap (λ n. (i.r + n) % 2 ^ 32) (sym t.count);
      at_e = t.e_small ∙ ap (λ n. (i.r + n) % 2 ^ 32) (sym (ap length (append-nil all) ∙ t.count));
      ring = subst (Ring (store_char c i).buf i.r) (sym (append-nil all)) t.bytes;
      fits = omega (arith, t.count, room, ap length (append-nil all));
      open_line = tt;
      entered = λ e. refl;
    }

enter-Agree :
    (c : ℕ) (i : Input) (l : Editor)
    → c < 256
    → Shows i l
    → length (held l) < input_buf
    → Agree (enter c i) (add c l)
enter-Agree c i l byte s room =
    let t = Shows-Stored c i l s room in
    elim (Bool-cases (c == newline || c == ctrl_d || suc (length (held l)) == input_buf)) [
      | inl h ↦
          agree (enter c i) (add c l) (record (store_char c i) { w = (store_char c i).e })
            (record { ready = l.ready ++ (l.line ++ c % 256 ∷ []); line = [] }) (c ∷ []) true false
            (unfold enter in ground (arith, h, t.full)) (unfold add in ground (arith, h))
            (enters c i l s room)
      | inr h ↦
          agree (enter c i) (add c l) (store_char c i) (record l { line = l.line ++ c % 256 ∷ [] })
            (c ∷ []) false false (unfold enter in ground (arith, h, t.full))
            (unfold add in ground (arith, h)) (stays c i l byte s room h)
    ]

pub key-Agree : (c : ℕ) (i : Input) (l : Editor) → c < 256 → Shows i l → Agree (key c i) (edit c l)
key-Agree c i l byte s = elim (Bool-cases (c == ctrl_p)) [
  | inl p ↦
      agree (key c i) (edit c l) i l [] false true (unfold key in ground (arith, p))
        (unfold edit in ground (arith, p)) s
  | inr p ↦ elim (Bool-cases (c == ctrl_u)) [
    | inl u ↦
        let (shows, echo) =
          kill_line-After input_buf i l.ready l.line
            (omega (arith, s.fits, length-append l.ready l.line)) s in
        agree (key c i) (edit c l) (kill_line input_buf i).0 (record l { line = [] })
          (replicate (length l.line) backspace) false false
          (unfold key in ground (arith, p, u, echo)) (unfold edit in ground (arith, p, u)) shows
    | inr u ↦ elim (Bool-cases (c == ctrl_h || c == delete)) [
      | inl b ↦
          let (shows, echo) = erase-After i l.ready l.line s in
          agree (key c i) (edit c l) (erase i).0 (record l { line = drop_last l.line })
            (if length l.line == 0 then [] else backspace ∷ []) false false
            (unfold key in ground (arith, p, u, b, echo)) (unfold edit in ground (arith, p, u, b))
            shows
      | inr b ↦
          let room : ltb (sub_uint i.e i.r) input_buf ≡ ltb (length (held l)) input_buf =
            ground (arith, s.at_e, s.small, s.fits) in
          elim (Bool-cases (not (c == 0) && ltb (length (held l)) input_buf)) [
            | inl g ↦
                let d = if c == return then newline else c in
                let here : key c i ≡ enter d i = unfold key in ground (arith, p, u, b, g, room) in
                let there : edit c l ≡ add d l = unfold edit in ground (arith, p, u, b, g) in
                subst (Agree (key c i)) (sym there) (
                  subst (λ x. Agree x (add d l)) (sym here)
                    (enter-Agree d i l (ground (arith, byte)) s (ground (arith, g))))
            | inr g ↦
                agree (key c i) (edit c l) i l [] false false
                  (unfold key in ground (arith, p, u, b, g, room))
                  (unfold edit in ground (arith, p, u, b, g)) s
          ]
    ]
  ]
]

abbrev pub AllBytes : List ℕ → Type 0
AllBytes [] = Unit
AllBytes (c ∷ s) = (c < 256) × AllBytes s

pub consoleintr-Agree :
    (cs : List ℕ) (i : Input) (l : Editor)
    → AllBytes cs
    → Shows i l
    → Agree (consoleintr cs i) (edit_all cs l)
unfolding consoleintr edit_all
consoleintr-Agree [] i l bytes s = record { shows = s; echo = refl; woken = refl; procdump = refl }
consoleintr-Agree (c ∷ cs) i l (byte, bytes) s =
    let t = key-Agree c i l byte s in
    let u = consoleintr-Agree cs (key c i).input (edit c l).input bytes t.shows in
    record {
      shows = u.shows;
      echo = ap₂ (λ x y. x ++ y) t.echo u.echo;
      woken = ap₂ (λ x y. x || y) t.woken u.woken;
      procdump = ap₂ (λ x y. x || y) t.procdump u.procdump;
    }
