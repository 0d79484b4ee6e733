-- ===== src/File/Counts.antt =====
-- The count of a file is the number of descriptors that stand for it, and of files in hand.
use modificacion_sistema_ope.Base.{
  ℕ, zero, suc, ◌+◌, ◌<◌, ◌≤◌, ◌≡◌, ◌≢◌, refl, arith, sym, ap, ap₂, ◌∙◌, Option, none, some, List,
  update, update_self, update_ne, ◌==◌, if◌then◌else◌, ℕ_discrete,
}
use modificacion_sistema_ope.File.Defs.{nfile, fd_none, Call, Ftable}

-- The sum of `g` below `n`.
unfoldable pub total : ℕ → (ℕ → ℕ) → ℕ
total zero g = 0
total (suc n) g = g n + total n g

pub total_same : (n : ℕ) (g h : ℕ → ℕ) → ((j : ℕ) → j < n → g j ≡ h j) → total n g ≡ total n h
unfolding total
total_same zero g h e = refl
total_same (suc n) g h e =
    ap₂ (λ (x y : ℕ). x + y) (e n (omega arith)) (total_same n g h (λ j l. e j (omega arith)))

-- One term changed.
pub total_change :
    (n : ℕ) (g h : ℕ → ℕ) (i : ℕ)
    → i < n
    → ((j : ℕ) → j ≢ i → g j ≡ h j)
    → total n g + h i ≡ total n h + g i
unfolding total
total_change zero g h i l e = absurd (omega arith)
total_change (suc n) g h i l e = elim (ℕ_discrete i n) [
  | yes q ↦
      let rest : total n g ≡ total n h = total_same n g h (λ j k. e j (omega (arith, q, k))) in
      omega (arith, rest, ap g q, ap h q)
  | no q ↦ omega (arith, total_change n g h i (omega (arith, q)) e, e n (λ z. q (sym z)))
]

pub total_zero : (n : ℕ) (g : ℕ → ℕ) → ((j : ℕ) → g j ≡ 0) → total n g ≡ 0
unfolding total
total_zero zero g z = refl
total_zero (suc n) g z = omega (arith, z n, total_zero n g z)

total_ge : (n : ℕ) (g : ℕ → ℕ) (i : ℕ) → i < n → g i ≤ total n g
unfolding total
total_ge zero g i l = absurd (omega arith)
total_ge (suc n) g i l = elim (ℕ_discrete i n) [
  | yes q ↦ omega (arith, ap g q)
  | no q ↦ omega (arith, total_ge n g i (omega (arith, q)))
]

abbrev pub points : Option ℕ → ℕ → ℕ
points none f = 0
points (some g) f = if f == g then 1 else 0

-- The descriptors below `n` of a process that stand for file `f`, and those of all processes.
abbrev pub held : (ℕ → Option ℕ) → ℕ → ℕ
held o f = total 16 (λ fd. points (o fd) f)

abbrev pub refs : (ℕ → ℕ → Option ℕ) → ℕ → ℕ
refs fds f = total 64 (λ p. held (fds p) f)

-- A file with a descriptor.
pub refs_pos :
    (fds : ℕ → ℕ → Option ℕ) (p fd f : ℕ) → p < 64 → fd < 16 → fds p fd ≡ some f → 0 < refs fds f
refs_pos fds p fd f hp hfd e =
    let one : points (fds p fd) f ≡ 1 = ap (λ x. points x f) e ∙ ground arith in
    omega (
      arith,
      one,
      total_ge 16 (λ d. points (fds p d) f) fd hfd,
      total_ge 64 (λ q. held (fds q) f) p hp,
    )

-- The counts of the table, where `e` are the files in hand.
pub record Counts (e : ℕ → ℕ) (fds : ℕ → ℕ → Option ℕ) (t : Ftable) : Type 0 where
  pub ref_lem : (f : ℕ) → f < nfile → (t.file f).ref ≡ refs fds f + e f
  pub unused : (f : ℕ) → f < nfile → (t.file f).ref ≡ 0 → (t.file f).kind ≡ fd_none
  pub files : (p fd f : ℕ) → fds p fd ≡ some f → f < nfile

abbrev pub plus : ℕ → (ℕ → ℕ) → ℕ → ℕ
plus f e g = (if g == f then 1 else 0) + e g

pub plus_self : (f : ℕ) (e : ℕ → ℕ) → plus f e f ≡ e f + 1
plus_self f e = ground arith

pub Counts-made :
    (e : ℕ → ℕ) (fds : ℕ → ℕ → Option ℕ) (t : Ftable) (m : List Call)
    → Counts e fds t
    → Counts e fds (record t { made = m })
Counts-made e fds t m c = record { ref_lem = c.ref_lem; unused = c.unused; files = c.files }

-- A descriptor of process `p`, whose others are `o`, changed to `x`.
refs-update :
    (fds : ℕ → ℕ → Option ℕ) (p : ℕ) (o : ℕ → Option ℕ) (fd : ℕ) (x : Option ℕ) (f : ℕ)
    → p < 64
    → fd < 16
    → refs (update fds p (update o fd x)) f + points (o fd) f ≡ refs (update fds p o) f + points x f
refs-update fds p o fd x f hp hfd =
    let o' : ℕ → Option ℕ = update o fd x in
    let one : held o' f + points (o fd) f ≡ held o f + points (o' fd) f =
      total_change 16 (λ d. points (o' d) f) (λ d. points (o d) f) fd hfd
        (λ d ne. ap (λ y. points y f) (update_ne o fd x d ne)) in
    let all : refs (update fds p o') f + held (update fds p o p) f
        ≡ refs (update fds p o) f + held (update fds p o' p) f =
      total_change 64 (λ q. held (update fds p o' q) f) (λ q. held (update fds p o q) f) p hp
        (λ q ne. ap (λ y. held y f) (update_ne fds p o' q ne ∙ sym (update_ne fds p o q ne))) in
    let new : held (update fds p o' p) f ≡ held o' f = ap (λ y. held y f) (update_self fds p o') in
    let old : held (update fds p o p) f ≡ held o f = ap (λ y. held y f) (update_self fds p o) in
    let at : points (o' fd) f ≡ points x f = ap (λ y. points y f) (update_self o fd x) in
    omega (arith, one, all, new, old, at)

module _ (fds : ℕ → ℕ → Option ℕ) (p : ℕ) (hp : p < 64) where
  -- The descriptors with those of process `p` being `o`.
  abbrev pub with_fds : (ℕ → Option ℕ) → ℕ → ℕ → Option ℕ
  with_fds o = update fds p o

  files_update :
      (o : ℕ → Option ℕ) (fd : ℕ) (x : Option ℕ)
      → ((q d f : ℕ) → with_fds o q d ≡ some f → f < nfile)
      → ((f : ℕ) → x ≡ some f → f < nfile)
      → (q d f : ℕ) → with_fds (update o fd x) q d ≡ some f
      → f < nfile
  files_update o fd x old new q d f e = elim (ℕ_discrete q p) [
    | no ne ↦
        old q d f
          (ap (λ y. y d) (update_ne fds p o q ne ∙ sym (update_ne fds p (update o fd x) q ne)) ∙ e)
    | yes eq ↦
        let e₁ : update o fd x d ≡ some f =
          sym (ap (λ y. y d) (ap (with_fds (update o fd x)) eq ∙ update_self fds p (update o fd x)))
          ∙ e in
        elim (ℕ_discrete d fd) [
          | yes z ↦ new f (sym (update_self o fd x) ∙ ap (update o fd x) (sym z) ∙ e₁)
          | no z ↦ old p d f (ap (λ y. y d) (update_self fds p o) ∙ sym (update_ne o fd x d z) ∙ e₁)
        ]
  ]

  -- A file in hand goes to an empty descriptor.
  pub put_fd :
      (e : ℕ → ℕ) (o : ℕ → Option ℕ) (t : Ftable) (fd f : ℕ)
      → fd < 16
      → o fd ≡ none
      → f < nfile
      → Counts (plus f e) (with_fds o) t
      → Counts e (with_fds (update o fd (some f))) t
  put_fd e o t fd f h empty hf c = record {
    ref_lem = λ g hg.
        c.ref_lem g hg
        ∙ omega (arith, refs-update fds p o fd (some f) g hp h, ap (λ y. points y g) empty);
    unused = c.unused;
    files = files_update o fd (some f) c.files (λ g q. ground (arith, q, hf));
  }

  -- A descriptor is emptied, its file is in hand.
  pub take_fd :
      (e : ℕ → ℕ) (o : ℕ → Option ℕ) (t : Ftable) (fd f : ℕ)
      → fd < 16
      → o fd ≡ some f
      → Counts e (with_fds o) t
      → Counts (plus f e) (with_fds (update o fd none)) t
  take_fd e o t fd f h full c = record {
    ref_lem = λ g hg.
        c.ref_lem g hg
        ∙ omega (arith, refs-update fds p o fd none g hp h, ap (λ y. points y g) full);
    unused = c.unused;
    files = files_update o fd none c.files (λ g q. ground (arith, q));
  }
