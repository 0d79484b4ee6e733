-- ===== src/Proc/Kill.antt =====
-- What kill does, and which slot it finds.
use modificacion_sistema_ope.Base.{
  ℕ, zero, suc, ◌+◌, ◌<◌, ◌≤◌, ◌≡◌, ◌≢◌, ◌⊎◌, inl, inr, refl, arith, ◌∙◌, sym, ap, subst, true,
  false, none, some, update, ◌==◌, if◌then◌else◌, ℕ_discrete, Bool-cases, ltb,
}
use modificacion_sistema_ope.Proc.Defs.{
  unused, sleeping, runnable, state_eq, nproc, Proc, Table, kill, kill_from, find_unused,
}
use modificacion_sistema_ope.Proc.Services.{Services}
use modificacion_sistema_ope.Proc.Ops.{Kernel, fork}
use modificacion_sistema_ope.Proc.Kernel.{
  stack, stacked, allocproc_no_stack, allocproc_works, image, fork_no_image, fork_works,
}

-- A process that kill has found.
abbrev pub killed_one : Proc → Proc
killed_one p = record p {
  killed = true;
  state = if state_eq p.state sleeping then runnable else p.state;
}

kill_from_lem :
    (n i pid : ℕ) (t : Table)
    → ((kill_from n i pid t ≡ (false, t)) × ((j : ℕ) → i ≤ j → j < i + n → (t j).pid ≢ pid))
      ⊎ ((f : ℕ) × (i ≤ f)
          × (f < i + n)
          × ((t f).pid ≡ pid)
          × ((j : ℕ) → i ≤ j → j < f → (t j).pid ≢ pid)
          × (kill_from n i pid t ≡ (true, update t f (killed_one (t f)))))
unfolding kill_from
kill_from_lem zero i pid t = inl (refl, λ j l h. absurd (omega arith))
kill_from_lem (suc n) i pid t = elim (Bool-cases ((t i).pid == pid)) [
  | inl hit ↦ inr (
    i,
    omega arith,
    omega arith,
    ground arith,
    λ j l h. absurd (omega arith),
    ground (arith, hit),
  )
  | inr miss ↦
      let here : (t i).pid ≢ pid = ground arith in
      elim (kill_from_lem n (i + 1) pid t) [
        | inl (e, all) ↦ inl (
          ground (arith, miss, e),
          λ j l h. elim (ℕ_discrete i j) [
            | yes q ↦ subst (λ m. (t m).pid ≢ pid) q here
            | no q ↦ all j (omega arith) (omega arith)
          ],
        )
        | inr (f, l, h, p, all, e) ↦ inr (
          f,
          omega arith,
          omega arith,
          p,
          λ j l' h'. elim (ℕ_discrete i j) [
            | yes q ↦ subst (λ m. (t m).pid ≢ pid) q here
            | no q ↦ all j (omega arith) h'
          ],
          ground (arith, miss, e),
        )
      ]
]

-- kill fails and changes nothing where no slot has the pid; otherwise it succeeds, and in the
-- first slot with the pid, used or free, it sets killed and wakes a sleeping process.
pub kill_lem :
    (pid : ℕ) (t : Table)
    → ((kill pid t ≡ (false, t)) × ((j : ℕ) → j < nproc → (t j).pid ≢ pid))
      ⊎ ((f : ℕ) × (f < nproc)
          × ((t f).pid ≡ pid)
          × ((j : ℕ) → j < f → (t j).pid ≢ pid)
          × (kill pid t ≡ (true, update t f (killed_one (t f)))))
unfolding kill
kill_lem pid t = elim (kill_from_lem nproc 0 pid t) [
  | inl (e, all) ↦ inl (e, λ j h. all j (omega arith) (omega arith))
  | inr (f, l, h, p, all, e) ↦ inr (f, omega arith, p, λ j h. all j (omega arith) h, e)
]

find_unused-update :
    (n i f : ℕ) (t : Table) (p : Proc)
    → state_eq p.state unused ≡ state_eq (t f).state unused
    → find_unused n i (update t f p) ≡ find_unused n i t
unfolding find_unused
find_unused-update zero i f t p e = refl
find_unused-update (suc n) i f t p e = ground (arith, find_unused-update n (i + 1) f t p e)

module _ (sv : Services) (cur : ℕ) (k : Kernel sv) where
  -- The child of a fork that succeeds has its slot's killed.
  fork-killed :
      (i n : ℕ)
      → find_unused nproc 0 k.proc ≡ some i
      → (fork sv cur k).0 ≡ some n
      → (((fork sv cur k).1.proc i).killed ≡ (k.proc i).killed)
        × (((fork sv cur k).1.proc i).state ≡ runnable)
        × (n ≡ k.nextpid)
  fork-killed i n e ok = elim (Bool-cases ((stack sv cur k).0 == 0)) [
    | inl z ↦
        let q : (fork sv cur k).0 ≡ none =
          unfold fork in ground (arith, allocproc_no_stack sv cur k i e z) in
        absurd (cc (sym q ∙ ok))
    | inr z ↦
        let a = allocproc_works sv cur k i e z in
        let k₁ : Kernel sv = record k {
          proc = update k.proc i (stacked sv cur k i);
          nextpid = k.nextpid + 1;
          sys = (stack sv cur k).1;
        } in
        elim (Bool-cases ((image sv cur k i k₁ a).0 == 0)) [
          | inl z' ↦ absurd (cc (sym (ap (λ r. r.0) (fork_no_image sv cur k i k₁ a z')) ∙ ok))
          | inr z' ↦
              let w = fork_works sv cur k i k₁ a z' in
              (rw w.1 (ground arith), rw w.1 (ground arith), ground (arith, w.0, ok))
        ]
  ]

-- Where the first slot with a pid is free and is the first free one, as for pid 0, kill succeeds,
-- and the next process that fork makes is born killed.
pub kill-fork :
    (sv : Services) (cur pid i n : ℕ) (k : Kernel sv)
    → find_unused nproc 0 k.proc ≡ some i
    → i < nproc
    → (k.proc i).state ≡ unused
    → (k.proc i).pid ≡ pid
    → ((j : ℕ) → j < i → (k.proc j).pid ≢ pid)
    → (fork sv cur (record k { proc = (kill pid k.proc).1 })).0 ≡ some n
    → ((kill pid k.proc).0 ≡ true)
      × (((fork sv cur (record k { proc = (kill pid k.proc).1 })).1.proc i).killed ≡ true)
      × (((fork sv cur (record k { proc = (kill pid k.proc).1 })).1.proc i).state ≡ runnable)
kill-fork sv cur pid i n k e h free p before ok = elim (kill_lem pid k.proc) [
  | inl (_, all) ↦ absurd (all i h p)
  | inr (f, hf, pf, first, q) ↦
      let same : f ≡ i = elim (Bool-cases (ltb f i)) [
        | inl l ↦ absurd (before f (ground arith) pf)
        | inr l ↦ elim (Bool-cases (ltb i f)) [
          | inl m ↦ absurd (first i (ground arith) p)
          | inr m ↦ ground arith
        ]
      ] in
      let k' : Kernel sv = record k { proc = (kill pid k.proc).1 } in
      let t : (kill pid k.proc).1 ≡ update k.proc f (killed_one (k.proc f)) = ap (λ r. r.1) q in
      let e' : find_unused nproc 0 k'.proc ≡ some i =
        ap (λ t. find_unused nproc 0 t) t
        ∙ find_unused-update nproc 0 f k.proc (killed_one (k.proc f)) (ground arith)
        ∙ e in
      let o = fork-killed sv cur k' i n e' ok in
      (ap (λ r. r.0) q, o.0 ∙ ap (λ u. (u i).killed) t ∙ ground (arith, same), o.1)
]
