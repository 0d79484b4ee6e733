-- ===== src/Proc/Exits.antt =====
-- What exit leaves, on every path.
use modificacion_sistema_ope.Base.{
  ℕ, zero, suc, ◌+◌, ◌<◌, ◌≡◌, ◌≢◌, inl, inr, arith, ◌∙◌, sym, ap, subst, Option, none, some,
  update, update_self, update_ne, if◌then◌else◌, ℕ_discrete, Option-cases, ltb, leb, ◌&&◌,
}
use modificacion_sistema_ope.Proc.Defs.{
  runnable, running, zombie, nproc, nofile, Proc, Table, is_parent, chan_of, wakeup1,
}
use modificacion_sistema_ope.Proc.Services.{Services}
use modificacion_sistema_ope.Proc.Ops.{Kernel, close_files, exit}
use modificacion_sistema_ope.Proc.Inv.{Waits}
use modificacion_sistema_ope.Proc.Loops.{wakeup1_lem}
use modificacion_sistema_ope.Proc.Exit.{
  left, left-other, left_self, left-parent, left-pid, looped, looped_lem,
}
use modificacion_sistema_ope.Proc.Calls.{exit-left}

module _ (sv : Services) where
  close_files_lem :
      (n i : ℕ) (files : ℕ → Option ℕ) (s : sv.Sys) (j : ℕ)
      → (close_files sv n i files s).0 j ≡ (if leb i j && ltb j (i + n) then none else files j)
  unfolding close_files
  close_files_lem zero i files s j = ground arith
  close_files_lem (suc n) i files s j = elim (Option-cases (files i)) [
    | inl e ↦ elim (ℕ_discrete i j) [
      | yes q ↦ ground (arith, e, q, close_files_lem n (i + 1) files s j)
      | no q ↦ ground (arith, e, q, close_files_lem n (i + 1) files s j)
    ]
    | inr (f, e) ↦
        let rest = close_files_lem n (i + 1) (update files i none) (sv.fileclose f s) j in
        elim (ℕ_discrete i j) [
          | yes q ↦ ground (arith, e, q, rest)
          | no q ↦ ground (arith, e, q, rest)
        ]
  ]

  looped-woken :
      (cur i : ℕ) (init : Option ℕ) (t : Table)
      → i < nproc
      → (t cur).parent ≡ some i
      → Waits i (t i)
      → (looped cur init t i).state ≡ runnable
  looped-woken cur i init t h p w =
      let roused : (wakeup1 (chan_of (t cur).parent) t i).state ≡ runnable =
        ground (arith, wakeup1_lem (chan_of (t cur).parent) t i, w.0, w.1, p) in
      ground (arith, looped_lem cur init t i h, roused)

  looped-ofile :
      (cur : ℕ) (init : Option ℕ) (t : Table)
      → cur < nproc
      → ((looped cur init t cur).ofile ≡ (t cur).ofile)
        × ((looped cur init t cur).cwd ≡ (t cur).cwd)
  looped-ofile cur init t h =
      let w = wakeup1_lem (chan_of (t cur).parent) t cur in
      (
        ground (arith, looped_lem cur init t cur h, w),
        ground (arith, looped_lem cur init t cur h, w),
      )

  -- exit of a running process other than init leaves it a zombie, with its descriptors closed and
  -- no directory; its children, and no other processes, go to init; the pids stay; and its parent,
  -- if it sleeps in wait, is runnable.
  pub exit_lem :
      (cur : ℕ) (k k' : Kernel sv)
      → cur < nproc
      → (k.proc cur).state ≡ running
      → exit sv cur k ≡ some k'
      → ((k'.proc cur).state ≡ zombie)
        × ((k'.proc cur).cwd ≡ none)
        × ((j : ℕ) → j < nofile → (k'.proc cur).ofile j ≡ none)
        × ((j : ℕ)
            → j < nproc
            → ((k'.proc j).parent
                ≡ (if is_parent cur (k.proc j).parent then k.initproc else (k.proc j).parent))
              × ((k'.proc j).pid ≡ (k.proc j).pid))
        × ((i : ℕ)
            → i < nproc
            → (k.proc cur).parent ≡ some i
            → Waits i (k.proc i)
            → (k'.proc i).state ≡ runnable)
  exit_lem cur k k' h runs e =
      let files = (close_files sv nofile 0 (k.proc cur).ofile k.sys).0 in
      let me : Proc = record (k.proc cur) { ofile = files; cwd = none } in
      let t : Table = update k.proc cur me in
      let q : k'.proc ≡ left cur k.initproc t = (exit-left sv cur k k' e).1 in
      let self : t cur ≡ me = update_self k.proc cur me in
      let end : k'.proc cur ≡ record (looped cur k.initproc t cur) { state = zombie } =
        rw q (left_self cur k.initproc t) in
      let o = looped-ofile cur k.initproc t h in
      (
        ap (λ (p : Proc). p.state) end,
        ap (λ (p : Proc). p.cwd) end ∙ o.1 ∙ ap (λ (p : Proc). p.cwd) self,
        λ j hj.
            ap (λ (p : Proc). p.ofile j) end
            ∙ ap (λ f. f j) o.0
            ∙ ap (λ (p : Proc). p.ofile j) self
            ∙ close_files_lem nofile 0 (k.proc cur).ofile k.sys j
            ∙ ground arith,
        λ j hj. (
          rw q (left-parent cur k.initproc t j hj ∙ ground arith),
          rw q (left-pid cur k.initproc t j hj ∙ ground arith),
        ),
        λ i hi p w.
            let ne : i ≢ cur = λ s. ground (arith, w.0, s, runs) in
            rw q (
              ap (λ (p : Proc). p.state) (left-other cur k.initproc t i ne)
              ∙ looped-woken cur i k.initproc t hi (ap (λ (p : Proc). p.parent) self ∙ p)
                  (subst (λ p. Waits i p) (sym (update_ne k.proc cur me i ne)) w)),
      )
