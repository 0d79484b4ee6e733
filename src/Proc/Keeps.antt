-- ===== src/Proc/Keeps.antt =====
-- No call takes a process that is RUNNABLE off the table or puts it to sleep.
use modificacion_sistema_ope.Base.{
  ℕ, ◌<◌, ◌≡◌, ◌≢◌, ◌⊎◌, inl, inr, refl, arith, ◌∙◌, sym, ap, subst, Option, none, some, update,
  update_ne,
}
use modificacion_sistema_ope.Proc.Defs.{
  State, runnable, running, nproc, nofile, Proc, Table, wakeup1, yield, sleep_enter, sleep_leave,
  chan_of,
}
use modificacion_sistema_ope.Proc.Services.{Services}
use modificacion_sistema_ope.Proc.Ops.{Kernel, exit, close_files}
use modificacion_sistema_ope.Proc.Loops.{wakeup1_lem}
use modificacion_sistema_ope.Proc.Exit.{left-other, looped, looped_lem}
use modificacion_sistema_ope.Proc.Calls.{exit-left, growproc-Resized}
use modificacion_sistema_ope.Proc.Kill.{kill_lem}
use modificacion_sistema_ope.Proc.Contracts.{fork_lem, wait_lem}
use modificacion_sistema_ope.Proc.Reach.{
  Step, forks, exits, waits, grows, sleeps_on, returns_from_sleep, yields, kills, wakes, dispatches,
  elsewhere,
}

abbrev pub OnTable : State → Type 0
OnTable s = (s ≡ runnable) ⊎ (s ≡ running)

update-stays :
    (t u : Table) (i : ℕ) (p : Proc) (j : ℕ)
    → u ≡ update t i p
    → (t i).state ≢ runnable
    → (t j).state ≡ runnable
    → (u j).state ≡ runnable
update-stays t u i p j e n r =
    let ne : j ≢ i = λ q. n (subst (λ m. (t m).state ≡ runnable) q r) in
    rw (e, update_ne t i p j ne) r

module _ (sv : Services) where
  looped-runnable :
      (cur : ℕ) (init : Option ℕ) (t : Table) (j : ℕ)
      → j < nproc
      → (t j).state ≡ runnable
      → (looped cur init t j).state ≡ runnable
  looped-runnable cur init t j h r =
      let roused : (wakeup1 (chan_of (t cur).parent) t j).state ≡ runnable =
        ground (arith, wakeup1_lem (chan_of (t cur).parent) t j) in
      ground (arith, looped_lem cur init t j h, roused)

  exit-runnable :
      (cur : ℕ) (k k' : Kernel sv)
      → cur < nproc
      → (k.proc cur).state ≡ running
      → exit sv cur k ≡ some k'
      → (j : ℕ) → j < nproc
      → (k.proc j).state ≡ runnable
      → (k'.proc j).state ≡ runnable
  exit-runnable cur k k' h e x j hj r =
      let me : Proc = record (k.proc cur) {
        ofile = (close_files sv nofile 0 (k.proc cur).ofile k.sys).0;
        cwd = none;
      } in
      let t : Table = update k.proc cur me in
      let ne : j ≢ cur =
        λ q. ground (arith, r, subst (λ m. (k.proc m).state ≡ running) (sym q) e) in
      rw (exit-left sv cur k k' x).1 (
        ap (λ (p : Proc). p.state) (left-other cur k.initproc t j ne)
        ∙ looped-runnable cur k.initproc t j hj
            (ap (λ (p : Proc). p.state) (update_ne k.proc cur me j ne) ∙ r))

  -- A step leaves a RUNNABLE process so, or makes it RUNNING.
  pub Step-runnable :
      (k k' : Kernel sv)
      → Step sv k k'
      → (j : ℕ) → j < nproc
      → (k.proc j).state ≡ runnable
      → OnTable (k'.proc j).state
  Step-runnable k _ (forks cur h e) j hj r = elim (fork_lem sv cur k e) [
    | inl (_, _, all) ↦ elim (all j) [
      | inl q ↦ inl (ap (λ (p : Proc). p.state) q ∙ r)
      | inr (q, _) ↦ absurd (cc (sym q ∙ r))
    ]
    | inr (i, p, _, _, _, free, _, _, q, _) ↦ inl (update-stays k.proc _ i p j q (ground arith) r)
  ]
  Step-runnable k k' (exits cur _ h e x) j hj r = inl (exit-runnable cur k k' h e x j hj r)
  Step-runnable k _ (waits cur h e) j hj r = elim (wait_lem sv cur k) [
    | inl (i, _, _, z, _, q, _) ↦ inl (update-stays k.proc _ i _ j q (ground arith) r)
    | inr (inl (q, _)) ↦ inl (rw q r)
    | inr (inr (q, _, _, _)) ↦ inl (
        unfold sleep_enter in
        (update-stays k.proc _ cur _ j (ap (λ w. w.1.proc) q) (ground arith) r))
  ]
  Step-runnable k _ (grows cur n h e) j hj r = elim (growproc-Resized sv cur n k).2 [
    | inl q ↦ inl (rw q r)
    | inr (sz, q) ↦ inl (update-stays k.proc _ cur _ j q (ground arith) r)
  ]
  Step-runnable k _ (sleeps_on cur a h e) j hj r =
      unfold sleep_enter in inl (update-stays k.proc _ cur _ j refl (ground arith) r)
  Step-runnable k _ (returns_from_sleep cur h e) j hj r =
      unfold sleep_leave in inl (update-stays k.proc _ cur _ j refl (ground arith) r)
  Step-runnable k _ (yields cur h e) j hj r =
      unfold yield in inl (update-stays k.proc _ cur _ j refl (ground arith) r)
  Step-runnable k _ (kills pid) j hj r = elim (kill_lem pid k.proc) [
    | inl (q, _) ↦ inl (ap (λ w. (w.1 j).state) q ∙ r)
    | inr (f, _, _, _, q) ↦ inl (ap (λ w. (w.1 j).state) q ∙ ground arith)
  ]
  Step-runnable k _ (wakes c) j hj r = inl (ground (arith, wakeup1_lem c k.proc j))
  Step-runnable k _ (dispatches i h e) j hj r = ground arith
  Step-runnable k _ (elsewhere s) j hj r = inl r
