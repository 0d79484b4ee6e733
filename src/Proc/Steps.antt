-- ===== src/Proc/Steps.antt =====
-- The operations that leave the families alone: wakeup, kill, yield, sleep, the scheduler's switch.
use modificacion_sistema_ope.Base.{
  ℕ, zero, suc, ◌+◌, ◌≡◌, inl, inr, refl, arith, sym, subst, true, update, update_self, update_ne,
  ◌==◌, if◌then◌else◌, ℕ_discrete, Bool-cases, ltb, ◌&&◌,
}
use modificacion_sistema_ope.Proc.Defs.{
  sleeping, runnable, running, state_eq, Chan, at, chan_eq, nproc, Proc, Table, set_state, wakeup1,
  kill_from, kill, sleep_enter, sleep_leave, yield,
}
use modificacion_sistema_ope.Proc.Inv.{alive, Similar, Similar-refl}
use modificacion_sistema_ope.Proc.Loops.{wakeup1_lem}

-- One slot changes.
pub update-Similar :
    (t : Table) (i : ℕ) (p : Proc) → Similar (t i) p → (j : ℕ) → Similar (t j) (update t i p j)
update-Similar t i p s j = elim (ℕ_discrete j i) [
  | yes e ↦ subst (λ k. Similar (t k) (update t i p k)) (sym e) (rw (update_self t i p) s)
  | no ne ↦ rw (update_ne t i p j ne) (Similar-refl (t j))
]

pub runnable-Similar : (p : Proc) → alive p.state ≡ true → Similar p (record p { state = runnable })
runnable-Similar p a = record {
  parent = refl;
  pid = λ _. refl;
  kind_same = ground arith;
  waits = λ i w. absurd (ground (arith, w.0));
}

woken-state :
    (p : Proc) (c : Chan)
    → (state_eq p.state sleeping && chan_eq p.chan c) ≡ true
    → alive p.state ≡ true
woken-state p c e = ground arith

pub wakeup1-Similar : (c : Chan) (t : Table) (j : ℕ) → Similar (t j) (wakeup1 c t j)
wakeup1-Similar c t j =
    rw (wakeup1_lem c t j)
      (elim (Bool-cases (ltb j nproc && (state_eq (t j).state sleeping && chan_eq (t j).chan c))) [
        | inl wakes ↦ rw wakes (runnable-Similar (t j) (woken-state (t j) c (ground arith)))
        | inr stays ↦ rw stays (Similar-refl (t j))
      ])

killed-Similar :
    (p : Proc)
    → Similar p (record p {
      killed = true;
      state = if state_eq p.state sleeping then runnable else p.state;
    })
killed-Similar p = elim (Bool-cases (state_eq p.state sleeping)) [
  | inl asleep ↦ rw asleep (record {
    parent = refl;
    pid = λ _. refl;
    kind_same = ground arith;
    waits = λ i w. absurd (ground (arith, w.0));
  })
  | inr awake ↦
      rw awake (record { parent = refl; pid = λ _. refl; kind_same = refl; waits = λ i w. w })
]

kill_from-Similar : (k i pid : ℕ) (t : Table) (j : ℕ) → Similar (t j) ((kill_from k i pid t).1 j)
unfolding kill_from
kill_from-Similar zero i pid t j = Similar-refl (t j)
kill_from-Similar (suc k) i pid t j = elim (Bool-cases ((t i).pid == pid)) [
  | inl hit ↦ rw hit (update-Similar t i _ (killed-Similar (t i)) j)
  | inr miss ↦ rw miss (kill_from-Similar k (i + 1) pid t j)
]

pub kill-Similar : (pid : ℕ) (t : Table) (j : ℕ) → Similar (t j) ((kill pid t).1 j)
unfolding kill
kill-Similar pid t j = kill_from-Similar nproc 0 pid t j

pub yield-Similar :
    (i : ℕ) (t : Table) → alive (t i).state ≡ true → (j : ℕ) → Similar (t j) (yield i t j)
unfolding yield
yield-Similar i t a = update-Similar t i _ (runnable-Similar (t i) a)

pub dispatch-Similar :
    (i : ℕ) (t : Table) → (t i).state ≡ runnable → (j : ℕ) → Similar (t j) (set_state i running t j)
dispatch-Similar i t e = update-Similar t i _ (record {
  parent = refl;
  pid = λ _. refl;
  kind_same = ground arith;
  waits = λ i w. absurd (ground (arith, w.0));
})

-- A sleep that is not wait's.
pub sleep-Similar :
    (i a : ℕ) (t : Table)
    → (t i).state ≡ running
    → (j : ℕ) → Similar (t j) (sleep_enter i (at a) t j)
unfolding sleep_enter
sleep-Similar i a t e = update-Similar t i _ (record {
  parent = refl;
  pid = λ _. refl;
  kind_same = ground arith;
  waits = λ i w. absurd (ground (arith, w.1));
})

pub sleep_leave-Similar :
    (i : ℕ) (t : Table) → (t i).state ≡ running → (j : ℕ) → Similar (t j) (sleep_leave i t j)
unfolding sleep_leave
sleep_leave-Similar i t e = update-Similar t i _ (record {
  parent = refl;
  pid = λ _. refl;
  kind_same = refl;
  waits = λ i w. absurd (ground (arith, w.0));
})

pub wakeup1-pid : (c : Chan) (t : Table) (j : ℕ) → (wakeup1 c t j).pid ≡ (t j).pid
wakeup1-pid c t j = ground (arith, wakeup1_lem c t j)
