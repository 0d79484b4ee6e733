-- ===== src/Proc/Loops.antt =====
-- The loops over the process table, slot by slot.
use modificacion_sistema_ope.Base.{
  ℕ, zero, suc, ◌+◌, ◌<◌, ◌≤◌, ◌≡◌, inl, inr, refl, arith, ◌∙◌, ap, ap₂, Bool, true, false, ◌&&◌,
  ◌||◌, Option, update, ◌==◌, ltb, leb, if◌then◌else◌, Bool-cases, ℕ_discrete,
}
use modificacion_sistema_ope.Proc.Defs.{
  sleeping, runnable, zombie, state_eq, Chan, chan_eq, nproc, Proc, Table, is_parent, chan_of, wake,
  wakeup1_from, wakeup1, reparent_from,
}

wakeup1_from_lem :
    (k i : ℕ) (c : Chan) (t : Table) (j : ℕ)
    → wakeup1_from k i c t j ≡ (if leb i j && ltb j (i + k) then wake c (t j) else t j)
unfolding wakeup1_from
wakeup1_from_lem zero i c t j = ground arith
wakeup1_from_lem (suc k) i c t j =
    wakeup1_from_lem k (i + 1) c (update t i (wake c (t i))) j ∙ ground arith

-- wakeup1 makes exactly the processes that sleep on the channel runnable, and changes nothing
-- else in the table.
pub wakeup1_lem :
    (c : Chan) (t : Table) (j : ℕ)
    → wakeup1 c t j ≡ (
        if ltb j nproc && (state_eq (t j).state sleeping && chan_eq (t j).chan c)
        then record (t j) { state = runnable }
        else t j)
unfolding wakeup1
wakeup1_lem c t j = wakeup1_from_lem nproc 0 c t j ∙ ground arith

-- A zombie child of `cur` among the `k` slots from `i` on.
unfoldable pub any_zombie : ℕ → ℕ → ℕ → Table → Bool
any_zombie zero i cur t = false
any_zombie (suc k) i cur t =
    is_parent cur (t i).parent && state_eq (t i).state zombie || any_zombie k (i + 1) cur t

any_zombie-congruent :
    (k i cur : ℕ) (t u : Table)
    → ((j : ℕ)
        → i ≤ j
        → j < i + k
        → (is_parent cur (u j).parent && state_eq (u j).state zombie)
          ≡ (is_parent cur (t j).parent && state_eq (t j).state zombie))
    → any_zombie k i cur u ≡ any_zombie k i cur t
unfolding any_zombie
any_zombie-congruent zero i cur t u h = refl
any_zombie-congruent (suc k) i cur t u h =
    ap₂ ◌||◌ (h i (omega arith) (omega arith))
      (any_zombie-congruent k (i + 1) cur t u (λ j l l'. h j (omega arith) (omega arith)))

-- A slot after exit's loop over it: a child goes to `init`, and a sleeper on `init`'s address is
-- woken if the loop met a zombie.
abbrev pub adopted : ℕ → Option ℕ → Proc → Proc
adopted cur init p = if is_parent cur p.parent then record p { parent = init } else p

abbrev pub woken : Bool → Option ℕ → Proc → Proc
woken b init p = if b then wake (chan_of init) p else p

reparent_step : ℕ → ℕ → Option ℕ → Table → Table
reparent_step i cur init t =
    if is_parent cur (t i).parent
    then if state_eq (t i).state zombie
      then wakeup1 (chan_of init) (update t i (record (t i) { parent = init }))
      else update t i (record (t i) { parent = init })
    else t

reparent_step_lem :
    (i cur : ℕ) (init : Option ℕ) (t : Table) (j : ℕ)
    → j < nproc
    → reparent_step i cur init t j
      ≡ woken
          (is_parent cur (t i).parent && state_eq (t i).state zombie)
          init
          (if j == i then adopted cur init (t j) else t j)
unfolding reparent_step
reparent_step_lem i cur init t j h =
    ground (arith, wakeup1_lem (chan_of init) (update t i (record (t i) { parent = init })) j)

-- Waking is idempotent and goes with adoption.
woken-woken :
    (y z : Bool) (init : Option ℕ) (p : Proc)
    → woken z init (woken y init p) ≡ woken (y || z) init p
woken-woken false z init p = refl
woken-woken true false init p = refl
woken-woken true true init p = ground arith

adopted-woken :
    (z : Bool) (cur : ℕ) (init : Option ℕ) (p : Proc)
    → adopted cur init (woken z init p) ≡ woken z init (adopted cur init p)
adopted-woken false cur init p = refl
adopted-woken true cur init p = ground arith

any_zombie-step :
    (k i cur : ℕ) (init : Option ℕ) (t : Table)
    → i + 1 + k ≤ nproc
    → any_zombie k (i + 1) cur (reparent_step i cur init t) ≡ any_zombie k (i + 1) cur t
any_zombie-step k i cur init t h =
    any_zombie-congruent k (i + 1) cur t (reparent_step i cur init t)
      (λ j l l'. ground (arith, reparent_step_lem i cur init t j))

combined :
    (y z : Bool) (cur : ℕ) (init : Option ℕ) (i k j : ℕ) (p r : Proc)
    → r ≡ woken y init (if j == i then adopted cur init p else p)
    → woken z init (if leb (i + 1) j && ltb j (i + 1 + k) then adopted cur init r else r)
      ≡ woken (y || z) init (if leb i j && ltb j (i + suc k) then adopted cur init p else p)
combined y z cur init i k j p r e = elim (ℕ_discrete j i) [
  | yes q ↦
      let here : (leb (i + 1) j && ltb j (i + 1 + k)) ≡ false = ground arith in
      let in_range : (leb i j && ltb j (i + suc k)) ≡ true = ground arith in
      let same : (j == i) ≡ true = ground arith in
      rw (here, in_range, e, same) (woken-woken y z init (adopted cur init p))
  | no q ↦
      let same : (leb (i + 1) j && ltb j (i + 1 + k)) ≡ (leb i j && ltb j (i + suc k)) =
        ground arith in
      let other : (j == i) ≡ false = ground arith in
      rw (same, e, other)
        (elim (Bool-cases (leb i j && ltb j (i + suc k))) [
          | inl in_range ↦
              rw (in_range, adopted-woken y cur init p) (woken-woken y z init (adopted cur init p))
          | inr out ↦ rw out (woken-woken y z init p)
        ])
]

reparent_from_step :
    (k i cur : ℕ) (init : Option ℕ) (t : Table) (j : ℕ)
    → reparent_from (suc k) i cur init t j
      ≡ reparent_from k (i + 1) cur init (reparent_step i cur init t) j
unfolding reparent_from reparent_step
reparent_from_step k i cur init t j = refl

pub reparent_from_lem :
    (k i cur : ℕ) (init : Option ℕ) (t : Table) (j : ℕ)
    → i + k ≤ nproc
    → j < nproc
    → reparent_from k i cur init t j
      ≡ woken
          (any_zombie k i cur t)
          init
          (if leb i j && ltb j (i + k) then adopted cur init (t j) else t j)
reparent_from_lem zero i cur init t j h hj = unfold reparent_from any_zombie in ground arith
reparent_from_lem (suc k) i cur init t j h hj =
    reparent_from_step k i cur init t j
    ∙ reparent_from_lem k (i + 1) cur init (reparent_step i cur init t) j (omega arith) hj
    ∙ ap
        (λ z. woken z init (
          if leb (i + 1) j && ltb j (i + 1 + k)
          then adopted cur init (reparent_step i cur init t j)
          else reparent_step i cur init t j))
        (any_zombie-step k i cur init t (omega arith))
    ∙ unfold any_zombie in
      (combined (is_parent cur (t i).parent && state_eq (t i).state zombie)
        (any_zombie k (i + 1) cur t) cur init i k j (t j) (reparent_step i cur init t j)
        (reparent_step_lem i cur init t j hj))
