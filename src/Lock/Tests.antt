-- ===== src/Lock/Tests.antt =====
-- The spin locks' theorems where processor 0 holds lock 5 and processor 1 spins on it.
use modificacion_sistema_ope.Base.{
  ℕ, ◌+◌, ◌<◌, ◌≤◌, ◌≡◌, refl, arith, Bool, true, false, none, some, [], ◌∷◌, count, length, update,
}
use modificacion_sistema_ope.Lock.Defs.{
  Machine, pushcli, popcli, holding, acquire_begin, acquire_try, acquire_end, release_begin,
  release_end,
}
use modificacion_sistema_ope.Lock.Interleave.{
  outside, spinning, taking, leaving, Config, begins, takes, acquires, start, Reach, starts, steps,
  busy,
}
use modificacion_sistema_ope.Lock.Safety.{held-once, release-acquire_return, held-flag}

abbrev open_flags : ℕ → Bool
open_flags c = true

-- Processor `c` after pushcli from the start.
abbrev pushed : ℕ → Machine → Machine
pushed c m = record m { cpus = update m.cpus c (record { ncli = 1; intena = true; fl_if = false }) }

abbrev first : Machine
first = pushed 0 (start open_flags).machine

begun_once : acquire_begin 0 5 (start open_flags).machine ≡ some first
unfolding acquire_begin holding popcli pushcli
begun_once = refl

abbrev taken : Machine
taken = record first {
  locks =
      update (update first.locks 5 (record { locked = true; cpu = none })) 5
        (record { locked = true; cpu = some 0 });
}

abbrev held : Config
held = record {
  machine = taken;
  place = update (update (update (λ c. outside) 0 (spinning 5)) 0 (taking 5)) 0 outside;
  held = update (λ c. []) 0 (5 ∷ []);
}

held-Reach : Reach open_flags held
unfolding acquire_try acquire_end
held-Reach =
    steps (steps (steps starts (begins 0 5 first refl begun_once)) (takes 0 5 refl refl))
      (acquires 0 5 refl)

held-once_example : (count 5 (5 ∷ []) ≤ 1) × (0 < count 5 (5 ∷ []) → count 5 (held.held 1) ≡ 0)
held-once_example = held-once open_flags held held-Reach 0 1 5 (λ e. ground arith)

release-acquire_return_example :
    (held.place 0 ≡ outside
      → count 5 (held.held 0) ≡ 0
      → (m : Machine) × (acquire_begin 0 5 held.machine ≡ some m))
    × (held.place 0 ≡ outside
        → 0 < count 5 (held.held 0)
        → (m : Machine) × (release_begin 0 5 held.machine ≡ some m))
    × (held.place 0 ≡ leaving 5 → (m : Machine) × (release_end 0 5 held.machine ≡ some m))
release-acquire_return_example = release-acquire_return open_flags held held-Reach 0 5

held-flag_example :
    (0 < length (held.held 0) + busy (held.place 0) → (held.machine.cpus 0).fl_if ≡ false)
    × (length (held.held 0) + busy (held.place 0) ≡ 0 → (held.machine.cpus 0).fl_if ≡ true)
held-flag_example = held-flag open_flags held held-Reach 0
