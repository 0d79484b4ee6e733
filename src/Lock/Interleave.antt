-- ===== src/Lock/Interleave.antt =====
-- Every interleaving of acquire and release on any number of processors.
use modificacion_sistema_ope.Base.{
  ℕ, ◌+◌, ◌<◌, ◌≤◌, ◌≡◌, ◌≢◌, Bool, true, false, none, some, update, ◌==◌, if◌then◌else◌, List, [],
  ◌∷◌, count, remove, length,
}
use modificacion_sistema_ope.Lock.Defs.{
  Machine, acquire_begin, acquire_try, acquire_end, release_begin, release_end,
}

-- Where a processor is: outside acquire and release, in acquire's loop, after the exchange that
-- took the lock, or in release after it gave up the lock's `cpu`.
pub data Place : Type 0 where
  outside : Place
  spinning : ℕ → Place
  taking : ℕ → Place
  leaving : ℕ → Place

-- The machine, where its processors are, and the locks that acquire has returned with.
pub record Config : Type 0 where
  pub machine : Machine
  pub place : ℕ → Place
  pub held : ℕ → List ℕ

-- A processor calls acquire of any lock that it does not hold, and release of any that it holds.
pub data Step (g : Config) : Config → Type 0 where
  begins :
      (c lk : ℕ) (m : Machine)
      → g.place c ≡ outside
      → acquire_begin c lk g.machine ≡ some m
      → Step g (record g { machine = m; place = update g.place c (spinning lk) })
  spins :
      (c lk : ℕ)
      → g.place c ≡ spinning lk
      → (acquire_try lk g.machine).0 ≡ true
      → Step g (record g { machine = (acquire_try lk g.machine).1 })
  takes :
      (c lk : ℕ)
      → g.place c ≡ spinning lk
      → (acquire_try lk g.machine).0 ≡ false
      → Step g (record g {
        machine = (acquire_try lk g.machine).1;
        place = update g.place c (taking lk);
      })
  acquires :
      (c lk : ℕ)
      → g.place c ≡ taking lk
      → Step g (record {
        machine = acquire_end c lk g.machine;
        place = update g.place c outside;
        held = update g.held c (lk ∷ g.held c);
      })
  gives_up :
      (c lk : ℕ) (m : Machine)
      → g.place c ≡ outside
      → 0 < count lk (g.held c)
      → release_begin c lk g.machine ≡ some m
      → Step g (record {
        machine = m;
        place = update g.place c (leaving lk);
        held = update g.held c (remove lk (g.held c));
      })
  releases :
      (c lk : ℕ) (m : Machine)
      → g.place c ≡ leaving lk
      → release_end c lk g.machine ≡ some m
      → Step g (record g { machine = m; place = update g.place c outside })

-- All locks free, no processor in acquire or release.
abbrev pub start : (ℕ → Bool) → Config
start flags = record {
  machine = record {
    cpus = λ c. record { ncli = 0; intena = false; fl_if = flags c };
    locks = λ lk. record { locked = false; cpu = none };
  };
  place = λ c. outside;
  held = λ c. [];
}

pub data Reach (flags : ℕ → Bool) : Config → Type 0 where
  starts : Reach flags (start flags)
  steps : {g h : Config} → Reach flags g → Step g h → Reach flags h

abbrev pub busy : Place → ℕ
busy outside = 0
busy (spinning lk) = 1
busy (taking lk) = 1
busy (leaving lk) = 1

-- A processor between the exchange of acquire and the store of release has the lock.
abbrev pub passing : ℕ → Place → ℕ
passing lk outside = 0
passing lk (spinning k) = 0
passing lk (taking k) = if lk == k then 1 else 0
passing lk (leaving k) = if lk == k then 1 else 0

abbrev pub inside : Config → ℕ → ℕ → ℕ
inside g c lk = count lk (g.held c) + passing lk (g.place c)

pub record Exclusive (flags : ℕ → Bool) (g : Config) : Type 0 where
  pub once : (c lk : ℕ) → inside g c lk ≤ 1
  pub alone : (c d lk : ℕ) → c ≢ d → 0 < inside g c lk → inside g d lk ≡ 0
  pub free : (c lk : ℕ) → (g.machine.locks lk).locked ≡ false → inside g c lk ≡ 0
  pub owner : (c lk : ℕ) → (g.machine.locks lk).cpu ≡ some c → 0 < count lk (g.held c)
  pub owned : (c lk : ℕ) → 0 < count lk (g.held c) → (g.machine.locks lk).cpu ≡ some c
  -- ncli counts the locks, and the flag is off while it is positive and restored when it is not.
  pub depth : (c : ℕ) → (g.machine.cpus c).ncli ≡ length (g.held c) + busy (g.place c)
  pub masked :
      (c : ℕ)
      → 0 < (g.machine.cpus c).ncli
      → ((g.machine.cpus c).fl_if ≡ false) × ((g.machine.cpus c).intena ≡ flags c)
  pub restored : (c : ℕ) → (g.machine.cpus c).ncli ≡ 0 → (g.machine.cpus c).fl_if ≡ flags c
