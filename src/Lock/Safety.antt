-- ===== src/Lock/Safety.antt =====
-- What the spin locks promise to the rest of the kernel.
use modificacion_sistema_ope.Base.{
  ℕ, ◌+◌, ◌-◌, ◌<◌, ◌≤◌, ◌≡◌, ◌≢◌, refl, arith, Bool, true, false, ◌&&◌, none, some, update, ◌==◌,
  count, length, count-length,
}
use modificacion_sistema_ope.Lock.Defs.{
  Machine, is_cpu, pushcli, popcli, acquire_begin, release_begin, release_end,
}
use modificacion_sistema_ope.Lock.Interleave.{outside, leaving, Config, Reach, busy}
use modificacion_sistema_ope.Lock.Exclusion.{holding_masked, Reach-Exclusive}

acquire_begin_works :
    (me lk : ℕ) (m : Machine)
    → ((m.locks lk).locked && is_cpu me (m.locks lk).cpu) ≡ false
    → (m' : Machine) × (acquire_begin me lk m ≡ some m')
unfolding acquire_begin
acquire_begin_works me lk m e =
    let h =
      holding_masked me (m.locks lk) (pushcli (m.cpus me)) (unfold pushcli in omega arith)
        (unfold pushcli in refl) in
    (record m { cpus = update m.cpus me (pushcli (m.cpus me)) }, ground (arith, h, e))

release_begin_works :
    (me lk : ℕ) (m : Machine)
    → 0 < (m.cpus me).ncli
    → (m.cpus me).fl_if ≡ false
    → ((m.locks lk).locked && is_cpu me (m.locks lk).cpu) ≡ true
    → (m' : Machine) × (release_begin me lk m ≡ some m')
unfolding release_begin
release_begin_works me lk m n f e = (
  record {
    cpus = update m.cpus me (m.cpus me);
    locks = update m.locks lk (record (m.locks lk) { cpu = none });
  },
  ground (arith, holding_masked me (m.locks lk) (m.cpus me) n f, e),
)

release_end_works :
    (me lk : ℕ) (m : Machine)
    → 0 < (m.cpus me).ncli
    → (m.cpus me).fl_if ≡ false
    → (m' : Machine) × (release_end me lk m ≡ some m')
unfolding release_end popcli
release_end_works me lk m n f = (
  record {
    cpus = update m.cpus me (record (m.cpus me) {
      ncli = (m.cpus me).ncli - 1;
      fl_if = (m.cpus me).ncli - 1 == 0 && (m.cpus me).intena;
    });
    locks = update m.locks lk (record (m.locks lk) { locked = false });
  },
  ground (arith, n, f),
)

module _ (flags : ℕ → Bool) (g : Config) (r : Reach flags g) where
  -- In every reachable state, two processors never hold the same lock, and none holds a lock
  -- twice.
  pub held-once :
      (c d lk : ℕ)
      → c ≢ d
      → (count lk (g.held c) ≤ 1) × (0 < count lk (g.held c) → count lk (g.held d) ≡ 0)
  held-once c d lk ne =
      let v = Reach-Exclusive r in
      (omega (arith, v.once c lk), λ h. omega (arith, v.alone c d lk ne (omega arith)))

  -- In every reachable state, acquire of a lock that the processor does not hold, release of one
  -- that it holds, and the rest of a release do not panic.
  pub release-acquire_return :
      (c lk : ℕ)
      → (g.place c ≡ outside
          → count lk (g.held c) ≡ 0
          → (m : Machine) × (acquire_begin c lk g.machine ≡ some m))
        × (g.place c ≡ outside
            → 0 < count lk (g.held c)
            → (m : Machine) × (release_begin c lk g.machine ≡ some m))
        × (g.place c ≡ leaving lk → (m : Machine) × (release_end c lk g.machine ≡ some m))
  release-acquire_return c lk =
      let v = Reach-Exclusive r in
      (
        λ p h. acquire_begin_works c lk g.machine (ground (arith, v.owner c lk, h)),
        λ p h.
            let n : 0 < (g.machine.cpus c).ncli =
              omega (arith, v.depth c, count-length lk (g.held c)) in
            release_begin_works c lk g.machine n (v.masked c n).0
              (ground (arith, v.free c lk, v.owned c lk, h)),
        λ p.
            let n : 0 < (g.machine.cpus c).ncli = ground (arith, v.depth c, p) in
            release_end_works c lk g.machine n (v.masked c n).0,
      )

  -- In every reachable state, interrupts are off on a processor that holds a lock or is in
  -- acquire or release, and are as they were at the start on any other.
  pub held-flag :
      (c : ℕ)
      → (0 < length (g.held c) + busy (g.place c) → (g.machine.cpus c).fl_if ≡ false)
        × (length (g.held c) + busy (g.place c) ≡ 0 → (g.machine.cpus c).fl_if ≡ flags c)
  held-flag c =
      let v = Reach-Exclusive r in
      (λ h. (v.masked c (omega (arith, v.depth c))).0, λ h. v.restored c (omega (arith, v.depth c)))
