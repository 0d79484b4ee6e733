-- ===== src/Lock/Exclusion.antt =====
-- Mutual exclusion, and the interrupt flag, over every interleaving.
use modificacion_sistema_ope.Base.{
  ℕ, ◌-◌, ◌<◌, ◌≡◌, refl, arith, sym, ap, ◌∙◌, Bool, true, false, ◌&&◌, none, some, update, ◌==◌,
  ◌∷◌, count, remove, count-remove, length-remove, count-length,
}
use modificacion_sistema_ope.Lock.Defs.{
  Cpu, Spinlock, Machine, is_cpu, pushcli, popcli, holding, acquire_begin, acquire_try, acquire_end,
  release_begin, release_end,
}
use modificacion_sistema_ope.Lock.Interleave.{
  outside, spinning, taking, leaving, Config, Step, begins, spins, takes, acquires, gives_up,
  releases, start, Reach, starts, steps, Exclusive,
}

pub holding_masked :
    (me : ℕ) (lk : Spinlock) (c : Cpu)
    → 0 < c.ncli
    → c.fl_if ≡ false
    → holding me lk c ≡ some (lk.locked && is_cpu me lk.cpu, c)
unfolding holding popcli pushcli
holding_masked me lk c h f = ground arith

acquire_begin_lem :
    (me lk : ℕ) (m m' : Machine)
    → acquire_begin me lk m ≡ some m'
    → (m'.cpus ≡ update m.cpus me (pushcli (m.cpus me))) × (m'.locks ≡ m.locks)
unfolding acquire_begin
acquire_begin_lem me lk m m' e =
    let h =
      holding_masked me (m.locks lk) (pushcli (m.cpus me)) (unfold pushcli in omega arith)
        (unfold pushcli in refl) in
    ground (arith, h, e)

release_begin_lem :
    (me lk : ℕ) (m m' : Machine)
    → 0 < (m.cpus me).ncli
    → (m.cpus me).fl_if ≡ false
    → release_begin me lk m ≡ some m'
    → (m'.cpus ≡ update m.cpus me (m.cpus me))
      × (m'.locks ≡ update m.locks lk (record (m.locks lk) { cpu = none }))
unfolding release_begin
release_begin_lem me lk m m' h f e =
    ground (arith, holding_masked me (m.locks lk) (m.cpus me) h f, e)

release_end_lem :
    (me lk : ℕ) (m m' : Machine)
    → 0 < (m.cpus me).ncli
    → (m.cpus me).fl_if ≡ false
    → release_end me lk m ≡ some m'
    → (m'.cpus
        ≡ update m.cpus me (record (m.cpus me) {
          ncli = (m.cpus me).ncli - 1;
          fl_if = (m.cpus me).ncli - 1 == 0 && (m.cpus me).intena;
        }))
      × (m'.locks ≡ update m.locks lk (record (m.locks lk) { locked = false }))
unfolding release_end popcli
release_end_lem me lk m m' h f e = ground (arith, e)

module _ (flags : ℕ → Bool) (g : Config) (v : Exclusive flags g) where
  begins-Exclusive :
      (c lk : ℕ) (m : Machine)
      → g.place c ≡ outside
      → acquire_begin c lk g.machine ≡ some m
      → Exclusive flags (record g { machine = m; place = update g.place c (spinning lk) })
  begins-Exclusive c lk m p e =
      let q = acquire_begin_lem c lk g.machine m e in
      record {
        once = λ d k. ground (arith, v.once d k);
        alone = λ a b k ne h. ground (arith, v.alone a b k ne, h);
        free = λ d k f. ground (arith, v.free d k, q.1, f);
        owner = λ d k f. v.owner d k (ap (λ l. (l k).cpu) (sym q.1) ∙ f);
        owned = λ d k f. ap (λ l. (l k).cpu) q.1 ∙ v.owned d k f;
        depth = λ d. unfold pushcli in ground (arith, v.depth d, q.0);
        masked = λ d h. unfold pushcli in ground (arith, v.masked d, v.restored d, q.0, h);
        restored = λ d h. unfold pushcli in ground (arith, v.restored d, q.0, h);
      }

  spins-Exclusive :
      (c lk : ℕ)
      → (acquire_try lk g.machine).0 ≡ true
      → Exclusive flags (record g { machine = (acquire_try lk g.machine).1 })
  unfolding acquire_try
  spins-Exclusive c lk e = record {
    once = v.once;
    alone = v.alone;
    free = λ d k f. v.free d k (ground (arith, e, f));
    owner = λ d k f. v.owner d k (ground (arith, f));
    owned = λ d k f. ground (arith, v.owned d k f);
    depth = v.depth;
    masked = v.masked;
    restored = v.restored;
  }

  takes-Exclusive :
      (c lk : ℕ)
      → g.place c ≡ spinning lk
      → (acquire_try lk g.machine).0 ≡ false
      → Exclusive flags (record g {
        machine = (acquire_try lk g.machine).1;
        place = update g.place c (taking lk);
      })
  unfolding acquire_try
  takes-Exclusive c lk p e = record {
    once = λ d k. ground (arith, v.once d k, v.free d lk e, p);
    alone = λ a b k ne h. ground (arith, v.alone a b k ne, v.free a lk e, v.free b lk e, h, p);
    free = λ d k f. ground (arith, v.free d k, e, f, p);
    owner = λ d k f. v.owner d k (ground (arith, f));
    owned = λ d k f. ground (arith, v.owned d k f);
    depth = λ d. ground (arith, v.depth d, p);
    masked = v.masked;
    restored = v.restored;
  }

  acquires-Exclusive :
      (c lk : ℕ)
      → g.place c ≡ taking lk
      → Exclusive flags (record {
        machine = acquire_end c lk g.machine;
        place = update g.place c outside;
        held = update g.held c (lk ∷ g.held c);
      })
  unfolding acquire_end
  acquires-Exclusive c lk p = record {
    once = λ d k. ground (arith, v.once d k, p);
    alone = λ a b k ne h. ground (arith, v.alone a b k ne, h, p);
    free = λ d k f. ground (arith, v.free d k, f, p);
    owner = λ d k f. ground (arith, v.owner d k, f, p);
    owned = λ d k f. ground (arith, v.owned d k, v.alone c d k, f, p);
    depth = λ d. ground (arith, v.depth d, p);
    masked = v.masked;
    restored = v.restored;
  }

  gives_up-Exclusive :
      (c lk : ℕ) (m : Machine)
      → g.place c ≡ outside
      → 0 < count lk (g.held c)
      → release_begin c lk g.machine ≡ some m
      → Exclusive flags (record {
        machine = m;
        place = update g.place c (leaving lk);
        held = update g.held c (remove lk (g.held c));
      })
  gives_up-Exclusive c lk m p h e =
      let n : 0 < (g.machine.cpus c).ncli = omega (arith, v.depth c, count-length lk (g.held c)) in
      let q = release_begin_lem c lk g.machine m n (v.masked c n).0 e in
      let r = λ (k : ℕ). count-remove k lk (g.held c) in
      record {
        once = λ d k. ground (arith, v.once d k, r k, p);
        alone = λ a b k ne i. ground (arith, v.alone a b k ne, r k, i, p);
        free = λ d k f. ground (arith, v.free d k, q.1, f, r k, p);
        owner = λ d k f. ground (arith, v.owner d k, q.1, f, r k, v.owned c lk, h);
        owned =
            λ d k f. ground (arith, v.owned d k, q.1, f, r k, v.once c lk, v.alone c d lk, h, p);
        depth = λ d.
            ground
              (arith, v.depth d, q.0, p, length-remove lk (g.held c) h, count-length lk (g.held c));
        masked = λ d i. ground (arith, v.masked d, q.0, i);
        restored = λ d i. ground (arith, v.restored d, q.0, i);
      }

  releases-Exclusive :
      (c lk : ℕ) (m : Machine)
      → g.place c ≡ leaving lk
      → release_end c lk g.machine ≡ some m
      → Exclusive flags (record g { machine = m; place = update g.place c outside })
  releases-Exclusive c lk m p e =
      let n : 0 < (g.machine.cpus c).ncli = ground (arith, v.depth c, p) in
      let w = v.masked c n in
      let q = release_end_lem c lk g.machine m n w.0 e in
      record {
        once = λ d k. ground (arith, v.once d k, p);
        alone = λ a b k ne i. ground (arith, v.alone a b k ne, i, p);
        free = λ d k f. ground (arith, v.free d k, v.once c k, v.alone c d k, q.1, f, p);
        owner = λ d k f. ground (arith, v.owner d k, q.1, f);
        owned = λ d k f. ground (arith, v.owned d k, q.1, f);
        depth = λ d. ground (arith, v.depth d, q.0, p);
        masked = λ d i. ground (arith, v.masked d, q.0, i, w);
        restored = λ d i. ground (arith, v.restored d, q.0, i, w);
      }

start-Exclusive : (flags : ℕ → Bool) → Exclusive flags (start flags)
start-Exclusive flags = record {
  once = λ c lk. omega arith;
  alone = λ c d lk ne h. refl;
  free = λ c lk f. refl;
  owner = λ c lk e. cc;
  owned = λ c lk h. absurd (omega arith);
  depth = λ c. refl;
  masked = λ c h. absurd (omega arith);
  restored = λ c h. refl;
}

Step-Exclusive :
    {flags : ℕ → Bool} {g h : Config} → Step g h → Exclusive flags g → Exclusive flags h
Step-Exclusive {flags = f} {g = g} (begins c lk m p e) v = begins-Exclusive f g v c lk m p e
Step-Exclusive {flags = f} {g = g} (spins c lk p e) v = spins-Exclusive f g v c lk e
Step-Exclusive {flags = f} {g = g} (takes c lk p e) v = takes-Exclusive f g v c lk p e
Step-Exclusive {flags = f} {g = g} (acquires c lk p) v = acquires-Exclusive f g v c lk p
Step-Exclusive {flags = f} {g = g} (gives_up c lk m p h e) v = gives_up-Exclusive f g v c lk m p h e
Step-Exclusive {flags = f} {g = g} (releases c lk m p e) v = releases-Exclusive f g v c lk m p e

pub Reach-Exclusive : {flags : ℕ → Bool} {g : Config} → Reach flags g → Exclusive flags g
Reach-Exclusive {flags = f} starts = start-Exclusive f
Reach-Exclusive (steps r s) = Step-Exclusive s (Reach-Exclusive r)
