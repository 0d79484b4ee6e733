-- ===== src/Log/Absorb.antt =====
-- log_write: what it does to the header in memory.
use modificacion_sistema_ope.Base.{
  ℕ, zero, suc, ◌+◌, ◌<◌, ◌≤◌, ◌≡◌, ◌≢◌, inl, inr, arith, ◌==◌, ◌∙◌, ℕ_discrete, Bool-cases,
}
use modificacion_sistema_ope.Disk.{Block, Io, fill}
use modificacion_sistema_ope.Log.Defs.{Log, find_slot, absorb, pin, log_write_tests, log_write, ok}
use modificacion_sistema_ope.Log.Crash.{IsHome, IsReady}

pub record Found (block : ℕ → ℕ) (b i n r : ℕ) : Type 0 where
  pub bound : r ≤ n
  pub hit : r < n → block r ≡ b
  first : (j : ℕ) → i ≤ j → j < r → block j ≢ b

pub find_slot-Found :
    (k i : ℕ) (block : ℕ → ℕ) (b n : ℕ) → i + k ≡ n → Found block b i n (find_slot k i block b)
unfolding find_slot
find_slot-Found zero i block b n e = record {
  bound = omega arith;
  hit = λ h. absurd (omega arith);
  first = λ j l h. absurd (omega arith);
}
find_slot-Found (suc k) i block b n e = elim (Bool-cases (block i == b)) [
  | inl same ↦
      rw (same, find_slot)
        (record {
          bound = omega arith;
          hit = λ h. ground arith;
          first = λ j l h. absurd (omega arith);
        })
  | inr differs ↦
      let f = find_slot-Found k (i + 1) block b n (omega arith) in
      rw (differs, find_slot)
        (record {
          bound = f.bound;
          hit = f.hit;
          first = λ j l h. elim (ℕ_discrete i j) [
            | yes q ↦ rw (← q) (ground arith)
            | no q ↦ f.first j (omega arith) h
          ];
        })
]

module _ (b : ℕ) (words : Block) (l : Log) (s : Io) (r : IsReady l s) (hb : IsHome l.start l.size b)
    (room : l.n + 1 < l.size) where
  abbrev slot : ℕ
  slot = find_slot l.n 0 l.block b

  found : Found l.block b 0 l.n slot
  found = find_slot-Found l.n 0 l.block b l.n (omega arith)

  -- The header lists what it did, in place, and `b`.
  pub absorb-kept : (j : ℕ) → j < l.n → (j < (absorb b l).n) × ((absorb b l).block j ≡ l.block j)
  unfolding absorb
  absorb-kept j h = ground (arith, found.bound, found.hit)

  pub absorb-lists : (slot < (absorb b l).n) × ((absorb b l).block slot ≡ b)
  unfolding absorb
  absorb-lists = ground (arith, found.bound)

  pub absorb-IsReady : IsReady (absorb b l) (pin b (fill b words s))
  unfolding absorb
  absorb-IsReady = record {
    room = ground (arith, found.bound);
    distinct = λ i j hi hj e. ground (
      arith,
      found.bound,
      found.hit,
      found.first i,
      found.first j,
      r.distinct i j,
      r.distinct i slot,
      r.distinct slot j,
    );
    home = λ j h. ground (arith, found.bound, r.home j);
    clean = r.clean;
    synced = λ c hc o. ground (
      arith,
      o slot,
      absorb-lists,
      r.synced c hc (λ j h e. o j (absorb-kept j h).0 ((absorb-kept j h).1 ∙ e)),
    );
  }

  -- The count grows only by a block that was not there.
  pub absorb-n : ((j : ℕ) × (j < l.n) × (l.block j ≡ b)) → (absorb b l).n ≡ l.n
  unfolding absorb
  absorb-n (j, h, e) = ground (arith, found.bound, found.first j (omega arith))

-- log_write of a modified home block keeps the log ready for commit, with the new contents in the
-- cache; the header lists the block and what it listed before, and it grows by one entry unless
-- it listed the block already.
pub log_write-IsReady :
    (b : ℕ) (words : Block) (l : Log) (s : Io) {l' : Log} {s' : Io}
    → IsReady l s
    → IsHome l.start l.size b
    → log_write b l (fill b words s) ≡ ok l' s'
    → IsReady l' s'
      × (s'.cache b ≡ words)
      × ((j : ℕ) × (j < l'.n) × (l'.block j ≡ b))
      × ((j : ℕ) → j < l.n → (j < l'.n) × (l'.block j ≡ l.block j))
      × (((j : ℕ) × (j < l.n) × (l.block j ≡ b)) → l'.n ≡ l.n)
unfolding log_write log_write_tests
log_write-IsReady b words l s {l'} {s'} r hb e =
    let k : (l' ≡ absorb b l) × (s' ≡ pin b (fill b words s)) × (l.n + 1 < l.size) = ground arith in
    rw (k.0, k.1)
      (
        absorb-IsReady b words l s r hb k.2,
        ground arith,
        (
          find_slot l.n 0 l.block b,
          (absorb-lists b words l s r hb k.2).0,
          (absorb-lists b words l s r hb k.2).1,
        ),
        absorb-kept b words l s r hb k.2,
        absorb-n b words l s r hb k.2,
      )
