-- ===== src/Log/Crash/Install.antt =====
-- Installing the log and clearing the header, as commit and recovery both end: the disk stands
-- for the same file system wherever the power fails.
use modificacion_sistema_ope.Base.{
  ℕ, suc, ◌+◌, ◌-◌, ◌<◌, ◌≤◌, ◌≡◌, ◌≢◌, inl, inr, arith, ◌∙◌, dec_lt,
}
use modificacion_sistema_ope.Disk.{
  Block, Io, disk_write, copy_blocks-disk_other, copy_blocks-disk_to, copy_blocks-power,
}
use modificacion_sistema_ope.Log.Defs.{Log, install_trans, write_head, copy_words}
use modificacion_sistema_ope.Log.Crash.Image.{IsHome, Logged, StandsFor, find_below}

-- A cleared header stands for the home blocks themselves.
pub Logged-clear :
    {start size : ℕ} {disk fs : ℕ → Block} (block : ℕ → ℕ)
    → 0 < size
    → disk start 0 ≡ 0
    → ((b : ℕ) → IsHome start size b → disk b ≡ fs b)
    → Logged start size 0 block disk fs
Logged-clear block pos e same = record {
  count = e;
  words = λ j h. absurd (omega arith);
  room = pos;
  distinct = λ i j h. absurd (omega arith);
  home = λ j h. absurd (omega arith);
  slot = λ j h. absurd (omega arith);
  other = λ b hb o. same b hb;
}

module _ {size : ℕ} {fs : ℕ → Block} (l : Log) (s : Io)
    (g : Logged l.start size l.n l.block s.disk fs)
    (cached : (j : ℕ) → j < l.n → s.cache (l.start + j + 1) ≡ fs (l.block j)) where
  apart : (i j : ℕ) → i < l.n → j < l.n → l.start + i + 1 ≢ l.block j
  apart i j hi hj = ground (arith, g.home j hj, g.room)

  install_other :
      (b : ℕ) → ((j : ℕ) → j < l.n → l.block j ≢ b) → (install_trans l s).disk b ≡ s.disk b
  unfolding install_trans
  install_other b o =
      copy_blocks-disk_other l.block (λ t. l.start + t + 1) l.n g.distinct apart l.n 0 b s
        (omega arith) (λ j _ h. o j h)

  install_to :
      (j : ℕ) → j < l.n → j < s.power → (install_trans l s).disk (l.block j) ≡ fs (l.block j)
  unfolding install_trans
  install_to j h p =
      copy_blocks-disk_to l.block (λ t. l.start + t + 1) l.n g.distinct apart l.n 0 j s
        (omega arith) (omega arith) h (omega arith)
      ∙ cached j h

  install_power : (install_trans l s).power ≡ s.power - l.n
  unfolding install_trans
  install_power = copy_blocks-power l.block (λ t. l.start + t + 1) l.n 0 s

  -- Blocks of the log itself stay.
  install_log : (b : ℕ) → l.start ≤ b → b < l.start + size → (install_trans l s).disk b ≡ s.disk b
  install_log b lo hi = install_other b (λ j h. ground (arith, g.home j h))

  -- With power for the installation, each home block has its contents.
  install_all : l.n ≤ s.power → (b : ℕ) → IsHome l.start size b → (install_trans l s).disk b ≡ fs b
  install_all p b hb = elim (find_below l.n l.block b) [
    | inl (j, h, e) ↦ rw (← e) (install_to j h (omega arith))
    | inr o ↦ install_other b o ∙ g.other b hb o
  ]

  -- Without power for the header the log stays committed.
  install_Logged : Logged l.start size l.n l.block (install_trans l s).disk fs
  install_Logged = record {
    count = rw (install_log l.start (omega arith) (omega (arith, g.room))) g.count;
    words = λ j h. rw (install_log l.start (omega arith) (omega (arith, g.room))) (g.words j h);
    room = g.room;
    distinct = g.distinct;
    home = g.home;
    slot = λ j h. install_log (l.start + j + 1) (omega arith) (omega (arith, g.room)) ∙ g.slot j h;
    other = λ b hb o. install_other b o ∙ g.other b hb o;
  }

  -- The header that is cleared last.
  abbrev cleared : Io
  cleared = write_head (record l { n = 0 }) (install_trans l s)

  cleared_dead : s.power ≤ l.n → cleared.disk ≡ (install_trans l s).disk
  unfolding write_head
  cleared_dead p =
      let e : (install_trans l s).power ≡ 0 = omega (arith, install_power) in rw (e, disk_write)

  pub cleared_live :
      l.n < s.power
      → (cleared.disk l.start 0 ≡ 0) × ((b : ℕ) → IsHome l.start size b → cleared.disk b ≡ fs b)
  unfolding write_head copy_words
  cleared_live p =
      let e : (install_trans l s).power ≡ suc (s.power - l.n - 1) = omega (arith, install_power) in
      (
        rw (e, disk_write) (ground arith),
        λ b hb. rw (e, disk_write) (ground (arith, install_all (omega arith) b hb, g.room)),
      )

  -- Wherever the power fails, the disk stands for the same file system.
  pub cleared-StandsFor : StandsFor l.start size cleared.disk fs
  cleared-StandsFor = elim (dec_lt l.n s.power) [
    | yes p ↦ (
      0,
      l.block,
      Logged-clear l.block (omega (arith, g.room)) (cleared_live p).0 (cleared_live p).1,
    )
    | no p ↦ (l.n, l.block, rw (cleared_dead (omega arith)) install_Logged)
  ]
