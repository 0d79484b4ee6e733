-- ===== src/Log/Crash/Commit.antt =====
-- commit and recover_from_log under power failures: a transaction happens whole or not at all.
use modificacion_sistema_ope.Base.{
  ℕ, zero, suc, ◌+◌, ◌-◌, ◌<◌, ◌≤◌, ◌≡◌, ◌≢◌, arith, sym, ◌∙◌, refl, List, [], ◌∷◌, dec_lt, update,
  subst, fun_ext, ltb, lt→ltb, le→ltb, if◌then◌else◌,
}
use modificacion_sistema_ope.Disk.{
  Block, Io, reboot, disk_write, copy_block, copy_blocks, copy_blocks-disk_other,
  copy_blocks-disk_to, copy_blocks-power, copy_blocks-cache_to,
}
use modificacion_sistema_ope.Log.Defs.{
  Log, write_log, install_trans, write_head, recover_from_log, read_head, read_words, commit,
  initlog,
}
use modificacion_sistema_ope.Log.Header.{read_words-word, copy_words-count, copy_words-word}
use modificacion_sistema_ope.Log.Crash.Image.{IsHome, Logged, StandsFor, IsReady, Logged-ext}
use modificacion_sistema_ope.Log.Crash.Install.{Logged-clear, cleared-StandsFor, cleared_live}

-- The header as read_head reads it.
Logged-read :
    {start size n : ℕ} {block : ℕ → ℕ} {disk fs : ℕ → Block} (old : ℕ → ℕ)
    → Logged start size n block disk fs
    → Logged start size (disk start 0) (read_words (disk start 0) 0 (disk start) old) disk fs
Logged-read {start} {size} {n} {block} {disk} {fs} old g =
    subst (λ m. Logged start size m (read_words m 0 (disk start) old) disk fs) (sym g.count)
      (Logged-ext (read_words n 0 (disk start) old)
        (λ j h. read_words-word n 0 (disk start) old j (omega arith) (omega arith) ∙ g.words j h) g)

module _ {size n : ℕ} {block : ℕ → ℕ} {fs : ℕ → Block} (l : Log) (disk : ℕ → Block) (q : ℕ)
    (g : Logged l.start size n block disk fs) where
  -- recover_from_log may lose its power anywhere.
  pub recover-StandsFor : StandsFor l.start size (recover_from_log l (reboot q disk)).1.disk fs
  unfolding recover_from_log read_head
  recover-StandsFor =
      let g' = Logged-read l.block g in
      cleared-StandsFor (read_head l (reboot q disk)) (reboot q disk) g' (λ j h. g'.slot j h)

  -- With power to the end it gives each home block its contents and clears the header.
  pub recover_all :
      size ≤ q
      → ((recover_from_log l (reboot q disk)).1.disk l.start 0 ≡ 0)
        × ((b : ℕ) → IsHome l.start size b → (recover_from_log l (reboot q disk)).1.disk b ≡ fs b)
  unfolding recover_from_log read_head
  recover_all h =
      let g' = Logged-read l.block g in
      cleared_live (read_head l (reboot q disk)) (reboot q disk) g' (λ j h. g'.slot j h)
        (omega (arith, g'.room))

copy_blocks-dead :
    (to from : ℕ → ℕ) (k t : ℕ) (s : Io) → s.power ≡ 0 → (copy_blocks k t to from s).disk ≡ s.disk
unfolding copy_blocks
copy_blocks-dead to from zero t s e = refl
copy_blocks-dead to from (suc k) t s e =
    copy_blocks-dead to from k (t + 1) (copy_block (to t) (from t) s) (omega arith)
    ∙ rw (e, disk_write)

module _ (l : Log) (s : Io) (r : IsReady l s) where
  abbrev slot : ℕ → ℕ
  slot j = l.start + j + 1

  slot-injective : (i j : ℕ) → i < l.n → j < l.n → slot i ≡ slot j → i ≡ j
  slot-injective i j hi hj e = omega arith

  apart : (i j : ℕ) → i < l.n → j < l.n → l.block i ≢ slot j
  apart i j hi hj = ground (arith, r.home i hi, r.room)

  log-other : (b : ℕ) → ((j : ℕ) → j < l.n → slot j ≢ b) → (write_log l s).disk b ≡ s.disk b
  unfolding write_log
  log-other b o =
      copy_blocks-disk_other slot l.block l.n slot-injective apart l.n 0 b s (omega arith)
        (λ j _ h. o j h)

  log-start : (write_log l s).disk l.start ≡ s.disk l.start
  log-start = log-other l.start (λ j h. omega arith)

  log-home : (b : ℕ) → IsHome l.start l.size b → (write_log l s).disk b ≡ s.disk b
  log-home b hb = log-other b (λ j h. ground (arith, r.room))

  log-slot : l.n ≤ s.power → (j : ℕ) → j < l.n → (write_log l s).disk (slot j) ≡ s.cache (l.block j)
  unfolding write_log
  log-slot p j h =
      copy_blocks-disk_to slot l.block l.n slot-injective apart l.n 0 j s (omega arith)
        (omega arith) h (omega arith)

  log-cache : (j : ℕ) → j < l.n → (write_log l s).cache (slot j) ≡ s.cache (l.block j)
  unfolding write_log
  log-cache j h =
      copy_blocks-cache_to slot l.block l.n slot-injective apart l.n 0 j s (omega arith)
        (omega arith) h

  log-power : (write_log l s).power ≡ s.power - l.n
  unfolding write_log
  log-power = copy_blocks-power slot l.block l.n 0 s

  -- The header's buffer before the block numbers are copied into it.
  abbrev counted : Block
  counted = update ((write_log l s).cache l.start) 0 l.n

  abbrev headed : Io
  headed = write_head l (write_log l s)

  -- Once the header is written, the disk stands for the new contents.
  headed-Logged : l.n < s.power → Logged l.start l.size l.n l.block headed.disk s.cache
  unfolding write_head
  headed-Logged p =
      let e : (write_log l s).power ≡ suc (s.power - l.n - 1) = omega (arith, log-power) in
      rw (e, disk_write)
        (record {
          count = ground (arith, copy_words-count l.n l.block counted);
          words = λ j h.
              ground (arith, copy_words-word l.n 0 l.block counted j (omega arith) (omega arith));
          room = r.room;
          distinct = r.distinct;
          home = r.home;
          slot = λ j h. ground (arith, log-slot (omega arith) j h);
          other = λ b hb o. ground (arith, log-home b hb, r.synced b hb o, r.room);
        })

  headed-cache : (j : ℕ) → j < l.n → headed.cache (slot j) ≡ s.cache (l.block j)
  unfolding write_head
  headed-cache j h = ground (arith, log-cache j h)

  -- Before, it still stands for the old ones.
  dead : s.power ≤ l.n → (install_trans l headed).disk ≡ (write_log l s).disk
  unfolding write_head install_trans
  dead p =
      let e : (write_log l s).power ≡ 0 = omega (arith, log-power) in
      copy_blocks-dead l.block slot l.n 0 headed (omega arith) ∙ rw (e, disk_write)

  installed-power : s.power ≤ l.n → (install_trans l headed).power ≡ 0
  unfolding write_head install_trans
  installed-power p = omega (arith, copy_blocks-power l.block slot l.n 0 headed, log-power)

-- The disk after boots whose recovery lost its power after `q₁, q₂, …` writes, one after another;
-- `old` is whatever the memory of the log holds then.
abbrev pub crashes : ℕ → ℕ → Log → List ℕ → (ℕ → Block) → ℕ → Block
crashes start size old [] disk = disk
crashes start size old (q ∷ qs) disk =
    crashes start size old qs (initlog start size old (reboot q disk)).1.disk

crashes-StandsFor :
    {start size : ℕ} {fs : ℕ → Block} (old : Log) (qs : List ℕ) (disk : ℕ → Block)
    → StandsFor start size disk fs
    → StandsFor start size (crashes start size old qs disk) fs
unfolding initlog
crashes-StandsFor old [] disk st = st
crashes-StandsFor {start} {size} old (q ∷ qs) disk st =
    crashes-StandsFor old qs _
      (recover-StandsFor (record old { start = start; size = size }) disk q st.2)

-- What a home block holds once the transaction is decided.
abbrev pub outcome : Log → Io → ℕ → Block
outcome l s b = if ltb l.n s.power then s.cache b else s.disk b

outcome-new : (l : Log) (s : Io) → l.n < s.power → outcome l s ≡ s.cache
outcome-new l s p = fun_ext (λ b. ground arith)

outcome-old : (l : Log) (s : Io) → s.power ≤ l.n → outcome l s ≡ s.disk
outcome-old l s p = fun_ext (λ b. ground arith)

commit_new :
    (l : Log) (s : Io)
    → IsReady l s
    → 0 < l.n
    → l.n < s.power
    → StandsFor l.start l.size (commit l s).1.disk s.cache
unfolding commit
commit_new l s r some_logged p =
    rw (lt→ltb 0 l.n some_logged)
      (cleared-StandsFor l (headed l s r) (headed-Logged l s r p) (headed-cache l s r))

commit_old :
    (l : Log) (s : Io)
    → IsReady l s
    → 0 < l.n
    → s.power ≤ l.n
    → (commit l s).1.disk ≡ (write_log l s).disk
unfolding commit write_head
commit_old l s r some_logged p =
    let e : (install_trans l (headed l s r)).power ≡ 0 = installed-power l s r p in
    rw (lt→ltb 0 l.n some_logged, e, disk_write) (dead l s r p)

commit_idle :
    (l : Log) (s : Io)
    → IsReady l s
    → l.n ≡ 0
    → StandsFor l.start l.size (commit l s).1.disk (outcome l s)
unfolding commit
commit_idle l s r idle = (
  0,
  l.block,
  rw (le→ltb 0 l.n (omega arith), if◌then◌else◌)
      (Logged-clear l.block (omega (arith, r.room)) r.clean
        (λ b hb. ground (arith, r.synced b hb (λ j h. absurd (omega arith))))),
)

-- commit under any power stands for the old file system or the new one.
commit-StandsFor :
    (l : Log) (s : Io) → IsReady l s → StandsFor l.start l.size (commit l s).1.disk (outcome l s)
commit-StandsFor l s r = elim (dec_lt 0 l.n) [
  | yes some_logged ↦ elim (dec_lt l.n s.power) [
    | yes p ↦ rw (outcome-new l s p) (commit_new l s r some_logged p)
    | no p ↦
        rw (outcome-old l s (omega arith), commit_old l s r some_logged (omega arith))
          (
            0,
            l.block,
            Logged-clear l.block (omega (arith, r.room)) (rw (log-start l s r) r.clean)
                (log-home l s r),
          )
  ]
  | no idle ↦ commit_idle l s r (omega arith)
]

-- A transaction is atomic. Let commit of a ready log run on a supply that fails after any number
-- `s.power` of disk writes, let any number of boots follow whose recoveries lose their power after
-- any number of writes, and let a last boot recover with power for `l.size` writes. Then every
-- home block holds its new contents, if commit's power sufficed for the blocks and the header, and
-- its old contents otherwise; and the header on the disk is clear.
pub crash_atomic :
    (l : Log) (s : Io) (old : Log) (qs : List ℕ) (q : ℕ)
    → IsReady l s
    → l.size ≤ q
    → let disk : (ℕ → Block) =
        (initlog l.start l.size old
          (reboot q (crashes l.start l.size old qs (commit l s).1.disk))).1.disk in
      (disk l.start 0 ≡ 0)
      × ((b : ℕ)
          → IsHome l.start l.size b
          → disk b ≡ (if ltb l.n s.power then s.cache b else s.disk b))
unfolding initlog
crash_atomic l s old qs q r h =
    let st : StandsFor l.start l.size (crashes l.start l.size old qs (commit l s).1.disk)
        (outcome l s) =
      crashes-StandsFor old qs _ (commit-StandsFor l s r) in
    recover_all (record old { start = l.start; size = l.size }) _ q st.2 h
