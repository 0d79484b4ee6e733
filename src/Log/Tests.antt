-- ===== src/Log/Tests.antt =====
-- The log's theorems at concrete transactions, and runs of the code.
use modificacion_sistema_ope.Base.{
  ℕ, ◌<◌, ◌≡◌, refl, arith, update, ◌==◌, ◌↔◌, true, false, Bool, [], ◌∷◌, some, if◌then◌else◌, ltb,
  inr, ◌≤◌, ◌-◌, ◌⊎◌, none,
}
use modificacion_sistema_ope.Disk.{Block, Io, fill, reboot, copy_blocks}
use modificacion_sistema_ope.Log.Defs.{
  Log, commit, initlog, recover_from_log, write_log, write_head, install_trans, read_head,
  copy_words, read_words, absorb, pin, log_write_tests, log_size, too_big, log_write, ok, begin_op,
  end_op_enter,
}
use modificacion_sistema_ope.Log.Crash.{IsHome, IsReady, crashes, crash_atomic}
use modificacion_sistema_ope.Log.Absorb.{log_write-IsReady}
use modificacion_sistema_ope.Log.Space.{
  Reach, idle, Calls, booted, after, begin, log_write-has-room, end_op-alone,
}

-- A log of four blocks from block 2 on; block 8 holds 5, and is to hold 7.
abbrev empty_log : Log
empty_log = record {
  start = 2;
  size = 4;
  outstanding = 1;
  committing = false;
  n = 0;
  block = λ _. 0;
}

abbrev old_disk : ℕ → Block
old_disk = update (λ _ _. 0) 8 (λ _. 5)

abbrev supplied : ℕ → Io
supplied p = reboot p old_disk

abbrev sevens : Block
sevens = λ _. 7

abbrev one_block : Log
one_block = record empty_log { n = 1; block = λ j. if j == 0 then 8 else 0 }

abbrev modified : ℕ → Io
modified p = pin 8 (fill 8 sevens (supplied p))

empty_log-IsReady : (p : ℕ) → IsReady empty_log (supplied p)
empty_log-IsReady p = record {
  room = omega arith;
  distinct = λ i j h. absurd (omega arith);
  home = λ j h. absurd (omega arith);
  clean = refl;
  synced = λ b hb o. refl;
}

one_block-IsReady : (p : ℕ) → IsReady one_block (modified p)
one_block-IsReady p = record {
  room = omega arith;
  distinct = λ i j hi hj e. omega arith;
  home = λ j h. ground arith;
  clean = refl;
  synced = λ b hb o. ground (arith, o 0 (omega arith));
}

-- The header's slot in memory after log_write of block 8.
write_one :
    log_write 8 empty_log (fill 8 sevens (supplied 3)) ≡ ok (absorb 8 empty_log) (modified 3)
unfolding log_write log_write_tests
write_one = refl

-- Power for one write: the header is never written, and a recovery leaves the old block.
crash_old : (initlog 2 4 empty_log (reboot 9 (commit one_block (modified 1)).1.disk)).1.disk 8 0 ≡ 5
unfolding commit write_log write_head install_trans initlog recover_from_log read_head copy_blocks
    copy_words read_words
crash_old = refl

-- Power for the block and the header: a recovery installs the block.
crash_new : (initlog 2 4 empty_log (reboot 9 (commit one_block (modified 2)).1.disk)).1.disk 8 0 ≡ 7
unfolding commit write_log write_head install_trans initlog recover_from_log read_head copy_blocks
    copy_words read_words
crash_new = refl

crash_atomic_example :
    let disk : (ℕ → Block) =
      (initlog 2 4 empty_log (
        reboot 4 (crashes 2 4 empty_log (1 ∷ []) (commit one_block (modified 2)).1.disk))).1.disk in
    (disk 2 0 ≡ 0)
    × ((b : ℕ)
        → IsHome 2 4 b
        → disk b ≡ (if ltb 1 2 then (modified 2).cache b else (modified 2).disk b))
crash_atomic_example =
    crash_atomic one_block (modified 2) empty_log (1 ∷ []) 4 (one_block-IsReady 2) (omega arith)

log_write-IsReady_example :
    IsReady (absorb 8 empty_log) (modified 3)
    × ((modified 3).cache 8 ≡ sevens)
    × ((j : ℕ) × (j < (absorb 8 empty_log).n) × ((absorb 8 empty_log).block j ≡ 8))
    × ((j : ℕ) → j < 0 → (j < (absorb 8 empty_log).n) × ((absorb 8 empty_log).block j ≡ 0))
    × (((j : ℕ) × (j < 0) × (◌≡◌ {A = ℕ} 0 8)) → (absorb 8 empty_log).n ≡ 0)
log_write-IsReady_example =
    log_write-IsReady 8 sevens empty_log (supplied 3) (empty_log-IsReady 3) (inr (omega arith))
      write_one

-- One call is under way on a log of 30 blocks, as mkfs makes it.
abbrev boot_log : Log
boot_log = record {
  start = 2;
  size = 30;
  outstanding = 0;
  committing = false;
  n = 0;
  block = λ _. 0;
}

abbrev one_call : Calls
one_call = record { log = record boot_log { outstanding = 1 }; io = supplied 9; ops = idle 10 ∷ [] }

one_call-Reach : Reach 2 30 (supplied 9) one_call
unfolding begin_op
one_call-Reach = after (booted (λ _. 0)) (
    begin (record { log = boot_log; io = supplied 9; ops = [] })
      (record boot_log { outstanding = 1 }) refl)

log_write-has-room_example :
    (◌<◌ 0 log_size)
    × (((log_write_tests one_call.log ≡ none) × (0 < 30 - 1))
        ⊎ ((log_write_tests one_call.log ≡ some too_big) × (30 ≤ log_size) × (30 - 1 ≤ 0)))
log_write-has-room_example = log_write-has-room [] [] (idle 10) one_call-Reach refl (omega arith)

end_op-alone_example :
    (last : Bool) × (l : Log) × (end_op_enter one_call.log ≡ some (last, l))
    × ((last ≡ true) ↔ (◌≡◌ {A = ℕ} 0 0))
end_op-alone_example = end_op-alone [] [] (idle 10) one_call-Reach refl
