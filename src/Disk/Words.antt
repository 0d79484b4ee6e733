-- ===== src/Disk/Words.antt =====
-- Blocks, buffers and disk writes: bread, bwrite and memmove of whole blocks as log.c calls them.
use modificacion_sistema_ope.Base.{ℕ, zero, suc, Bool, false, update, ◌-◌}

-- A block's data, read as an array of words (`(struct logheader *) buf->data`).
abbrev pub Block : Type 0
Block = ℕ → ℕ

-- `disk` is what the disk holds. `cache b` is what bread(b) gives: the data of the buffer of block
-- `b`, or the disk's, where no buffer caches `b`. `power` is the number of disk writes that still
-- reach the disk; a write after them is lost, and the machine stops at some point from there on.
pub record Io : Type 0 where
  pub disk : ℕ → Block
  pub cache : ℕ → Block
  pub dirty : ℕ → Bool
  pub power : ℕ

-- `memmove(b->data, data, BSIZE)` on the buffer of block `b`.
abbrev pub fill : ℕ → Block → Io → Io
fill b words s = record s { cache = update s.cache b words }

-- One block written by the disk, or lost without power.
abbrev pub disk_write : ℕ → (ℕ → Block) → ℕ → Block → ℕ → Block
disk_write zero disk b words = disk
disk_write (suc p) disk b words = update disk b words

-- bwrite of a locked buffer, after its test of the lock: marks the buffer dirty; iderw writes it and
-- clears the mark.
abbrev pub bwrite : ℕ → Io → Io
bwrite b s = record s {
  disk = disk_write s.power s.disk b (s.cache b);
  dirty = update s.dirty b false;
  power = s.power - 1;
}

-- After a crash the buffers are gone; the power is back for `p` writes.
abbrev pub reboot : ℕ → (ℕ → Block) → Io
reboot p disk = record { disk = disk; cache = disk; dirty = λ b. false; power = p }

-- bread(to), bread(from), memmove(to->data, from->data, BSIZE), bwrite(to).
abbrev pub copy_block : ℕ → ℕ → Io → Io
copy_block to from s = bwrite to (fill to (s.cache from) s)
