-- ===== src/Log/Defs.antt =====
-- The state and the functions of xv6-public/log.c.
use modificacion_sistema_ope.Base.{
  ℕ, zero, suc, ◌+◌, ◌-◌, ◌*◌, Bool, true, false, ◌||◌, Option, none, some, update, ltb, leb, ◌==◌,
  if◌then◌else◌,
}
use modificacion_sistema_ope.Disk.{Block, Io, fill, bwrite, copy_blocks}

-- param.h
abbrev pub max_op_blocks : ℕ
max_op_blocks = 10

abbrev pub log_size : ℕ
log_size = max_op_blocks * 3

-- struct log, with the two fields of struct logheader (`n`, `block`) in place. log.dev is the one
-- disk of `Io`, and log.lock is held where the source holds it: each function below is one
-- critical section or, in commit, runs alone because of `committing`.
pub record Log : Type 0 where
  pub start : ℕ
  pub size : ℕ
  pub outstanding : ℕ
  pub committing : Bool
  pub n : ℕ
  pub block : ℕ → ℕ

-- write_log: `to` is log block start+tail+1, `from` the home block's buffer.
unfoldable pub write_log : Log → Io → Io
write_log l s = copy_blocks l.n 0 (λ tail. l.start + tail + 1) l.block s

-- install_trans: the other way round, from the log block to its home.
unfoldable pub install_trans : Log → Io → Io
install_trans l s = copy_blocks l.n 0 l.block (λ tail. l.start + tail + 1) s

-- `for (i = 0; i < n; i++) to[i + 1] = from i`, on a header block whose word 0 is n.
unfoldable pub copy_words : ℕ → ℕ → (ℕ → ℕ) → Block → Block
copy_words zero i from to = to
copy_words (suc k) i from to = copy_words k (i + 1) from (update to (i + 1) (from i))

unfoldable pub write_head : Log → Io → Io
write_head l s =
    bwrite l.start (fill l.start (copy_words l.n 0 l.block (update (s.cache l.start) 0 l.n)) s)

-- `for (i = 0; i < n; i++) log.lh.block[i] = lh->block[i]`
unfoldable pub read_words : ℕ → ℕ → Block → (ℕ → ℕ) → ℕ → ℕ
read_words zero i from to = to
read_words (suc k) i from to = read_words k (i + 1) from (update to i (from (i + 1)))

unfoldable pub read_head : Log → Io → Log
read_head l s =
    let head : Block = s.cache l.start in
    record l { n = head 0; block = read_words (head 0) 0 head l.block }

unfoldable pub commit : Log → Io → Log × Io
commit l s =
    if ltb 0 l.n
    then (let l' : Log = record l { n = 0 } in
        (l', write_head l' (install_trans l (write_head l (write_log l s)))))
    else (l, s)

unfoldable pub recover_from_log : Log → Io → Log × Io
recover_from_log l s =
    let l' : Log = read_head l s in
    let l'' : Log = record l' { n = 0 } in (l'', write_head l'' (install_trans l' s))

-- initlog, with sb.logstart and sb.nlog from the superblock; sizeof(struct logheader) is 124.
unfoldable pub initlog : ℕ → ℕ → Log → Io → Log × Io
initlog logstart nlog l s = recover_from_log (record l { start = logstart; size = nlog }) s

-- begin_op: one round of its loop, `none` where the process goes to sleep on the log.
unfoldable pub begin_op : Log → Option Log
begin_op l =
    if l.committing
    then none
    else if ltb log_size (l.n + (l.outstanding + 1) * max_op_blocks)
    then none
    else some (record l { outstanding = l.outstanding + 1 })

-- The first critical section of end_op, with its do_commit; `none` is the panic "log.committing".
-- The source's `outstanding -= 1` runs at 0 only without a begin_op.
unfoldable pub end_op_enter : Log → Option (Bool × Log)
end_op_enter l =
    let l' : Log = record l { outstanding = l.outstanding - 1 } in
    if l.committing
    then none
    else if l'.outstanding == 0
    then some (true, record l' { committing = true })
    else some (false, l')

-- The last critical section of end_op, after commit.
unfoldable pub end_op_leave : Log → Log
end_op_leave l = record l { committing = false }

-- `for (i = 0; i < log.lh.n; i++) if (log.lh.block[i] == blockno) break;`
unfoldable pub find_slot : ℕ → ℕ → (ℕ → ℕ) → ℕ → ℕ
find_slot zero i block b = i
find_slot (suc k) i block b = elim (block i == b) [ true ↦ i | false ↦ find_slot k (i + 1) block b ]

pub data Panic : Type 0 where
  too_big outside : Panic

pub data Written : Type 0 where
  ok : Log → Io → Written
  panic : Panic → Written

-- The critical section of log_write: the header has the block once, and its buffer is pinned.
unfoldable pub absorb : ℕ → Log → Log
absorb b l =
    let i : ℕ = find_slot l.n 0 l.block b in
    record l { block = update l.block i b; n = if i == l.n then l.n + 1 else l.n }

abbrev pub pin : ℕ → Io → Io
pin b s = record s { dirty = update s.dirty b true }

-- The tests before `acquire`; `none` where they pass.
unfoldable pub log_write_tests : Log → Option Panic
log_write_tests l =
    if leb log_size l.n || leb (l.size - 1) l.n
    then some too_big
    else if ltb l.outstanding 1
    then some outside
    else none

-- The two parts at once.
unfoldable pub log_write : ℕ → Log → Io → Written
log_write b l s = elim (log_write_tests l) [ some p ↦ panic p | none ↦ ok (absorb b l) (pin b s) ]
