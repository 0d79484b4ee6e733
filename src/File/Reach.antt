-- ===== src/File/Reach.antt =====
-- The descriptors of all processes and the table of files, over sequences of system calls.
use modificacion_sistema_ope.Base.{
  ℕ, ◌<◌, ◌≡◌, ◌≢◌, refl, arith, sym, ◌∙◌, subst, ℤ, false, Option, none, some, [], update, fun_ext,
}
use modificacion_sistema_ope.File.Defs.{fd_none, File, Ftable}
use modificacion_sistema_ope.Proc.{nofile}
use modificacion_sistema_ope.File.Calls.{
  Fds, Outcome, sys_dup, sys_close, open_file, sys_pipe, dup_all, close_all,
}
use modificacion_sistema_ope.File.Counts.{held, points, total_zero, Counts}
use modificacion_sistema_ope.File.Keeps.{
  sys_dup-Keeps, sys_close-Keeps, open_file-Keeps, sys_pipe-Keeps,
}
use modificacion_sistema_ope.File.Loops.{close_all-Counts, dup_all-Counts}

-- ofile of the process in each slot, and ftable.
pub record Sys : Type 0 where
  pub fds : ℕ → Fds
  pub table : Ftable

-- What process `p` does: sys_open of an inode, sys_pipe with what kalloc gives, sys_dup, sys_close,
-- fork to the slot `c`, exit.
pub data Op : Type 0 where
  open_op : (p omode ip : ℕ) → Op
  pipe_op : (p page : ℕ) → Op
  dup_op : (p : ℕ) (n : ℤ) → Op
  close_op : (p : ℕ) (n : ℤ) → Op
  fork_op : (p c : ℕ) → Op
  exit_op : (p : ℕ) → Op

-- The descriptors `o` of slot `p` and the table after a call; `none` is a panic.
abbrev into : ℕ → Sys → Option (Fds × Ftable) → Option Sys
into p s r = elim r [
  | some (o, t) ↦ some (record { fds = update s.fds p o; table = t })
  | none ↦ none
]

abbrev left : Outcome → Option (Fds × Ftable)
left out = elim out [ some (r, o, t) ↦ some (o, t) | none ↦ none ]

unfoldable pub step : Op → Sys → Option Sys
step (open_op p omode ip) s = into p s (left (open_file omode ip (s.fds p) s.table))
step (pipe_op p page) s = into p s (left (sys_pipe page (s.fds p) s.table))
step (dup_op p n) s = into p s (left (sys_dup n (s.fds p) s.table))
step (close_op p n) s = into p s (left (sys_close n (s.fds p) s.table))
step (fork_op p c) s = into c s (dup_all nofile 0 (s.fds p) (s.fds c) s.table)
step (exit_op p) s = into p s (close_all nofile 0 (s.fds p) s.table)

-- fork makes the child in a slot that has no descriptors.
abbrev pub Allowed : Op → Sys → Type 0
Allowed (open_op p omode ip) s = p < 64
Allowed (pipe_op p page) s = p < 64
Allowed (dup_op p n) s = p < 64
Allowed (close_op p n) s = p < 64
Allowed (fork_op p c) s = (p < 64) × (c < 64) × (p ≢ c) × ((d : ℕ) → s.fds c d ≡ none)
Allowed (exit_op p) s = p < 64

abbrev no_file : File
no_file = record {
  kind = fd_none;
  ref = 0;
  readable = false;
  writable = false;
  pipe = 0;
  ip = 0;
  off = 0;
}

abbrev pub boot : Sys
boot = record { fds = λ p d. none; table = record { file = λ f. no_file; made = [] } }

pub data Reach : Sys → Type 0 where
  at_boot : Reach boot
  after : {s t : Sys} (op : Op) → Reach s → Allowed op s → step op s ≡ some t → Reach t

-- Each file's count is the number of descriptors of all processes that stand for it.
abbrev pub IsCounted : Sys → Type 0
IsCounted s = Counts (λ f. 0) s.fds s.table

-- The call returns, and the counts are right again.
abbrev pub Steps : Op → Sys → Type 0
Steps op s = (t : Sys) × (step op s ≡ some t) × IsCounted t

same_fds : (s : Sys) (p : ℕ) → IsCounted s → Counts (λ f. 0) (update s.fds p (s.fds p)) s.table
same_fds s p c = subst (λ k. Counts (λ f. 0) k s.table) (fun_ext (λ q. ground arith)) c

step-IsCounted : (op : Op) (s : Sys) → IsCounted s → Allowed op s → Steps op s
unfolding step
step-IsCounted (open_op p omode ip) s c a =
    let (r, o, t, e, c') =
      open_file-Keeps s.fds p a (λ f. 0) (s.fds p) s.table (same_fds s p c) omode ip in
    (record { fds = update s.fds p o; table = t }, ground (arith, e), c')
step-IsCounted (pipe_op p page) s c a =
    let (r, o, t, e, c') =
      sys_pipe-Keeps s.fds p a (λ f. 0) (s.fds p) s.table (same_fds s p c) page in
    (record { fds = update s.fds p o; table = t }, ground (arith, e), c')
step-IsCounted (dup_op p n) s c a =
    let (r, o, t, e, c') = sys_dup-Keeps s.fds p a (λ f. 0) (s.fds p) s.table (same_fds s p c) n in
    (record { fds = update s.fds p o; table = t }, ground (arith, e), c')
step-IsCounted (close_op p n) s c a =
    let (r, o, t, e, c') =
      sys_close-Keeps s.fds p a (λ f. 0) (s.fds p) s.table (same_fds s p c) n in
    (record { fds = update s.fds p o; table = t }, ground (arith, e), c')
step-IsCounted (fork_op p q) s c a =
    let (o, t, e, c', all) =
      dup_all-Counts s.fds q a.1 16 0 (λ f. 0) p (s.fds q) s.table a.0 a.2 (λ d l. a.3 d)
        (same_fds s q c) (omega arith) in
    (record { fds = update s.fds q o; table = t }, ground (arith, e), c')
step-IsCounted (exit_op p) s c a =
    let (o, t, e, c', all) =
      close_all-Counts s.fds p a 16 0 (λ f. 0) (s.fds p) s.table (same_fds s p c) (omega arith) in
    (record { fds = update s.fds p o; table = t }, ground (arith, e), c')

boot-IsCounted : IsCounted boot
boot-IsCounted = record {
  ref_lem = λ f h. omega (
    arith,
    total_zero 64 (λ p. held (λ d. none) f) (λ p. total_zero 16 (λ d. points none f) (λ d. refl)),
  );
  unused = λ f h z. refl;
  files = λ p d f e. absurd (ground (arith, e));
}

reach-IsCounted : (s : Sys) → Reach s → IsCounted s
reach-IsCounted s at_boot = boot-IsCounted
reach-IsCounted t (after {s} op r a e) =
    let (t', e', c) = step-IsCounted op s (reach-IsCounted s r) a in
    let same : t' ≡ t = ground (arith, sym e' ∙ e) in subst IsCounted same c

-- From boot, over any sequence of sys_open of an inode, sys_pipe, sys_dup, sys_close, fork into a
-- slot without descriptors and exit by any processes, the next of them does not panic, and after it
-- the ref of each file is the number of descriptors of all processes that stand for the file, a
-- file without descriptors has type FD_NONE, and descriptors stand for files of the table.
pub reach-Steps : (s : Sys) (op : Op) → Reach s → Allowed op s → Steps op s
reach-Steps s op r a = step-IsCounted op s (reach-IsCounted s r) a
