-- ===== src/File/Calls.antt =====
-- The descriptors: argfd, fdalloc, sys_dup, sys_close, sys_pipe and the end of sys_open in
-- xv6-public/sysfile.c, pipealloc in xv6-public/pipe.c, and the loops of fork and exit in
-- xv6-public/proc.c.
use modificacion_sistema_ope.Base.{
  ℕ, zero, suc, ◌+◌, ◌/◌, ◌%◌, ℤ, pos, negsuc, Bool, true, false, not, ◌||◌, Option, none, some,
  ◌∷◌, update, ◌==◌, ltb, if◌then◌else◌,
}
use modificacion_sistema_ope.File.Defs.{
  fd_pipe, fd_inode, File, iput, end_op, Ftable, filealloc, filedup, fileclose,
}
use modificacion_sistema_ope.Proc.{nofile}

-- The ofile of a process.
abbrev pub Fds : Type 0
Fds = ℕ → Option ℕ

-- argfd of the argument `n`: the descriptor and its file.
unfoldable pub argfd : ℤ → Fds → Option (ℕ × ℕ)
argfd (pos fd) o =
    if ltb fd nofile then elim (o fd) [ some f ↦ some (fd, f) | none ↦ none ] else none
argfd (negsuc n) o = none

unfoldable pub fdalloc_from : ℕ → ℕ → ℕ → Fds → Option (ℕ × Fds)
fdalloc_from zero fd f o = none
fdalloc_from (suc n) fd f o = elim (o fd) [
  | none ↦ some (fd, update o fd (some f))
  | some g ↦ fdalloc_from n (fd + 1) f o
]

unfoldable pub fdalloc : ℕ → Fds → Option (ℕ × Fds)
fdalloc f o = fdalloc_from nofile 0 f o

-- A call's result: the value returned, `none` for -1, with the descriptors and the table; or `none`
-- for a panic.
abbrev pub Outcome : Type 0
Outcome = Option (Option ℕ × Fds × Ftable)

abbrev pub returns : Option ℕ → Fds → Option Ftable → Outcome
returns r o t = elim t [ some t' ↦ some (r, o, t') | none ↦ none ]

unfoldable pub sys_dup : ℤ → Fds → Ftable → Outcome
sys_dup n o t = elim (argfd n o) [
  | none ↦ some (none, o, t)
  | some (fd, f) ↦ elim (fdalloc f o) [
    | none ↦ some (none, o, t)
    | some (fd', o') ↦ returns (some fd') o' (filedup f t)
  ]
]

unfoldable pub sys_close : ℤ → Fds → Ftable → Outcome
sys_close n o t = elim (argfd n o) [
  | none ↦ some (none, o, t)
  | some (fd, f) ↦ returns (some 0) (update o fd none) (fileclose f t)
]

-- iunlockput and end_op where sys_open fails.
abbrev pub put_inode : ℕ → Ftable → Ftable
put_inode ip t = record t { made = end_op ∷ iput ip ∷ t.made }

abbrev pub opened : ℕ → ℕ → File → File
opened omode ip f = record f {
  kind = fd_inode;
  ip = ip;
  off = 0;
  readable = omode % 2 == 0;
  writable = not (omode % 2 == 0) || not (omode / 2 % 2 == 0);
}

-- sys_open from the inode found, with a reference, on.
unfoldable pub open_file : ℕ → ℕ → Fds → Ftable → Outcome
open_file omode ip o t = elim (filealloc t) [
  | none ↦ some (none, o, put_inode ip t)
  | some (f, t₁) ↦ elim (fdalloc f o) [
    | none ↦ elim (fileclose f t₁) [ some t₂ ↦ some (none, o, put_inode ip t₂) | none ↦ none ]
    | some (fd, o') ↦ some (
      some fd,
      o',
      record t₁ { file = update t₁.file f (opened omode ip (t₁.file f)); made = end_op ∷ t₁.made },
    )
  ]
]

abbrev pub pipe_end : ℕ → Bool → File → File
pipe_end p w f = record f { kind = fd_pipe; readable = not w; writable = w; pipe = p }

-- pipealloc where kalloc gives `page`, 0 if it fails: both files, or `none` for -1.
unfoldable pub pipealloc : ℕ → Ftable → Option (Option (ℕ × ℕ) × Ftable)
pipealloc page t = elim (filealloc t) [
  | none ↦ some (none, t)
  | some (f0, t₁) ↦ elim (filealloc t₁) [
    | none ↦ elim (fileclose f0 t₁) [ some t₂ ↦ some (none, t₂) | none ↦ none ]
    | some (f1, t₂) ↦
        if page == 0
        then elim (fileclose f0 t₂) [
          | none ↦ none
          | some t₃ ↦ elim (fileclose f1 t₃) [ some t₄ ↦ some (none, t₄) | none ↦ none ]
        ]
        else (let t₃ : Ftable = record t₂ {
          file = update t₂.file f0 (pipe_end page false (t₂.file f0));
        } in
            some (
              some (f0, f1),
              record t₃ { file = update t₃.file f1 (pipe_end page true (t₃.file f1)) },
            ))
  ]
]

-- Both files closed, where sys_pipe fails.
unfoldable pub close_both : ℕ → ℕ → Fds → Ftable → Outcome
close_both rf wf o t = elim (fileclose rf t) [
  | none ↦ none
  | some t₁ ↦ returns none o (fileclose wf t₁)
]

-- sys_pipe, but for the copy of the descriptors to the process.
unfoldable pub sys_pipe : ℕ → Fds → Ftable → Outcome
sys_pipe page o t = elim (pipealloc page t) [
  | none ↦ none
  | some (files, t₁) ↦ elim files [
    | none ↦ some (none, o, t₁)
    | some (rf, wf) ↦ elim (fdalloc rf o) [
      | none ↦ close_both rf wf o t₁
      | some (fd0, o₁) ↦ elim (fdalloc wf o₁) [
        | none ↦ close_both rf wf (update o₁ fd0 none) t₁
        | some (fd1, o₂) ↦ some (some 0, o₂, t₁)
      ]
    ]
  ]
]

-- fork's loop: the child's descriptors.
unfoldable pub dup_all : ℕ → ℕ → Fds → Fds → Ftable → Option (Fds × Ftable)
dup_all zero i from to t = some (to, t)
dup_all (suc n) i from to t = elim (from i) [
  | none ↦ dup_all n (i + 1) from to t
  | some f ↦ elim (filedup f t) [
    | some t' ↦ dup_all n (i + 1) from (update to i (some f)) t'
    | none ↦ none
  ]
]

-- exit's loop.
unfoldable pub close_all : ℕ → ℕ → Fds → Ftable → Option (Fds × Ftable)
close_all zero i o t = some (o, t)
close_all (suc n) i o t = elim (o i) [
  | none ↦ close_all n (i + 1) o t
  | some f ↦ elim (fileclose f t) [
    | some t' ↦ close_all n (i + 1) (update o i none) t'
    | none ↦ none
  ]
]
