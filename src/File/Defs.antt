-- ===== src/File/Defs.antt =====
-- xv6-public/file.c: the table of open files and the counts of references to them. ftable.lock makes each
-- function on the counts one step.
use modificacion_sistema_ope.Base.{
  ℕ, zero, suc, ◌+◌, ◌-◌, Bool, Option, none, some, List, [], ◌∷◌, ◌++◌, update, ◌==◌, ltb,
  if◌then◌else◌,
}

-- NFILE
abbrev pub nfile : ℕ
nfile = 100

pub data Kind : Type 0 where
  fd_none : Kind
  fd_pipe : Kind
  fd_inode : Kind

pub record File : Type 0 where
  pub kind : Kind
  pub ref : ℕ
  pub readable : Bool
  pub writable : Bool
  pub pipe : ℕ
  pub ip : ℕ
  pub off : ℕ

-- The calls that file.c and sysfile.c make of pipe.c, log.c and fs.c.
pub data Call : Type 0 where
  pipeclose : ℕ → Bool → Call
  begin_op : Call
  iput : ℕ → Call
  end_op : Call

-- ftable, and the calls made so far, the last one first.
pub record Ftable : Type 0 where
  pub file : ℕ → File
  pub made : List Call

abbrev pub set_ref : ℕ → ℕ → Ftable → Ftable
set_ref f n t = record t { file = update t.file f (record (t.file f) { ref = n }) }

-- filealloc's loop over `n` files from `i` on.
unfoldable pub filealloc_from : ℕ → ℕ → Ftable → Option (ℕ × Ftable)
filealloc_from zero i t = none
filealloc_from (suc n) i t =
    if (t.file i).ref == 0 then some (i, set_ref i 1 t) else filealloc_from n (i + 1) t

unfoldable pub filealloc : Ftable → Option (ℕ × Ftable)
filealloc t = filealloc_from nfile 0 t

-- `none` is the panic, here and in fileclose.
unfoldable pub filedup : ℕ → Ftable → Option Ftable
filedup f t = if ltb (t.file f).ref 1 then none else some (set_ref f ((t.file f).ref + 1) t)

-- What fileclose calls for a file without references.
abbrev pub close_calls : File → List Call
close_calls ff = elim ff.kind [
  | fd_pipe ↦ pipeclose ff.pipe ff.writable ∷ []
  | fd_inode ↦ end_op ∷ iput ff.ip ∷ begin_op ∷ []
  | fd_none ↦ []
]

unfoldable pub fileclose : ℕ → Ftable → Option Ftable
fileclose f t =
    let ff : File = t.file f in
    if ltb ff.ref 1
    then none
    else if ltb 0 (ff.ref - 1)
    then some (set_ref f (ff.ref - 1) t)
    else some (record t {
      file = update t.file f (record ff { ref = 0; kind = fd_none });
      made = close_calls ff ++ t.made;
    })
