-- ===== src/Pipe/Defs.antt =====
-- struct pipe and the functions of xv6-public/pipe.c, one stretch between two sleeps at a time.
use modificacion_sistema_ope.Base.{
  ℕ, zero, suc, ◌+◌, ◌%◌, ◌^◌, Bool, true, false, not, ◌&&◌, ◌||◌, List, [], ◌∷◌, update, ◌==◌,
  if◌then◌else◌, length,
}

abbrev pub pipe_size : ℕ
pipe_size = 512

-- uint addition
abbrev pub add_uint : ℕ → ℕ → ℕ
add_uint a b = (a + b) % 2 ^ 32

-- `buf` is the array `data`, a function of the index. p->lock is held through each stretch.
pub record Pipe : Type 0 where
  pub buf : ℕ → ℕ
  pub nread : ℕ
  pub nwrite : ℕ
  pub readopen : Bool
  pub writeopen : Bool

-- The two addresses on which processes sleep.
pub data Chan : Type 0 where
  nread_chan nwrite_chan : Chan

-- How a stretch of a system call ends: it returns n, it returns -1, or it sleeps with `rest` still
-- to do.
pub data End {ℓ} (A : Type ℓ) : Type ℓ where
  returns : ℕ → End A
  fails : End A
  sleeps : A → End A

-- The fields that pipealloc sets.
unfoldable pub fresh_pipe : (ℕ → ℕ) → Pipe
fresh_pipe page = record { buf = page; nread = 0; nwrite = 0; readopen = true; writeopen = true }

unfoldable pub is_full : Pipe → Bool
is_full p = p.nwrite == add_uint p.nread pipe_size

unfoldable pub is_empty : Pipe → Bool
is_empty p = p.nread == p.nwrite

-- p->data[p->nwrite++ % PIPESIZE] = c
abbrev pub put : ℕ → Pipe → Pipe
put c p = record p { buf = update p.buf (p.nwrite % pipe_size) c; nwrite = add_uint p.nwrite 1 }

-- p->data[p->nread++ % PIPESIZE], and the pipe without it
abbrev pub front : Pipe → ℕ
front p = p.buf (p.nread % pipe_size)

abbrev pub advance : Pipe → Pipe
advance p = record p { nread = add_uint p.nread 1 }

pub record Stretch {ℓ} (A : Type ℓ) : Type ℓ where
  pub pipe : Pipe
  pub end : End A
  pub wakes : List Chan

-- pipewrite of the bytes `addr[i..n)`, from the head of its loop on. After a sleep the source
-- tests the loop's condition again, so the next stretch is this function on what is left.
-- `killed` is myproc()->killed at the test.
unfoldable pub pipewrite : Bool → ℕ → Pipe → List ℕ → Stretch (List ℕ)
pipewrite killed n p [] = record { pipe = p; end = returns n; wakes = nread_chan ∷ [] }
pipewrite killed n p (c ∷ rest) =
    let next : Stretch (List ℕ) = pipewrite killed n (put c p) rest in
    if is_full p
    then if not p.readopen || killed
      then record { pipe = p; end = fails; wakes = [] }
      else record { pipe = p; end = sleeps (c ∷ rest); wakes = nread_chan ∷ [] }
    else next

-- The copy loop of piperead: the bytes that go to addr, at most `n`, and the pipe after.
unfoldable pub copy_out : ℕ → Pipe → List ℕ × Pipe
copy_out zero p = ([], p)
copy_out (suc n) p =
    let rest : List ℕ × Pipe = copy_out n (advance p) in
    if is_empty p then ([], p) else (front p ∷ rest.0, rest.1)

-- piperead, with the bytes that it stores at addr.
unfoldable pub piperead : Bool → Pipe → ℕ → Stretch (Unit {0}) × List ℕ
piperead killed p n =
    if is_empty p && p.writeopen
    then if killed
      then (record { pipe = p; end = fails; wakes = [] }, [])
      else (record { pipe = p; end = sleeps tt; wakes = [] }, [])
    else (let out : List ℕ × Pipe = copy_out n p in
        (record { pipe = out.1; end = returns (length out.0); wakes = nwrite_chan ∷ [] }, out.0))

-- pipeclose: the pipe after, the processes that it wakes, and whether it frees the page.
pub record Closed : Type 0 where
  pub pipe : Pipe
  pub wakes : List Chan
  pub freed : Bool

unfoldable pub pipeclose : Pipe → Bool → Closed
pipeclose p writable =
    let q : Pipe =
      if writable then record p { writeopen = false } else record p { readopen = false } in
    record {
      pipe = q;
      wakes = (if writable then nread_chan else nwrite_chan) ∷ [];
      freed = not q.readopen && not q.writeopen;
    }
