-- ===== src/Pipe/Spec.antt =====
-- What a pipe promises its processes: a first-in first-out queue of at most PIPESIZE bytes with
-- two ends that can be closed.
use modificacion_sistema_ope.Base.{
  ℕ, ◌-◌, Bool, true, false, not, ◌&&◌, ◌||◌, List, [], ◌∷◌, ◌++◌, ◌==◌, leb, if◌then◌else◌, length,
  take, drop, min,
}
use modificacion_sistema_ope.Pipe.Defs.{
  Pipe, Chan, nread_chan, nwrite_chan, End, returns, fails, sleeps, pipe_size, pipewrite, piperead,
  pipeclose,
}

pub record Fifo : Type 0 where
  pub bytes : List ℕ
  pub readopen : Bool
  pub writeopen : Bool

-- What a process may do with a pipe. A sleeper that wakes goes on by another `write` or `read`.
pub data Op : Type 0 where
  write : (killed : Bool) (n : ℕ) (src : List ℕ) → Op
  read : (killed : Bool) (n : ℕ) → Op
  close : (writable : Bool) → Op

-- What comes of it: how it ends, the bytes read, the processes woken, whether the page is freed.
pub data Reply : Type 0 where
  wrote : End (List ℕ) → List Chan → Reply
  got : End (Unit {0}) → List ℕ → List Chan → Reply
  closed : List Chan → Bool → Reply

-- A write takes the bytes that fit; it ends when all fit, and otherwise fails or sleeps.
abbrev pub write_end : Bool → ℕ → Fifo → List ℕ → End (List ℕ)
write_end killed n q src =
    let room : ℕ = pipe_size - length q.bytes in
    if leb (length src) room
    then returns n
    else if not q.readopen || killed
    then fails
    else sleeps (drop room src)

abbrev pub fails_end {ℓ} : {A : Type ℓ} → End A → Bool
fails_end fails = true
fails_end (returns _) = false
fails_end (sleeps _) = false

abbrev pub step : Fifo → Op → Reply × Fifo
step q (write killed n src) = (
  wrote (write_end killed n q src)
      (if fails_end (write_end killed n q src) then [] else nread_chan ∷ []),
  record q { bytes = q.bytes ++ take (pipe_size - length q.bytes) src },
)
step q (read killed n) =
    if (length q.bytes == 0) && q.writeopen
    then (got (if killed then fails else sleeps tt) [] [], q)
    else (
      got (returns (min n (length q.bytes))) (take n q.bytes) (nwrite_chan ∷ []),
      record q { bytes = drop n q.bytes },
    )
step q (close true) = (closed (nread_chan ∷ []) (not q.readopen), record q { writeopen = false })
step q (close false) = (closed (nwrite_chan ∷ []) (not q.writeopen), record q { readopen = false })

abbrev pub run : Fifo → List Op → List Reply
run q [] = []
run q (o ∷ ops) = (step q o).0 ∷ run (step q o).1 ops

-- The same by the functions of pipe.c.
abbrev pub pipe_step : Pipe → Op → Reply × Pipe
pipe_step p (write killed n src) = let t = pipewrite killed n p src in (wrote t.end t.wakes, t.pipe)
pipe_step p (read killed n) = let t = piperead killed p n in (got t.0.end t.1 t.0.wakes, t.0.pipe)
pipe_step p (close writable) = let t = pipeclose p writable in (closed t.wakes t.freed, t.pipe)

abbrev pub pipe_run : Pipe → List Op → List Reply
pipe_run p [] = []
pipe_run p (o ∷ ops) = (pipe_step p o).0 ∷ pipe_run (pipe_step p o).1 ops
