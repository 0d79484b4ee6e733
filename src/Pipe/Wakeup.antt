-- ===== src/Pipe/Wakeup.antt =====
-- Processes that sleep on a pipe, and who wakes them. Between the test of a sleeper and its sleep
-- no one else runs on the pipe: sleep gives p->lock back only once the sleeper is in the table.
use modificacion_sistema_ope.Base.{
  ℕ, zero, suc, ◌+◌, ◌<◌, ◌≡◌, refl, subst, sym, arith, List, [], ◌∷◌, length, Bool, true, false,
  not, ◌&&◌, ◌||◌, Bool-cases, ◌⊎◌, inl, inr,
}
use modificacion_sistema_ope.Pipe.Defs.{
  Pipe, Chan, nread_chan, nwrite_chan, End, returns, fails, sleeps, pipewrite, piperead, pipeclose,
  is_full, is_empty, put, pipe_size,
}
use modificacion_sistema_ope.Pipe.Window.{
  IsValid, used, used-put, not_full, is_empty-used, is_full-used, put-IsValid,
}
use modificacion_sistema_ope.Pipe.Refine.{step_refines, piperead-waits, piperead-copies}
use modificacion_sistema_ope.Pipe.Spec.{Op, write, read, close}

-- A pipe, and whether some process sleeps on each of its channels.
pub record Waiting : Type 0 where
  pub pipe : Pipe
  pub readers : Bool
  pub writers : Bool

abbrev woken : List Chan → Chan → Bool
woken [] c = false
woken (nread_chan ∷ cs) nread_chan = true
woken (nread_chan ∷ cs) nwrite_chan = woken cs nwrite_chan
woken (nwrite_chan ∷ cs) nwrite_chan = true
woken (nwrite_chan ∷ cs) nread_chan = woken cs nread_chan

abbrev is_asleep {ℓ} : {A : Type ℓ} → End A → Bool
is_asleep (sleeps _) = true
is_asleep fails = false
is_asleep (returns _) = false

-- wakeup makes every sleeper of the channel runnable; the process of the stretch may sleep.
abbrev pub after : Waiting → Op → Waiting
after w (write killed n src) =
    let t = pipewrite killed n w.pipe src in
    record {
      pipe = t.pipe;
      readers = w.readers && not (woken t.wakes nread_chan);
      writers = (w.writers && not (woken t.wakes nwrite_chan)) || is_asleep t.end;
    }
after w (read killed n) =
    let t = (piperead killed w.pipe n).0 in
    record {
      pipe = t.pipe;
      readers = (w.readers && not (woken t.wakes nread_chan)) || is_asleep t.end;
      writers = w.writers && not (woken t.wakes nwrite_chan);
    }
after w (close writable) =
    let t = pipeclose w.pipe writable in
    record {
      pipe = t.pipe;
      readers = w.readers && not (woken t.wakes nread_chan);
      writers = w.writers && not (woken t.wakes nwrite_chan);
    }

-- What processes can do: a process reads or writes through an end that it holds open, and an end
-- closes only when no process sleeps in a call on it. The writer has not been killed.
abbrev pub Allowed : Waiting → Op → Type 0
Allowed w (write killed n src) = killed ≡ false
Allowed w (read killed n) = w.pipe.readopen ≡ true
Allowed w (close true) = w.writers ≡ false
Allowed w (close false) = w.readers ≡ false

-- A sleeping reader has nothing to read while an end is open for writing; a sleeping writer has
-- no room while an end is open for reading.
pub record NoneMissed (w : Waiting) : Type 0 where
  pub valid : IsValid w.pipe
  pub readers :
      w.readers ≡ true
      → (is_empty w.pipe ≡ true) × (w.pipe.writeopen ≡ true) × (w.pipe.readopen ≡ true)
  pub writers : w.writers ≡ true → (is_full w.pipe ≡ true) × (w.pipe.readopen ≡ true)

-- What a stretch of pipewrite wakes, and when it sleeps.
pipewrite_wakes :
    (killed : Bool) (n : ℕ) (p : Pipe) (src : List ℕ)
    → let t = pipewrite killed n p src in
      ((woken t.wakes nread_chan ≡ true) ⊎ ((killed ≡ true) ⊎ (p.readopen ≡ false)))
      × (woken t.wakes nwrite_chan ≡ false)
      × (is_asleep t.end ≡ true → (is_full t.pipe ≡ true) × (t.pipe.readopen ≡ true))
unfolding pipewrite
pipewrite_wakes killed n p [] = (inl refl, refl, λ h. cc)
pipewrite_wakes killed n p (c ∷ rest) = ground (arith, pipewrite_wakes killed n (put c p) rest)

-- A full pipe takes nothing.
pipewrite-full :
    (killed : Bool) (n : ℕ) (p : Pipe) (src : List ℕ)
    → is_full p ≡ true
    → (pipewrite killed n p src).pipe ≡ p
unfolding pipewrite
pipewrite-full killed n p [] h = refl
pipewrite-full killed n p (c ∷ rest) h = ground arith

write-NoneMissed :
    (n : ℕ) (src : List ℕ) (w : Waiting) → NoneMissed w → NoneMissed (after w (write false n src))
write-NoneMissed n src w i =
    let k = pipewrite_wakes false n w.pipe src in
    record {
      valid = (step_refines w.pipe (write false n src) i.valid).0;
      readers = λ h. ground (arith, k, i.readers);
      writers = λ h. ground (arith, k, i.writers, pipewrite-full false n w.pipe src);
    }

read-NoneMissed :
    (killed : Bool) (n : ℕ) (w : Waiting)
    → w.pipe.readopen ≡ true
    → NoneMissed w
    → NoneMissed (after w (read killed n))
read-NoneMissed killed n w o i = elim (Bool-cases (is_empty w.pipe && w.pipe.writeopen)) [
  | inl waits ↦
      let e = piperead-waits killed w.pipe n waits in
      record {
        valid = (step_refines w.pipe (read killed n) i.valid).0;
        readers = λ h. ground (arith, e);
        writers = λ h. ground (arith, e, i.writers);
      }
  | inr copies ↦
      let e = piperead-copies killed w.pipe n copies in
      record {
        valid = (step_refines w.pipe (read killed n) i.valid).0;
        readers = λ h. ground (arith, e, i.readers);
        writers = λ h. ground (arith, e, i.writers);
      }
]

close-NoneMissed :
    (writable : Bool) (w : Waiting)
    → Allowed w (close writable)
    → NoneMissed w
    → NoneMissed (after w (close writable))
unfolding pipeclose is_full is_empty
close-NoneMissed true w a i = record {
  valid = (step_refines w.pipe (close true) i.valid).0;
  readers = λ h. ground (arith, i.readers);
  writers = λ h. ground (arith, i.writers);
}
close-NoneMissed false w a i = record {
  valid = (step_refines w.pipe (close false) i.valid).0;
  readers = λ h. ground (arith, i.readers);
  writers = λ h. ground (arith, i.writers);
}

abbrev pub after_all : Waiting → List Op → Waiting
after_all w [] = w
after_all w (o ∷ ops) = after_all (after w o) ops

abbrev pub AllAllowed : Waiting → List Op → Type 0
AllAllowed w [] = Unit
AllAllowed w (o ∷ ops) = Allowed w o × AllAllowed (after w o) ops

after-NoneMissed : (o : Op) (w : Waiting) → Allowed w o → NoneMissed w → NoneMissed (after w o)
after-NoneMissed (write killed n src) w a i =
    subst (λ b. NoneMissed (after w (write b n src))) (sym a) (write-NoneMissed n src w i)
after-NoneMissed (read killed n) w a i = read-NoneMissed killed n w a i
after-NoneMissed (close writable) w a i = close-NoneMissed writable w a i

-- No wakeup is lost over any sequence of allowed operations: a reader sleeps only while the pipe
-- is empty and open for writing, and a writer only while it is full and open for reading.
pub none_missed :
    (ops : List Op) (w : Waiting) → AllAllowed w ops → NoneMissed w → NoneMissed (after_all w ops)
none_missed [] w a i = i
none_missed (o ∷ ops) w a i = none_missed ops (after w o) a.1 (after-NoneMissed o w a.0 i)

killed_fills :
    (n : ℕ) (p : Pipe) (src : List ℕ) (room : ℕ)
    → IsValid p
    → used p + room ≡ pipe_size
    → room < length src
    → ((pipewrite true n p src).wakes ≡ []) × (used (pipewrite true n p src).pipe ≡ pipe_size)
unfolding pipewrite
killed_fills n p [] room v e h = absurd (omega arith)
killed_fills n p (c ∷ rest) zero v e h =
    let full : is_full p ≡ true = (is_full-used p v).1 (omega arith) in
    (ground (arith, full), ground (arith, full))
killed_fills n p (c ∷ rest) (suc room) v e h =
    let free : used p < pipe_size = omega arith in
    let ih =
      killed_fills n (put c p) rest room (put-IsValid p v c free)
        (omega (arith, used-put p v c free)) (omega arith) in
    rw (not_full p v free) ih

-- A killed writer that finds the pipe full returns -1 without a wakeup. So whenever a reader
-- sleeps on an empty pipe and a killed process writes more than PIPESIZE bytes, the reader goes
-- on sleeping while the pipe is full.
pub killed_write-misses :
    (n : ℕ) (src : List ℕ) (w : Waiting)
    → NoneMissed w
    → w.readers ≡ true
    → pipe_size < length src
    → ((after w (write true n src)).readers ≡ true)
      × (used (after w (write true n src)).pipe ≡ pipe_size)
killed_write-misses n src w i asleep long =
    let none_held : used w.pipe ≡ 0 = (is_empty-used w.pipe i.valid).0 (i.readers asleep).0 in
    let k = killed_fills n w.pipe src 512 i.valid (omega arith) long in
    (ground (arith, k.0, asleep), k.1)
