-- ===== src/Pipe/Refine.antt =====
-- A pipe refines its queue, over every sequence of operations and every wrap of its counters.
use modificacion_sistema_ope.Base.{
  ℕ, zero, suc, ◌+◌, ◌-◌, ◌≡◌, refl, ap, subst, ap₂, ◌∙◌, sym, arith, List, [], ◌∷◌, ◌++◌, length,
  Bool, true, false, not, ◌||◌, ◌&&◌, take, drop, leb, if◌then◌else◌, Bool-cases, append_assoc,
  append-nil, inl, inr, length-take, ◌==◌, dec_lt,
}
use modificacion_sistema_ope.Pipe.Defs.{
  Pipe, nread_chan, nwrite_chan, returns, fails, sleeps, pipe_size, pipewrite, piperead, pipeclose,
  copy_out, put, front, advance, Stretch, is_empty,
}
use modificacion_sistema_ope.Pipe.Window.{
  contents, used, IsValid, length-contents, is_full-used, is_empty-used, not_full, not_empty,
  used-put, put-IsValid, contents-put, advance-IsValid, contents-advance,
}
use modificacion_sistema_ope.Pipe.Spec.{
  Fifo, Op, write, read, close, Reply, step, run, pipe_step, pipe_run, fails_end, wrote, got,
}

abbrev pub view : Pipe → Fifo
view p = record { bytes = contents p; readopen = p.readopen; writeopen = p.writeopen }

-- What a stretch of pipewrite does to a valid pipe with `room` free bytes.
record Wrote (killed : Bool) (n : ℕ) (p : Pipe) (src : List ℕ) (room : ℕ) (t : Stretch (List ℕ))
    : Type 0 where
  valid : IsValid t.pipe
  bytes : contents t.pipe ≡ contents p ++ take room src
  reads : t.pipe.readopen ≡ p.readopen
  writes : t.pipe.writeopen ≡ p.writeopen
  ends : t.end ≡ (
      if leb (length src) room
      then returns n
      else if not p.readopen || killed
      then fails
      else sleeps (drop room src))
  wakes : t.wakes ≡ (if fails_end t.end then [] else nread_chan ∷ [])

length-zero : (xs : List ℕ) → length xs ≡ 0 → xs ≡ []
length-zero [] e = refl
length-zero (x ∷ xs) e = absurd (omega arith)

take-nil : (room : ℕ) → take {A = ℕ} room [] ≡ []
take-nil zero = refl
take-nil (suc room) = refl

pipewrite-Wrote :
    (killed : Bool) (n : ℕ) (p : Pipe) (src : List ℕ) (room : ℕ)
    → IsValid p
    → used p + room ≡ pipe_size
    → Wrote killed n p src room (pipewrite killed n p src)
unfolding pipewrite
pipewrite-Wrote killed n p [] room v e = record {
  valid = v;
  bytes = rw (take-nil room, append-nil);
  reads = refl;
  writes = refl;
  ends = ground arith;
  wakes = refl;
}
pipewrite-Wrote killed n p (c ∷ rest) zero v e =
    rw ((is_full-used p v).1 (omega arith)) (elim (Bool-cases (not p.readopen || killed)) [
      | inl failing ↦ rw failing (record {
        valid = v;
        bytes = sym (append-nil (contents p));
        reads = refl;
        writes = refl;
        ends = ground arith;
        wakes = refl;
      })
      | inr waiting ↦ rw waiting (record {
        valid = v;
        bytes = sym (append-nil (contents p));
        reads = refl;
        writes = refl;
        ends = ground arith;
        wakes = refl;
      })
    ])
pipewrite-Wrote killed n p (c ∷ rest) (suc room) v e =
    let w =
      pipewrite-Wrote killed n (put c p) rest room (put-IsValid p v c (omega arith))
        (omega (arith, used-put p v c (omega arith))) in
    rw (not_full p v (omega arith)) (record {
      valid = w.valid;
      bytes = w.bytes ∙ (rw (contents-put p v c (omega arith), append_assoc));
      reads = w.reads;
      writes = w.writes;
      ends = w.ends ∙ ground arith;
      wakes = w.wakes;
    })

empty_contents : (p : Pipe) → used p ≡ 0 → contents p ≡ []
empty_contents p e = length-zero (contents p) (length-contents p ∙ e)

-- What piperead's loop does.
record Copied (n : ℕ) (p : Pipe) (out : List ℕ × Pipe) : Type 0 where
  valid : IsValid out.1
  bytes : out.0 ≡ take n (contents p)
  rest : contents out.1 ≡ drop n (contents p)
  reads : out.1.readopen ≡ p.readopen
  writes : out.1.writeopen ≡ p.writeopen

copy_out-Copied : (n : ℕ) (p : Pipe) → IsValid p → Copied n p (copy_out n p)
unfolding copy_out
copy_out-Copied zero p v = record {
  valid = v;
  bytes = refl;
  rest = refl;
  reads = refl;
  writes = refl;
}
copy_out-Copied (suc n) p v = elim (dec_lt 0 (used p)) [
  | yes some_left ↦
      let w = copy_out-Copied n (advance p) (advance-IsValid p v some_left) in
      let split = contents-advance p v some_left in
      rw (not_empty p v some_left) (record {
        valid = w.valid;
        bytes = ap (λ r. front p ∷ r) w.bytes ∙ sym (ap (take (suc n)) split);
        rest = w.rest ∙ sym (ap (drop (suc n)) split);
        reads = w.reads;
        writes = w.writes;
      })
  | no none_left ↦
      let nothing : contents p ≡ [] = empty_contents p (omega arith) in
      rw ((is_empty-used p v).1 (omega arith))
        (record { valid = v; bytes = rw nothing; rest = rw nothing; reads = refl; writes = refl })
]

empty-eq : (p : Pipe) → IsValid p → (length (contents p) == 0) ≡ is_empty p
unfolding is_empty
empty-eq p v = ground (arith, length-contents p)

pub piperead-waits :
    (killed : Bool) (p : Pipe) (n : ℕ)
    → (is_empty p && p.writeopen) ≡ true
    → piperead killed p n
      ≡ (record { pipe = p; end = if killed then fails else sleeps tt; wakes = [] }, [])
unfolding piperead
piperead-waits killed p n e = ground arith

pub piperead-copies :
    (killed : Bool) (p : Pipe) (n : ℕ)
    → (is_empty p && p.writeopen) ≡ false
    → piperead killed p n ≡ (
      record {
        pipe = (copy_out n p).1;
        end = returns (length (copy_out n p).0);
        wakes = nwrite_chan ∷ [];
      },
      (copy_out n p).0,
    )
unfolding piperead
piperead-copies killed p n e = rw e

-- What one operation has to do, for its reply and the pipe after.
abbrev Refines : Pipe → Op → Reply × Pipe → Type 0
Refines p o (r, q) = IsValid q × (r ≡ (step (view p) o).0) × (view q ≡ (step (view p) o).1)

abbrev reading : Stretch (Unit {0}) × List ℕ → Reply × Pipe
reading t = (got t.0.end t.1 t.0.wakes, t.0.pipe)

read-Refines :
    (killed : Bool) (p : Pipe) (n : ℕ)
    → IsValid p
    → Refines p (read killed n) (pipe_step p (read killed n))
read-Refines killed p n v = elim (Bool-cases (is_empty p && p.writeopen)) [
  | inl waits ↦
      subst (λ t. Refines p (read killed n) (reading t)) (sym (piperead-waits killed p n waits))
        (rw (empty-eq p v, waits) (v, refl, refl))
  | inr copies ↦
      let c = copy_out-Copied n p v in
      subst (λ t. Refines p (read killed n) (reading t)) (sym (piperead-copies killed p n copies))
        (rw (empty-eq p v, copies)
          (
            c.valid,
            λ i.
                got (returns ((ap length c.bytes ∙ length-take n (contents p)) i)) (c.bytes i)
                  (nwrite_chan ∷ []),
            λ i. record { bytes = c.rest i; readopen = c.reads i; writeopen = c.writes i },
          ))
]

close-Refines :
    (p : Pipe) (writable : Bool)
    → IsValid p
    → Refines p (close writable) (pipe_step p (close writable))
unfolding pipeclose contents
close-Refines p true v = (omega arith, ground arith, refl)
close-Refines p false v = (omega arith, ground arith, refl)

write-Refines :
    (killed : Bool) (n : ℕ) (p : Pipe) (src : List ℕ)
    → IsValid p
    → Refines p (write killed n src) (pipe_step p (write killed n src))
write-Refines killed n p src v =
    let w =
      pipewrite-Wrote killed n p src (pipe_size - length (contents p)) v
        (omega (arith, length-contents p, v.fits)) in
    (
      w.valid,
      ap₂ wrote w.ends (w.wakes ∙ ap (λ e. if fails_end e then [] else nread_chan ∷ []) w.ends),
      λ i. record { bytes = w.bytes i; readopen = w.reads i; writeopen = w.writes i },
    )

-- One operation: the same reply, and the pipe holds the queue that is left.
pub step_refines :
    (p : Pipe) (o : Op)
    → IsValid p
    → IsValid (pipe_step p o).1
      × ((pipe_step p o).0 ≡ (step (view p) o).0)
      × (view (pipe_step p o).1 ≡ (step (view p) o).1)
step_refines p (write killed n src) v = write-Refines killed n p src v
step_refines p (read killed n) v = read-Refines killed p n v
step_refines p (close writable) v = close-Refines p writable v

-- No sequence of operations, of whatever processes, tells a valid pipe from the bounded queue of
-- its bytes: every result, every byte read, every wakeup and the freeing of the page agree. No
-- byte is lost, repeated or reordered, and the counters may wrap.
pub run_refines : (p : Pipe) (ops : List Op) → IsValid p → pipe_run p ops ≡ run (view p) ops
run_refines p [] v = refl
run_refines p (o ∷ ops) v =
    let s = step_refines p o v in
    ap₂ ◌∷◌ s.1 (run_refines (pipe_step p o).1 ops s.0 ∙ ap (λ q. run q ops) s.2)
