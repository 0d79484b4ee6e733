-- ===== src/Log/Space.antt =====
-- File system calls as concurrent transactions on the log: begin_op, the two parts of log_write
-- (xv6-public/log.c tests the header before it takes the lock) and end_op of several calls
-- interleave, and commit runs when none is left.
use modificacion_sistema_ope.Base.{
  ℕ, suc, ◌+◌, ◌<◌, ◌≤◌, ◌≡◌, arith, List, [], ◌∷◌, ◌++◌, length, length-append, some, true, false,
  Bool, if◌then◌else◌, ◌*◌, ap, sym, subst, ◌∙◌, ◌↔◌, ◌-◌, ◌==◌, ◌⊎◌, inl, inr, none, Bool-cases,
  leb,
}
use mathlib.Core.Bool.{false≢true}
use modificacion_sistema_ope.Disk.{Block, Io, fill}
use modificacion_sistema_ope.Log.Defs.{
  Log, log_size, max_op_blocks, begin_op, end_op_enter, end_op_leave, log_write_tests, absorb, pin,
  too_big, commit,
}

-- A call between its begin_op and its end_op, with how many more blocks it may write, of the
-- MAXOPBLOCKS that a call keeps to; in a log_write of block `b` it has passed the tests, which are
-- made without the lock, and has still to store.
pub data Call : Type 0 where
  idle : (left : ℕ) → Call
  storing : (b left : ℕ) → Call

abbrev pub allowance : Call → ℕ
allowance (idle left) = left
allowance (storing b left) = suc left

pub record Calls : Type 0 where
  pub log : Log
  pub io : Io
  pub ops : List Call

-- `test` is the bread and modification of one block by one call and the tests of its log_write,
-- `store` the critical section.
pub data Step : Calls → Calls → Type 0 where
  begin :
      (c : Calls) (l : Log)
      → begin_op c.log ≡ some l
      → Step c (record c { log = l; ops = idle max_op_blocks ∷ c.ops })
  test :
      (c : Calls) (xs ys : List Call) (left b : ℕ) (words : Block)
      → c.ops ≡ xs ++ (idle (suc left) ∷ ys)
      → log_write_tests c.log ≡ none
      → Step c (record c { io = fill b words c.io; ops = xs ++ (storing b left ∷ ys) })
  store :
      (c : Calls) (xs ys : List Call) (left b : ℕ)
      → c.ops ≡ xs ++ (storing b left ∷ ys)
      → Step c (record { log = absorb b c.log; io = pin b c.io; ops = xs ++ (idle left ∷ ys) })
  finish :
      (c : Calls) (xs ys : List Call) (left : ℕ) (last : Bool) (l : Log)
      → c.ops ≡ xs ++ (idle left ∷ ys)
      → end_op_enter c.log ≡ some (last, l)
      → Step c (record c { log = l; ops = xs ++ ys })
  commits :
      (c : Calls)
      → c.log.committing ≡ true
      → Step c (record c { log = end_op_leave (commit c.log c.io).0; io = (commit c.log c.io).1 })

-- The boot leaves an empty log.
pub data Reach (start size : ℕ) (io : Io) : Calls → Type 0 where
  booted :
      (block : ℕ → ℕ)
      → Reach start size io (record {
        log = record {
          start = start;
          size = size;
          outstanding = 0;
          committing = Bool.false;
          n = 0;
          block = block;
        };
        io = io;
        ops = [];
      })
  after : {c d : Calls} → Reach start size io c → Step c d → Reach start size io d

abbrev sum : List Call → ℕ
sum [] = 0
sum (x ∷ xs) = allowance x + sum xs

sum-append : (xs ys : List Call) → sum (xs ++ ys) ≡ sum xs + sum ys
sum-append [] ys = omega arith
sum-append (x ∷ xs) ys = omega (arith, sum-append xs ys)

-- No call may write more than MAXOPBLOCKS blocks.
abbrev Within : List Call → Type 0
Within [] = Unit
Within (x ∷ xs) = (allowance x ≤ max_op_blocks) × Within xs

Within-sum : (xs : List Call) → Within xs → sum xs ≤ length xs * 10
Within-sum [] w = omega arith
Within-sum (x ∷ xs) w = omega (arith, Within-sum xs w.1)

Within-lower :
    (xs ys : List Call) (x y : Call)
    → allowance y ≤ allowance x
    → Within (xs ++ (x ∷ ys))
    → Within (xs ++ (y ∷ ys))
Within-lower [] ys x y h w = (omega (arith, h, w.0), w.1)
Within-lower (z ∷ xs) ys x y h w = (w.0, Within-lower xs ys x y h w.1)

Within-remove : (xs ys : List Call) (left : Call) → Within (xs ++ (left ∷ ys)) → Within (xs ++ ys)
Within-remove [] ys left w = w.1
Within-remove (x ∷ xs) ys left w = (w.0, Within-remove xs ys left w.1)

record Inv (size : ℕ) (c : Calls) : Type 0 where
  counted : c.log.outstanding ≡ length c.ops
  reserved : c.log.n + sum c.ops ≤ log_size
  within : Within c.ops
  alone : c.log.committing ≡ true → length c.ops ≡ 0
  sized : c.log.size ≡ size

-- The list around the entry of one call.
around :
    (xs ys : List Call) (x : Call)
    → (length (xs ++ (x ∷ ys)) ≡ suc (length (xs ++ ys)))
      × (sum (xs ++ (x ∷ ys)) ≡ allowance x + sum (xs ++ ys))
around xs ys x = omega (
  arith,
  length-append xs (x ∷ ys),
  length-append xs ys,
  sum-append xs (x ∷ ys),
  sum-append xs ys,
)

-- A store adds at most one block to the header.
absorb_counts :
    (b : ℕ) (l : Log)
    → ((absorb b l).n ≤ l.n + 1)
      × ((absorb b l).outstanding ≡ l.outstanding)
      × ((absorb b l).committing ≡ l.committing)
      × ((absorb b l).size ≡ l.size)
unfolding absorb
absorb_counts b l = ground arith

begin_op_counts :
    (l l' : Log)
    → begin_op l ≡ some l'
    → (l'.n ≡ l.n)
      × (l'.outstanding ≡ l.outstanding + 1)
      × (l'.committing ≡ false)
      × (l.committing ≡ false)
      × (l'.size ≡ l.size)
      × (l.n + (l.outstanding + 1) * 10 ≤ 30)
unfolding begin_op
begin_op_counts l l' e = ground arith

end_op_counts :
    (l l' : Log) (last : Bool)
    → end_op_enter l ≡ some (last, l')
    → (l'.n ≡ l.n)
      × (l'.outstanding ≡ l.outstanding - 1)
      × (l'.committing ≡ (l'.outstanding == 0))
      × (l.committing ≡ false)
      × (l'.size ≡ l.size)
unfolding end_op_enter
end_op_counts l l' last e = ground arith

commit_counts :
    (l : Log) (s : Io)
    → ((commit l s).0.n ≤ l.n)
      × ((commit l s).0.outstanding ≡ l.outstanding)
      × ((commit l s).0.size ≡ l.size)
unfolding commit
commit_counts l s = ground arith

Step-Inv : {size : ℕ} {c d : Calls} → Step c d → Inv size c → Inv size d
unfolding end_op_leave
Step-Inv (begin c l e) i =
    let k = begin_op_counts c.log l e in
    let total = Within-sum c.ops i.within in
    record {
      counted = omega (arith, k, i.counted);
      reserved = omega (arith, k, total, i.counted);
      within = (omega arith, i.within);
      alone = λ a. absurd (false≢true (sym k.2 ∙ a));
      sized = omega (arith, k, i.sized);
    }
Step-Inv (test c xs ys left b words q e) i =
    let before = around xs ys (idle (suc left)) in
    let after = around xs ys (storing b left) in
    record {
      counted = omega (arith, i.counted, ap length q, before, after);
      reserved = omega (arith, i.reserved, ap sum q, before, after);
      within =
          Within-lower xs ys (idle (suc left)) (storing b left) (omega arith)
            (subst Within q i.within);
      alone = λ a. absurd (omega (arith, i.alone a, ap length q, before));
      sized = i.sized;
    }
Step-Inv (store c xs ys left b q) i =
    let k = absorb_counts b c.log in
    let before = around xs ys (storing b left) in
    let after = around xs ys (idle left) in
    record {
      counted = omega (arith, k.1, i.counted, ap length q, before, after);
      reserved = omega (arith, k.0, i.reserved, ap sum q, before, after);
      within =
          Within-lower xs ys (storing b left) (idle left) (omega arith) (subst Within q i.within);
      alone = λ a. absurd (omega (arith, i.alone (sym k.2 ∙ a), ap length q, before));
      sized = omega (arith, k.3, i.sized);
    }
Step-Inv (finish c xs ys left last l q e) i =
    let k = end_op_counts c.log l last e in
    let before = around xs ys (idle left) in
    record {
      counted = omega (arith, k.1, i.counted, ap length q, before);
      reserved = omega (arith, k.0, i.reserved, ap sum q, before);
      within = Within-remove xs ys (idle left) (subst Within q i.within);
      alone = λ a. ground (arith, k, a, i.counted, ap length q, before);
      sized = omega (arith, k.4, i.sized);
    }
Step-Inv (commits c e) i =
    let k = commit_counts c.log c.io in
    record {
      counted = omega (arith, k, i.counted);
      reserved = omega (arith, k, i.reserved);
      within = i.within;
      alone = λ a. i.alone e;
      sized = omega (arith, k, i.sized);
    }

Reach-Inv : {start size : ℕ} {io : Io} {c : Calls} → Reach start size io c → Inv size c
unfolding end_op_leave
Reach-Inv (booted block) = omega arith
Reach-Inv (after r st) = Step-Inv st (Reach-Inv r)

-- In every reachable state, where a call may still write a block, fewer than LOGSIZE blocks are in
-- the header, so that its store has a slot; and the tests of a log_write pass, where the log has
-- room for one block more than the header lists, or they panic on a log of at most LOGSIZE blocks,
-- where the blocks in the header are all that the log has room for.
pub log_write-has-room :
    {start size : ℕ} {io : Io} {c : Calls} (xs ys : List Call) (call : Call)
    → Reach start size io c
    → c.ops ≡ xs ++ (call ∷ ys)
    → 0 < allowance call
    → (c.log.n < log_size)
      × (((log_write_tests c.log ≡ none) × (c.log.n < size - 1))
          ⊎ ((log_write_tests c.log ≡ some too_big) × (size ≤ log_size) × (size - 1 ≤ c.log.n)))
unfolding log_write_tests
log_write-has-room {size} {c} xs ys call r q h =
    let i = Reach-Inv r in
    let fits : (c.log.n < log_size) × (0 < c.log.outstanding) =
      omega (arith, ap length q, ap sum q, around xs ys call, i.counted, i.reserved, h) in
    (
      fits.0,
      elim (Bool-cases (leb (c.log.size - 1) c.log.n)) [
        | inl full ↦ inr (ground (arith, fits, full, i.sized))
        | inr room ↦ inl (ground (arith, fits, room), ground (arith, room, i.sized))
      ],
    )

abbrev entered : Log → Log
entered l = record l {
  outstanding = l.outstanding - 1;
  committing = if l.outstanding - 1 == 0 then true else l.committing;
}

-- In every reachable state with a call under way, its end_op does not meet a commit: it does not
-- panic, and it commits exactly if no other call is under way.
pub end_op-alone :
    {start size : ℕ} {io : Io} {c : Calls} (xs ys : List Call) (call : Call)
    → Reach start size io c
    → c.ops ≡ xs ++ (call ∷ ys)
    → (last : Bool) × (l : Log) × (end_op_enter c.log ≡ some (last, l))
      × ((last ≡ true) ↔ (length (xs ++ ys) ≡ 0))
unfolding end_op_enter
end_op-alone {c} xs ys call r q =
    let i = Reach-Inv r in
    let left_over : (c.log.outstanding - 1 ≡ length (xs ++ ys)) × (c.log.committing ≡ false) =
      ground (arith, ap length q, around xs ys call, i.counted, i.alone) in
    (
      c.log.outstanding - 1 == 0,
      entered c.log,
      ground (arith, left_over),
      ground (arith, left_over),
    )
