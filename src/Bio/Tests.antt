-- ===== src/Bio/Tests.antt =====
-- The cache at boot, and one block through it.
use modificacion_sistema_ope.Base.{ℕ, ◌≡◌, refl, arith, true, false, update}
use modificacion_sistema_ope.Bio.Defs.{
  Buf, unlocked, binit, binit_from, to_front, scan, Got, got, no_buffers, no_end, bget,
}
use modificacion_sistema_ope.Bio.Lru.{IsCache, Gets, bget_lem, changed-IsCache}
use modificacion_sistema_ope.Bio.Release.{Releases, brelse_lem}
use modificacion_sistema_ope.Bio.Init.{first_order, binit-IsCache}

abbrev blank : Buf
blank = record {
  valid = false;
  dirty = false;
  dev = 0;
  blockno = 0;
  lock = unlocked;
  refcnt = 0;
  prev = 0;
  next = 0;
  contents = λ a. 0;
}

-- Block 5 of device 1 gets the last buffer of the ring, which is buffer 0.
abbrev got_index : Got → ℕ
got_index (got i c) = i
got_index no_buffers = 99
got_index no_end = 98

first_get : got_index (bget 1 5 (binit (λ i. blank))) ≡ 0
unfolding bget scan binit binit_from to_front
first_get = refl

bget_lem_example : Gets (binit (λ i. blank)) first_order 1 5
bget_lem_example =
    bget_lem (binit (λ i. blank)) first_order 1 5 (binit-IsCache (λ i. blank) (λ j. refl))

-- Process 7 holds buffer 3.
held-IsCache :
    IsCache
      (update
        (binit (λ i. blank))
        3
        (record (binit (λ i. blank) 3) { refcnt = 1; lock = record { locked = true; pid = 7 } }))
      first_order
held-IsCache =
    changed-IsCache (binit (λ i. blank)) first_order 3 _ refl refl refl refl
      (binit-IsCache (λ i. blank) (λ j. refl))

brelse_lem_example :
    Releases 7
      (update
        (binit (λ i. blank))
        3
        (record (binit (λ i. blank) 3) { refcnt = 1; lock = record { locked = true; pid = 7 } }))
      first_order
      3
brelse_lem_example =
    brelse_lem 7
      (update (binit (λ i. blank)) 3
        (record (binit (λ i. blank) 3) { refcnt = 1; lock = record { locked = true; pid = 7 } }))
      first_order 3 held-IsCache (omega arith) (omega arith) (omega arith)
