-- ===== src/Bio/Defs.antt =====
-- struct sleeplock and struct buf, and the functions of xv6-public/sleeplock.c and bio.c. A pointer
-- to a buffer is its index; the head of the list has the index NBUF.
use modificacion_sistema_ope.Base.{
  ℕ, zero, suc, ◌+◌, ◌-◌, ◌%◌, ◌^◌, Bool, true, false, not, ◌&&◌, Option, none, some, update, ◌==◌,
  if◌then◌else◌,
}

pub record Sleeplock : Type 0 where
  pub locked : Bool
  pub pid : ℕ

-- initsleeplock
abbrev pub unlocked : Sleeplock
unlocked = record { locked = false; pid = 0 }

-- acquiresleep by process `pid`, one round of its loop; `none` where it sleeps on the lock.
unfoldable pub acquiresleep : ℕ → Sleeplock → Option Sleeplock
acquiresleep pid lk = if lk.locked then none else some (record { locked = true; pid = pid })

-- releasesleep, with its wakeup of the lock's sleepers.
unfoldable pub releasesleep : Sleeplock → Sleeplock
releasesleep lk = record { locked = false; pid = 0 }

unfoldable pub holdingsleep : ℕ → Sleeplock → Bool
holdingsleep pid lk = lk.locked && lk.pid == pid

-- param.h
abbrev pub nbuf : ℕ
nbuf = 30

-- `flags` by its two bits; `contents` is the data.
pub record Buf : Type 0 where
  pub valid : Bool
  pub dirty : Bool
  pub dev : ℕ
  pub blockno : ℕ
  pub lock : Sleeplock
  pub refcnt : ℕ
  pub prev : ℕ
  pub next : ℕ
  pub contents : ℕ → ℕ

abbrev pub Cache : Type 0
Cache = ℕ → Buf

abbrev pub set_next : ℕ → ℕ → Cache → Cache
set_next i j c = update c i (record (c i) { next = j })

abbrev pub set_prev : ℕ → ℕ → Cache → Cache
set_prev i j c = update c i (record (c i) { prev = j })

-- `b->next = bcache.head.next; b->prev = &bcache.head; bcache.head.next->prev = b;
-- bcache.head.next = b`, in binit and brelse.
unfoldable pub to_front : ℕ → Cache → Cache
to_front i c =
    let c₁ : Cache = set_next i (c nbuf).next c in
    let c₂ : Cache = set_prev i nbuf c₁ in
    let c₃ : Cache = set_prev (c₂ nbuf).next i c₂ in set_next nbuf i c₃

-- binit's loop over the `n` buffers from `i` on.
unfoldable pub binit_from : ℕ → ℕ → Cache → Cache
binit_from zero i c = c
binit_from (suc n) i c =
    binit_from n (i + 1) (to_front i (update c i (record (c i) { lock = unlocked })))

unfoldable pub binit : Cache → Cache
binit c = binit_from nbuf 0 (set_next nbuf nbuf (set_prev nbuf nbuf c))

-- A loop over the list, from buffer `i` by `step` to the first that passes `test`, or the head.
pub data Scan : Type 0 where
  found : ℕ → Scan
  ended : Scan
  runs_on : Scan

unfoldable pub scan : (ℕ → ℕ) → (ℕ → Bool) → ℕ → ℕ → Scan
scan step test zero i = runs_on
scan step test (suc fuel) i =
    let rest : Scan = scan step test fuel (step i) in
    if i == nbuf then ended else if test i then found i else rest

abbrev pub has_block : Cache → ℕ → ℕ → ℕ → Bool
has_block c dev blockno i = (c i).dev == dev && (c i).blockno == blockno

abbrev pub is_unused : Cache → ℕ → Bool
is_unused c i = (c i).refcnt == 0 && not (c i).dirty

pub data Got : Type 0 where
  got : ℕ → Cache → Got
  no_buffers : Got
  no_end : Got

abbrev pub fuel : ℕ
fuel = 31

-- bget up to its acquiresleep.
unfoldable pub bget : ℕ → ℕ → Cache → Got
bget dev blockno c = elim (scan (λ i. (c i).next) (has_block c dev blockno) fuel (c nbuf).next) [
  | found i ↦ got i (update c i (record (c i) { refcnt = (c i).refcnt + 1 }))
  | runs_on ↦ no_end
  | ended ↦ elim (scan (λ i. (c i).prev) (is_unused c) fuel (c nbuf).prev) [
    | found i ↦ got i (
        update c i
          (record (c i) { dev = dev; blockno = blockno; valid = false; dirty = false; refcnt = 1 }))
    | ended ↦ no_buffers
    | runs_on ↦ no_end
  ]
]

-- bread after bget has locked buffer `i`: iderw reads the block from the disk.
unfoldable pub bread_fill : (ℕ → ℕ → ℕ → ℕ) → ℕ → Cache → Cache
bread_fill disk i c =
    if (c i).valid
    then c
    else update c i (record (c i) { valid = true; contents = disk (c i).dev (c i).blockno })

-- `b->next->prev = b->prev; b->prev->next = b->next`
unfoldable pub unlink : ℕ → Cache → Cache
unlink i c =
    let c₁ : Cache = set_prev (c i).next (c i).prev c in set_next (c₁ i).prev (c₁ i).next c₁

-- brelse by process `pid`; `none` is its panic.
unfoldable pub brelse : ℕ → ℕ → Cache → Option Cache
brelse pid i c =
    if not (holdingsleep pid (c i).lock)
    then none
    else (let c₁ : Cache = update c i (record (c i) {
      lock = releasesleep (c i).lock;
      refcnt = ((c i).refcnt + 2 ^ 32 - 1) % 2 ^ 32;
    }) in
        some (if (c₁ i).refcnt == 0 then to_front i (unlink i c₁) else c₁))
