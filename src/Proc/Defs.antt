-- ===== src/Proc/Defs.antt =====
-- struct proc, the table, and the functions of xv6-public/proc.c that change only the table.
use modificacion_sistema_ope.Base.{
  ℕ, zero, suc, ◌+◌, Bool, true, false, ◌&&◌, Option, none, some, update, ◌==◌, if◌then◌else◌, List,
  [],
}

pub data State : Type 0 where
  unused embryo sleeping runnable running zombie : State

abbrev pub state_eq : State → State → Bool
state_eq unused unused = true
state_eq embryo embryo = true
state_eq sleeping sleeping = true
state_eq runnable runnable = true
state_eq running running = true
state_eq zombie zombie = true
state_eq _ _ = false

-- `void *chan`: no channel, the address of a slot of the table, or another address.
pub data Chan : Type 0 where
  nil : Chan
  at_proc : ℕ → Chan
  at : ℕ → Chan

abbrev pub chan_eq : Chan → Chan → Bool
chan_eq nil nil = true
chan_eq nil (at_proc j) = false
chan_eq nil (at b) = false
chan_eq (at_proc i) nil = false
chan_eq (at_proc i) (at_proc j) = i == j
chan_eq (at_proc i) (at b) = false
chan_eq (at a) nil = false
chan_eq (at a) (at_proc j) = false
chan_eq (at a) (at b) = a == b

-- param.h
abbrev pub nproc : ℕ
nproc = 64

abbrev pub nofile : ℕ
nofile = 16

-- A pointer to a process is its slot, a null pointer `none`; so are those to files and inodes.
-- `tf` is the trap frame by words; the saved context is where sched and forkret left it.
pub record Proc : Type 0 where
  pub sz : ℕ
  pub pgdir : ℕ
  pub kstack : ℕ
  pub state : State
  pub pid : ℕ
  pub parent : Option ℕ
  pub tf : ℕ → ℕ
  pub chan : Chan
  pub killed : Bool
  pub ofile : ℕ → Option ℕ
  pub cwd : Option ℕ
  pub name : List ℕ

abbrev pub Table : Type 0
Table = ℕ → Proc

abbrev pub set_state : ℕ → State → Table → Table
set_state i s t = update t i (record (t i) { state = s })

abbrev pub is_parent : ℕ → Option ℕ → Bool
is_parent i none = false
is_parent i (some j) = i == j

-- The address of a parent, as a channel.
abbrev pub chan_of : Option ℕ → Chan
chan_of none = nil
chan_of (some i) = at_proc i

-- allocproc's search: the first UNUSED slot of the `k` from `i` on.
unfoldable pub find_unused : ℕ → ℕ → Table → Option ℕ
find_unused zero i t = none
find_unused (suc k) i t =
    let rest : Option ℕ = find_unused k (i + 1) t in
    if state_eq (t i).state unused then some i else rest

-- wakeup1's loop over the `k` slots from `i` on.
abbrev pub wake : Chan → Proc → Proc
wake c p =
    if state_eq p.state sleeping && chan_eq p.chan c then record p { state = runnable } else p

unfoldable pub wakeup1_from : ℕ → ℕ → Chan → Table → Table
wakeup1_from zero i c t = t
wakeup1_from (suc k) i c t = wakeup1_from k (i + 1) c (update t i (wake c (t i)))

-- wakeup1, and wakeup, which takes the lock round it.
unfoldable pub wakeup1 : Chan → Table → Table
wakeup1 c t = wakeup1_from nproc 0 c t

-- kill: the table after, and whether some slot has the pid (0 or -1 in the source).
unfoldable pub kill_from : ℕ → ℕ → ℕ → Table → Bool × Table
kill_from zero i pid t = (false, t)
kill_from (suc k) i pid t =
    let p : Proc = t i in
    let rest : Bool × Table = kill_from k (i + 1) pid t in
    if p.pid == pid
    then (
      true,
      update t i (record p {
        killed = true;
        state = if state_eq p.state sleeping then runnable else p.state;
      }),
    )
    else rest

unfoldable pub kill : ℕ → Table → Bool × Table
kill pid t = kill_from nproc 0 pid t

-- sleep of process `i` up to its sched, and after it.
unfoldable pub sleep_enter : ℕ → Chan → Table → Table
sleep_enter i c t = update t i (record (t i) { chan = c; state = sleeping })

unfoldable pub sleep_leave : ℕ → Table → Table
sleep_leave i t = update t i (record (t i) { chan = nil })

unfoldable pub yield : ℕ → Table → Table
yield i t = set_state i runnable t

-- exit's loop: children of `cur` go to `init`, which is woken for each that is a zombie.
unfoldable pub reparent_from : ℕ → ℕ → ℕ → Option ℕ → Table → Table
reparent_from zero i cur init t = t
reparent_from (suc k) i cur init t =
    let p : Proc = t i in
    let t' : Table = update t i (record p { parent = init }) in
    reparent_from k (i + 1) cur init (
      if is_parent cur p.parent
      then if state_eq p.state zombie then wakeup1 (chan_of init) t' else t'
      else t)

-- How a stretch of wait ends: the pid of a child, -1, or a sleep on the process itself.
pub data Waited : Type 0 where
  reaped : ℕ → Waited
  fails : Waited
  sleeps : Waited

-- wait's scan of the `n` slots from `i` on: the first zombie child, and whether there is a child.
unfoldable pub scan_children : ℕ → ℕ → ℕ → Table → Option ℕ × Bool
scan_children zero i cur t = (none, false)
scan_children (suc n) i cur t =
    let rest : Option ℕ × Bool = scan_children n (i + 1) cur t in
    if is_parent cur (t i).parent
    then if state_eq (t i).state zombie then (some i, true) else (rest.0, true)
    else rest

-- The fields that wait resets in a reaped slot.
abbrev pub reap : Proc → Proc
reap p = record p { kstack = 0; pid = 0; parent = none; name = []; killed = false; state = unused }
