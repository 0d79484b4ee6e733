-- ===== src/Lib.antt =====
-- A model of the xv6 kernel and tools of this repository (xv6-public/), with proofs.
--
-- The kernel's parts stand on each other as in the source. Physical pages come from kalloc.c, and
-- memory moves through string.c. Processors exclude each other by the spin locks of spinlock.c.
-- Processes live in the table of proc.c, sleep on channels and are woken by pipe.c, log.c and
-- exit. File system calls write blocks inside the transactions of log.c. A descriptor leads to the
-- table of file.c, whose reads and writes go to the blocks of an inode in fs.c; a directory is a
-- file of entries there. Page tables take their pages from kalloc.c.
--
-- Files and code:
--   * Base: shared names; Boolean tests, C arrays as lists (Lists), memories and tables as
--     functions with a write (Update), counting in lists (Count), C's int (Int).
--   * Disk: bread, bwrite and whole-block copies as xv6-public/log.c uses them, with a supply of
--     power: a write without power is lost. The cache is unbounded here, and the panic of bwrite on
--     a buffer that is not locked is left out: log.c writes buffers that bread has just locked.
--   * Bio: the buffer cache of xv6-public/bio.c, whose buffers are a ring by their pointers next
--     and prev, with the sleep locks of xv6-public/sleeplock.c. Order relates the pointers to
--     the list of buffers from the most recently released on.
--   * Log: xv6-public/log.c. Defs has initlog, install_trans, read_head, write_head,
--     recover_from_log, begin_op, end_op (end_op_enter and end_op_leave, at its two critical
--     sections), write_log, commit and log_write (log_write_tests are its tests, find_slot and absorb
--     its loop and its store). Crash is about power failures, Absorb about log_write, Space about
--     the interleavings of system calls, where the tests and the store of a log_write are two
--     steps, and Full about the log of LOGSIZE blocks that xv6-public/mkfs.c makes.
--   * Lock: xv6-public/spinlock.c. acquire and release are cut at their accesses to the lock
--     (acquire_begin, acquire_try, acquire_end; release_begin, release_end), so that Interleave
--     can order them in every way over the processors; the two reads of holding are one step.
--   * Kalloc: xv6-public/kalloc.c over a memory of words. kmem.lock is implicit.
--   * Pipe: xv6-public/pipe.c. pipewrite and piperead run from one sleep to the next; Spec is
--     the queue of bytes that they implement, Wakeup the processes asleep on a pipe.
--   * Proc: xv6-public/proc.c and struct proc of xv6-public/proc.h. Defs has the functions on
--     the table alone, Ops those that call the rest of the kernel, which is a record of arbitrary
--     operations (Services). wait runs from its scan to its return or sleep, sleep is cut at its
--     sched, and Reach orders all of them. userinit, fork and exit are one step each, also where
--     the source works outside ptable.lock.
--   * Str: xv6-public/string.c, and stosb and stosl of xv6-public/x86.h, over a memory of bytes.
--   * File: the table of open files of xv6-public/file.c, and the calls of xv6-public/sysfile.c,
--     pipealloc and the loops of fork and exit that move references to it. Each call is one step;
--     the calls of pipeclose, iput and the log are listed in the order they are made. Io has
--     fileread and filewrite on an inode, over Inode; Chunks is about filewrite's pieces.
--   * Fs: skipelem and namex of xv6-public/fs.c, over an arbitrary lookup in directories
--     (Directory) and with the inodes' reference counts. Components has the elements of a path.
--   * Inode: the blocks of xv6-public/fs.c as arrays of bytes: the bitmap (balloc, bfree), the
--     addresses of an inode and of its indirect block (bmap, itrunc), and readi and writei of a
--     file. Slots numbers a file's blocks, the indirect one included, and says when a file is
--     well formed; Grow and Free are what changes when it gets or loses a block. The buffer
--     cache and the log, which stand between, give and keep a block's bytes.
--   * Dir: namecmp, dirlookup and dirlink of xv6-public/fs.c, over readi and writei of Inode. Search
--     says what the loops look for among the directory's bytes, Entries and Link are
--     about dirlink.
--   * Syscall: fetchint, fetchstr, argint, argptr and argstr of xv6-public/syscall.c, on the
--     memory of a process by bytes. Dispatch has the function syscall, its table and the numbers
--     of xv6-public/syscall.h, over arbitrary calls.
--   * Vm: walkpgdir and mappages of xv6-public/vm.c, over the words and the free list of Kalloc.
--     Tables says that a directory and its tables are pages of their own, Walk is about
--     walkpgdir, Ranges and Map about mappages.
--   * Console: the input ring of xv6-public/console.c (consoleintr and consoleread, from each sleep
--     to the next), and printint. Spec is the editor of lines that the ring implements; Window,
--     Editing, Typing and Refine relate them, Numbers is about printint.
--   * Sh: the parser of xv6-public/sh.c. Lexer and Defs have it, with a pointer into the line as
--     the text from there on. Words and Tokens are about gettoken, Ensures, Shape and Fuel about
--     what every line gives, Nul and Strings about nulterminate. Print is the grammar, as trees
--     and as text with any white space after each token; Reading, Redirs, Arguments, Ends and RoundTrip are about parsing it, Whole is
--     about parsecmd on it.
--   * Grep: match, matchhere and matchstar of xv6-public/grep.c; Language is what a pattern
--     means.
--
-- Numbers: a uint is a natural number with its wrap written out where the source can wrap (the
-- counters of a pipe, the sizes of growproc). Addresses do not wrap, and nextpid does not reach
-- 2^31. A null pointer is `none`, or 0 where the source tests an address against 0.
--
-- Loops: those over arrays recurse on the number of elements left, NPROC, NOFILE or the header's
-- n. freerange runs on as many rounds as there are pages below its end, which is enough.
-- strlen's loop runs on fuel; one round more than the bytes before the first NUL is enough.
-- namex's loop gets one round more than the path has bytes, which is enough. A scan of bget sees
-- each buffer once and then the head, balloc's loop gets one round more than the disk has
-- blocks, those of readi and writei one more than the bytes, and mappages' as many as its range
-- has pages, each of which is enough. The loop of ^U runs at most once for each place of the
-- ring, printint's once for each bit. The shell's parser makes at most four calls for each byte
-- of the line and four more. The waits of sleep and of spinning are separate steps.
--
-- Not modelled: devices, interrupt controllers, start-up and assembly (xv6-public/main.c, mp.c,
-- lapic.c, ioapic.c, picirq.c, uart.c, ide.c, the .S files), which are input and output; the
-- inode cache and the inodes' blocks, the rest of xv6-public/vm.c, exec, the other calls of
-- xv6-public/sysfile.c and those of sysproc.c, the formats and the screen of the console,
-- runcmd, getcmd and main of the shell, and the other user programs.
pub mod Base
pub mod Bio
pub mod Console
pub mod Dir
pub mod Disk
pub mod File
pub mod Fs
pub mod Grep
pub mod Lock
pub mod Inode
pub mod Log
pub mod Kalloc
pub mod Pipe
pub mod Proc
pub mod Sh
pub mod Str
pub mod Syscall
pub mod Vm
