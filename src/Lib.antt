-- ===== src/Lib.antt =====
-- The kernel of OsLab, an xv6 with three scheduling queues, a priority lock and shared memory.
--
-- Proc (proc.c, proc.h): the process table `ptable`; Proc/Schedule the three schedulers, the choice
--   of `scheduler`, `yield` and `aging`; Proc/Wakeup `sleep`, `wakeup`, `wakeup_pl` and `kill`;
--   Proc/Life `allocproc`, `fork`, `exit` and `wait`; Proc/Tuning the calls that set queues and
--   ratios (sysproc.c); Proc/Digits the digit functions; Proc/Float the machine's `float`, which is
--   a parameter.
-- Log (log.c): the redo log under the file system, with the disk and the buffer cache as it sees
--   them. Log/Ops are the calls of its clients; Log/Commit, Log/Restore and Log/Atomic are about
--   stopping the machine in a commit or a recovery.
-- Pipe (pipe.c): the byte ring between two processes. Pipe/Alloc is `pipealloc`, over FileTable and
--   the answer of `kalloc`.
-- Kalloc (kalloc.c): the page allocator, with the pages' first words as the list of free pages.
-- FileTable (file.c): the table of open files and its counts of references; FileTable/Transfer
--   `filestat`, `fileread` and `filewrite`, over Pipe and Fs.
-- SpinLock (spinlock.c): spin locks and the nesting of `pushcli` and `popcli`.
-- SleepLock (sleeplock.c, priority_lock.c): the two locks that processes sleep for.
-- CString (string.c): `memmove`, and in CString/Strings `memset` and the functions on strings.
-- Bio (bio.c): the buffer cache, a list of buffers in the order of their last use.
-- Fs (fs.c): the bit map of blocks and the content of an inode. Fs/Slots is about `bmap`,
--   Fs/Content about the loops of `readi` and `writei`, Fs/File about the two calls and their round
--   trip, Fs/Trunc about `itrunc`.
-- Syscall (syscall.c): the fetch of the arguments of system calls from the process's memory.
-- Shm (vm.c): the table of shared segments.
-- Descriptors (sysfile.c): `argfd`, `fdalloc`, `sys_dup` and `sys_close`, over Syscall and FileTable.
-- Dir (fs.c): `dirlookup` and `dirlink`, on the bytes of an inode of Fs. Dir/Lookup says what the bytes
--   mean, Dir/Scan is about the loops, Dir/Link, Dir/Finds and Dir/Adds about the two calls.
-- Icache (fs.c): the table of inodes in memory, with the inodes on the disk: `iget`, `idup`, `ilock`,
--   `iunlock`, `iput`, `ialloc` and `iupdate`.
-- Sysfile (sysfile.c): the system calls on path names. Sysfile/Names has `sys_link`, `sys_unlink` and
--   `create`, Sysfile/Open the others. Sysfile/Ledger keeps account of what a call holds, by the
--   rules of Sysfile/Rules; Link, Unlink, Create, Opens, Settles, Pipes and Copies follow the calls,
--   with Links, Removes and Creates for their parts.
-- Path (fs.c): `skipelem` and `namex`, over what `dirlookup` answers, which is a parameter.
-- Base holds lists over the native numbers, C's integers, panics and the loop that searches for the
--   best entry.
--
-- How the parts interact: `pipewrite` and `piperead` sleep and wake by Proc/Wakeup's functions, which
--   set processes RUNNABLE for the choice of Proc/Schedule; a pipe and a kernel stack are each a page
--   of Kalloc; `fork` and `exit` call FileTable's functions for each open file; the clients of the
--   log call `begin_op`, `log_write` and `end_op` in that order. The blocks of Fs are read and
--   written through Bio's buffers and the log, which give back what was written last.
--   `dirlookup` and `dirlink` read and write entries by Fs's `readi` and `writei`; `iput` frees the
--   blocks of an inode by Fs's `itrunc`; `filewrite` writes to an inode by Fs's `writei`, a piece in each
--   transaction, and `pipealloc` takes its files by FileTable's `filealloc`. A call of Sysfile is a tree: at each call that it makes of
--   the log, the inodes, the directories or the files it goes on with the answer, and every answer
--   has a branch. The theorems are about all branches, so that they hold with whatever other processes
--   do between two calls. What they assume of the answers is a hypothesis, `Fresh` in Sysfile/Ledger.
--
-- Correspondence. A definition has the name of its C function; a part of a function, such as a loop's
--   body, has a name of its own. Records have the fields of the structs. A body that runs under one
--   spin lock from end to end is one step. A call that sleeps ends its step there, and the caller
--   runs it again, as the code's loop does. `fork` and `exit` are one step each, although they hold
--   `ptable.lock` for parts of their bodies only: in between they write to their own entry and to one
--   that is EMBRYO, which no other process takes. A panic is an outcome of its own. A pointer into a table
--   is an index, and a null pointer is `none` or 0. C's `int` is an integer whose operations
--   wrap around to 32 bits where they can overflow, and `uint` a number below 2 ^ 32.
--
-- Stopping the machine. `power` counts the block writes that still reach the disk; a write without
--   power changes nothing there, so a run on little power is the code stopped at that write.
--
-- Fuel. `freerange` runs on 2 ^ 20 + 1 rounds, which is more than the pages of the address space.
--   `namex` runs on one round more than the path has bytes, `readi` and `writei` on a round for each
--   byte, and the loop of `filewrite` too. The loops over decimal digits run on one round more than the number that they divide by 10.
--   `dirlookup` and `dirlink` run on a round for each entry of 16 bytes, and one more.
--   The theorems about these functions show that the fuel is enough.
--
-- Not modelled: the switch of stacks and `context`, page tables (the rest of vm.c), traps, `exec`, the
--   drivers, the boot code and the user programs. The stacks, traps, drivers and boot code are about
--   the hardware and its assembly; `exec` needs the page tables; the user programs, with their
--   library and allocator, only call the kernel.
pub mod Base
pub mod Bio
pub mod CString
pub mod Descriptors
pub mod Dir
pub mod FileTable
pub mod Fs
pub mod Icache
pub mod Kalloc
pub mod Log
pub mod Path
pub mod Pipe
pub mod Proc
pub mod Shm
pub mod SleepLock
pub mod SpinLock
pub mod Syscall
pub mod Sysfile
