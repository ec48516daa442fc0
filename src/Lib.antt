-- ===== src/Lib.antt =====
-- The kernel of BUAA-OS (MOS, a small operating system for MIPS), its file server and parts of its
-- user library, as functions on explicit states, with what makes them correct.
--
-- Parts and files:
--   Prelude and its children: Boolean tests on ℕ, lists, the bits of machine words, and how a C
--   function ends (Prelude/Outcome: a value, an error code of include/error.h, or a panic).
--   Bitmap: bitmaps of 32-bit words, as kern/env.c uses them for ASIDs.
--   Queue: the tail queues of include/queue.h at the level of their pointers. Queue/Chain and
--   Queue/Refine relate them to sequences, Queue/Head is about the head.
--   Memory: kern/pmap.c, include/pmap.h and the address macros of include/mmu.h. A page is its
--   number, a kernel pointer is a page and a word in it. Memory/Boot is the memory's start,
--   Memory/Valid says when a memory is well formed, Memory/Alloc is about the free list, Memory/Walk
--   about page tables, Memory/Insert, Memory/Remove, Memory/Mapping, Memory/Maps and Memory/Unmap
--   about mapping and unmapping a page.
--   Kernel: the state of kern/env.c and kern/sched.c over a memory and a queue. Kernel/Envs and
--   Kernel/Destroy are the functions of kern/env.c, Kernel/Sched those of kern/sched.c,
--   Kernel/Syscall those of kern/syscall_all.c. Kernel/Ready is the invariant that kern/env.c states
--   at `env_sched_list`.
--   Pipe: reading and writing in user/lib/pipe.c; Pipe/Ring is the buffer as a sequence of bytes.
--   Fs: the block bitmap and block cache of fs/fs.c; Fs/Data is user/include/fs.h, Fs/Files the blocks of a
--   file, and Fs/Dirs directories and paths.
--   Bytes: memcpy and memset of lib/string.c. Kernel/Traps: kern/tlbex.c.
--   Print: formatted printing of lib/print.c.
--   Fd: file descriptors, user/lib/fd.c, on the page table of an environment.
--   Shell: the tokens of a command line, user/sh.c.
--   Serve: open files and requests, fs/serv.c, on Fs; the answers it sends are a list.
--   Elf: binaries, lib/elfloader.c and include/elf.h. Kernel/Load: the start of the environments and the
--   loading of the first programs in kern/env.c. Fork: the pages of fork and their faults, user/lib/fork.c. Pipe/Ends: the
--   closed test of user/lib/pipe.c with other environments running in between.
--   Format: the tool that writes the image of a disk, tools/fsformat.c. Fs/Start: the start of the file
--   server in fs/fs.c.
--   Client: an open file of a client of the file server, user/lib/file.c and user/lib/fsipc.c.
--
-- An operation is a command: from a state to a value and a state, to an error code and the state
-- left behind, or to a panic. The system calls run on the kernel's state; they change the memory and
-- the queue through commands of these parts. `schedule` and `env_run` do not return in the source:
-- the state at their end is the one in which the chosen environment runs.
--
-- What the kernel answers to a system call of the file server or the user library is a parameter. A block
-- of the disk is words or file nodes, two views that are apart in the model.
--
-- Machine integers: a `u_int`, a `u_long` or a pointer of Bytes wraps at 2 ^ 32, `pp_ref` at 2 ^
-- 16. Loops are recursive on fuel or on their range. `mark_used` of Memory/Boot has one round more
-- than there are pages, and that is shown to be enough; so is, for the loops of Pipe, one round
-- more than there are bytes. `do_tlb_refill` says when its rounds have run out. The loops of
-- `memset` have a round for each byte, and those of `elf_load_seg` one more than the segment has
-- bytes; that is enough. The loop of `walk_path` has a round for each character of the path and
-- one more, that of `readn` one for each byte and one more, and those of `_gettoken` as many as
-- the buffer of the shell has bytes; each is shown to be enough. The other loops have the number
-- of rounds of the source.
--
-- Not modelled: the assembly, the devices, `printk`, the loop of `fork`, whose own stack becomes
-- copy-on-write while it runs, what `duppage` and `cow_entry` store on the stack, the dispatch of
-- system calls in `do_syscall`, the commands of the shell, and of the user library `open`,
-- messages and `spawn`. `free` of Kernel.Status stands in `sys_set_env_status` for every status
-- that is neither runnable nor not runnable. The doubly linked `page_free_list` and
-- `env_free_list` are the sequences of their members. The TLB is the sequence of the arguments of
-- `tlb_out`.
pub mod Bitmap
pub mod Bytes
pub mod Client
pub mod Elf
pub mod Fd
pub mod Fork
pub mod Format
pub mod Fs
pub mod Kernel
pub mod Memory
pub mod Pipe
pub mod Prelude
pub mod Print
pub mod Queue
pub mod Serve
pub mod Shell
