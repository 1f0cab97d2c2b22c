-- ===== src/Lib.antt =====
-- A verification library for the kernel of MiniOS, a small x86 teaching kernel in C with a file
-- system in RAM.
--
-- The parts and how they interact. The kernel keeps the free physical memory in a table of blocks
-- (kernel/memman.c). The RAM file system (kernel/ramfs.c) takes the pages of its clusters and the
-- words of its records from there, and keeps the chains of clusters in a table like a FAT. A process
-- reaches it by path and by file descriptor. The string functions (lib/string.c) serve all of them.
-- The page tables (kernel/pagetbl.c) take their pages from the same table of blocks. The keys go from
-- the keyboard's buffer (kernel/keyboard.c) through `in_process` to the buffer of a terminal
-- (kernel/tty.c). A process that reads or writes the disk puts a request in the queue of the driver
-- (kernel/hd.c) and sleeps until the service wakes it; the orange file system (kernel/fs.c) keeps its
-- inodes and maps on that disk, and the FAT32 file system (kernel/base.c, kernel/fat32.c) its table of
-- clusters, directories and files.
--
-- Which file models which part:
--   Base          Boolean tests, lists as C arrays, 32-bit arithmetic, C results and outcomes.
--   Str           lib/string.c. A `char *` is the list of bytes from there to the end of its buffer,
--                 and NUL bytes follow; `memset` and `memcpy` work on a byte memory.
--   Memman        kernel/memman.c and include/memman.h: `Memman` is `struct MEMMAN`, its list `free`
--                 the entries `free[0 .. frees)` of the array, and each function has the source's
--                 name. View gives a list the set of bytes it stands for; Alloc, Release, Free,
--                 RoundTrip, Total, Init and Walls hold the proofs.
--   Ramfs         kernel/ramfs.c and include/ramfs.h: `Ram` is the table of clusters, the pages, the
--                 words behind `p_size` and `p_link_cnt`, and the memory manager. Dir has the
--                 records of directories, Path the search by path, File the open files, Ops the
--                 operations by path.
--   Vfs           kernel/vfs.c and include/vfs.h: Path has `process_relative_path` and `get_index` on
--                 buffers of bytes, Vfs the tables and the calls on paths and descriptors, Dirs the
--                 opening and changing of directories; Route, Dispatch, Pieces and RamWrite hold the
--                 proofs. The operations of the terminal, of the orange and of the FAT32 file system
--                 are arguments, as is the byte below a path's buffer, which the code reads.
--   Proc          kernel/proc.c and kernel/clock.c: the process table, the scheduler and the clock
--                 tick; Choose holds the proofs.
--   Num           `num2str` of kernel/ramfs.c and `itoa` of lib/klib.c.
--   Paging        kernel/pagetbl.c: the page tables as words of the memory by linear address; Fault
--                 has `page_fault_handler`, Init `init_page_pte`. Space, Write, Alloc, Map,
--                 Correct, Wasted and Mapping hold the proofs. A `memset` on the address -1 is a fault:
--                 the `return -1` behind it is not reached.
--   Window        the part of a ring buffer that is in use, for Keyboard and Tty.
--   Keyboard      kernel/keyboard.c: the buffer; Keymap has the table of include/keymap.h, Decode
--                 `keyboard_read`. Queue, Typing and Letters hold the proofs.
--   Hd            kernel/hd.c: the queue of requests, the transfer of a request, and in Service the loop
--                 that serves them. Fifo, Transfer and Service hold the proofs. The ports of the disk
--                 are arguments.
--   Orange        kernel/fs.c, the orange file system: the table of inodes and their place on the disk,
--                 in Imap the map of inodes, in Smap that of sectors. Table, Inodes, Fresh, ImapBits
--                 and ImapAlloc hold the proofs. The sectors are read and written as arrays, of words
--                 for inodes and of bytes for the maps; the driver and the queue under `rw_sector` are
--                 left out.
--   Tty           kernel/tty.c: the buffer of a terminal, `in_process`, `tty_dev_write` and `tty_read`.
--                 Buffer and Serve hold the proofs.
--   Fat32         kernel/base.c, kernel/assist.c and kernel/fat32.c: the sectors of the disk as functions
--                 from an offset to its byte, the sector of the table in `FATBuf`, and chains of
--                 clusters; Find has the search for free clusters, Name the names in records, Dir the
--                 records of a directory, Path the paths, Ops the calls on paths, Files the content of
--                 files, Open their opening and closing, and Format the formatting of a disk. Table,
--                 Chain, Clear, Cache, Free, NameTrip, Place, Reading, Created, Step and Walk hold the proofs.
--                 The buffers of a call are cleared ones, or arguments where the source does not clear
--                 them.
--                 A sector lies at its number times 512 in 32 bits, and 512 bytes are copied to
--                 `FATBuf`; two sectors of one place are one.
--   Spinlock      kernel/spinlock.c, a round of `acquire` at a time; Exclusion has the orders of the
--                 processors' steps.
--
-- State is passed explicitly: a function returns its result and the new state. A loop recurs on the
-- list it runs over, on a count, or on fuel. `Outcome` tells a result from a panic, from a fault by
-- a null or wild pointer, and from fuel that ran out. The fuel of `rf_read` and `rf_write` is one
-- round more than the bytes asked for, since a round copies a byte at least; that of a walk along a
-- chain of clusters is one round more than the table has entries. The loop of `do_vwrite` has one
-- round more than there are bytes, since a piece is not empty. That of `schedule` has two rounds, since
-- a second round without a process changes nothing any more. That of `keyboard_read` is one round more
-- than there are bytes in the buffer, since a round takes a byte; that of a transfer is two rounds more
-- than its whole sectors, for a rest and for the test that ends the loop. `ClearFATs` has as many rounds
-- as its chain has clusters, and the search for free clusters one round per sector of the table and one
-- more. The fuel of a search in a FAT32 directory is an argument, since the source's loop does not end
-- for a full directory without the name, and so is that of the walks along the chain of a file; that of
-- a call by path is handed on to its searches.
--
-- Numbers are natural numbers with the 32-bit wrap-around written out where the source adds or
-- subtracts `u32`s; an `int` that can be negative is an integer. Sums of `int`s that leave their
-- range are not modelled, but for counts of references. An access outside an array, by a descriptor for
-- example, is undefined in C and a fault here.
--
-- Not modelled: assembly, the mouse, interrupts, `vmalloc`, context switches, the wrappers of the
-- FAT32 file system that fetch arguments, the directories and files of the orange file system, the
-- shell, and output to the screen. In the RAM file system `rf_readdir`, which reads records as
-- bytes, and the two views of a cluster as one memory; with it `do_vreaddir` of the virtual file
-- system.
pub mod Base
pub mod Str
pub mod Memman
pub mod Ramfs
pub mod Vfs
pub mod Proc
pub mod Num
pub mod Spinlock
pub mod Paging
pub mod Window
pub mod Keyboard
pub mod Hd
pub mod Orange
pub mod Tty
pub mod Fat32
