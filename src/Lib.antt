-- ===== src/Lib.antt =====
-- A verification library for the kernel of ECE 391, student-distrib/ of the repository: a small
-- 32-bit kernel for one processor, with a read-only file system, paging, a text screen and a
-- keyboard, a clock, and system calls for up to six processes.
--
-- The parts and their modules:
--   Clib        the string and memory routines and itoa of student-distrib/lib.c. Memory/ has
--               memset, memcpy and memmove with their assembly loops; the other modules use the byte by
--               byte `fill` and `copy` in their place, which Memory/Fill and Memory/Copy justify.
--   FileSystem  student-distrib/filesysobjs.c: the boot block, entries, inodes and blocks of the
--               image as bytes; `read_data`, the lookups, and the file and directory operations.
--   Io          ports and the interrupt flag, for the macros of student-distrib/lib.h: a log of
--               the bytes written. What a port answers is a parameter (`Device`).
--   Pic         student-distrib/i8259.c: the masks of the interrupt controllers.
--   Rtc         student-distrib/rtc.c: the clock's driver, with its handler; test_interrupts of lib.c.
--   Paging      student-distrib/paging_handler.c: the page tables. Paging/Translate says what
--               the processor makes of them, Paging/Reached what
--               holds after any sequence of the calls that change them.
--   Idt         student-distrib/idt.c: the interrupt descriptor table.
--   Console     the screen, the cursor and the line buffer that lib.c, keyboard_driver.c and
--               terminal_driver.c share; clear, putc, puts, scroll_if_needed, flush.
--   Printf      printf of student-distrib/lib.c, over putc and puts.
--   Keyboard    student-distrib/keyboard_driver.c: the key presses of update_buffer_and_cursor.
--   Handler     the whole of update_buffer_and_cursor: released keys, the switch of the terminal by
--               Control and a digit, Control and F3. Handler/Typing joins keys and terminal_read.
--   Terminal    student-distrib/terminal_driver.c: reading and writing lines.
--   Syscalls    student-distrib/syscalls.c: open (`syscall_open` here), close, read, write, getargs.
--               Command has the parser of execute, Slots the process bitmap, Execute and Halt the
--               two calls as wholes, Switch the terminals, vidmap and the calls that are refused.
--               Stacks is the abstract view: a stack of processes for each terminal.
--   Scheduler   student-distrib/scheduler.c: the timer and switch_active_task.
--   Boot        entry of student-distrib/kernel.c. Boot has the half from the descriptors on, with the
--               macros of student-distrib/x86_desc.h, Boot/Report what it prints before, and `entry`.
--   Support     syscalls/ece391support.c, the strings and numbers of the user programs.
--   Programs    the user programs of syscalls/ over the system calls of syscalls/ece391syscall.h, an
--               interface (`Calls`) with the state of the system as its parameter: Cat, Ls, Greet (hello
--               and testprint), Counter, Shell, Grep, Pingpong, Sigtest, Syserr, and Fish for fish/fish.c.
--               Programs/Kernel fills the interface with the kernel, through the dispatch of
--               student-distrib/syscall_handler.S, Programs/Emulate with those of
--               syscalls/ece391emulate.c on a Linux host.
--   Prelude has the shared helpers, Samples the data of the tests; a module Tests in each part
--   applies the theorems at concrete inputs.
--
-- The parts meet as the code has them: the system calls reach the drivers through the tables of
-- operations (`Fops`), the terminal driver works on the console that the keyboard fills, and the
-- clock and the keyboard acknowledge interrupts through Pic. `execute`, `halt` and the switch of the
-- terminal leave the C stack: an `Outcome` says whether a call returns, goes to user level, or goes on
-- with a stack that another call has left; the registers of a stack are parameters (`Frame`,
-- `Interrupt`).
--
-- A user program is a function of the state in a small monad (`Program`), and meets the kernel only
-- through `Calls`: what a program that it executes does until it halts, the interrupts during a call
-- and the stack's contents are parameters (`Surroundings`). Loops of a program that have no counter
-- run on fuel, and the theorems on `cat`, `ls` and the shell say how much is enough.
--
-- Conventions: a pointer is the bytes from it on (ℕ → ℕ), addresses and words are natural numbers
-- with their wrap-around at 2^32 written out, a signed result is a ℤ, and -1 is `minus_one`. A
-- result `none` is a call that does not return. Loops that scan for NUL run on fuel, one round for
-- each of the 2^32 addresses, and the theorems show that a C string in memory needs no more; loops
-- with a counter recurse on the rounds left. `execute` has the outcome `fault`, of which nothing more is
-- said, for a command of 32 characters or more, whose NUL is stored behind a local array, and for a
-- file larger than the page of the program image, where the copy page faults. The newline that
-- terminal_read stores behind `temp_buffer` for a line of 128 characters is a cell of its own here. `rtc_read` runs on fuel that its theorem bounds by the
-- first interrupt; `terminal_read` takes the interrupts that come while it waits as a list.
--
-- Not modelled: the assembly around handlers, in boot.S and in x86_desc.S, which is not C; the
-- start of a program in syscalls/ece391emulate.c, in assembly, and the host below it; fish/blink.S;
-- the tests that print. Among the steps of Syscalls/Stacks/Reached, `halt` of the first process of
-- a terminal is left out: it executes a new shell with the terminal still marked as open, and a
-- block that keeps the mark of a first process is then left behind. Concurrency is the interrupts
-- at the two waits above, and any sequence of interrupts, calls and switches between them as
-- explicit steps: the handlers run with interrupts disabled.
mod Prelude
mod Samples
pub mod Clib
pub mod FileSystem
pub mod Io
pub mod Pic
pub mod Rtc
pub mod Paging
pub mod Idt
pub mod Console
pub mod Printf
pub mod Programs
pub mod Keyboard
pub mod Terminal
pub mod Syscalls
pub mod Handler
pub mod Scheduler
pub mod Boot
pub mod Support
