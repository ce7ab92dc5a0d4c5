-- ===== src/Lib.antt =====
-- Models of example programs on the UNIX programming interface, and proofs about them.
--
-- Each program is a main function of its own; programs of one directory share no code but by copies.
-- A program sees the operating system through calls. In the models a call is a function on the state
-- of the operating system, of any type, that gives a value or an `errno`; it is a parameter, as the
-- system and the C library are not in the repository. What a theorem needs of a call is a hypothesis.
-- A program is a function on a process, which holds the system's state, `errno` and the lines printed,
-- the newest first. It returns, or exits with a status, or is still running where the fuel of a loop
-- is used up. `Base.Monad` has these types, the combinators for the usual checks of a call's result,
-- and rules that prove a property of a program by the result of its first call.
--
-- Where two processes or two threads run side by side, or a signal may arrive between two calls, a
-- program is first such a function up to the fork, and from there a relation `Step` between states of
-- the whole: where each process stands, its variables, and the objects of the system that they share,
-- with one step for each call or access, a failing call included. `Base.Runs` has the runs of such a
-- relation, and that an invariant holds in all states of a run. The steps stand in any order; where a
-- source relies on a sleep being long enough, the relation has a Boolean `timely` that says so.
--
-- The parts and their files:
--  - Base: the native numbers with their Boolean tests, lists, integers, texts, atoi, the monad, and
--    facts on bit masks. Mode: st_mode and its macros.
--  - FileIo.Pump: the copying loop of file_io/copy.c and file_io/dev_fd.c (`pump`). FileIo.Copy,
--    FileIo.DevFd and FileIo.StatusFlags: the rest of these two and file_io/file_status_flags.c.
--    FileIo.Kernel: the file calls as a record, and what is relied on of read and write between two
--    different regular files. FileIo.Memory: two files in memory that behave so.
--  - Files.Stat, Files.Types, Files.Access, Files.Links: files_and_directories/file_stat.c,
--    file_type.c, access.c with chmod.c, and link.c, linkat.c, rename.c, renameat.c, symlink.c.
--    Files.Unlink: unlink.c.
--  - Process.Status: pr_exit of process_control/system.c, and exit_status.c. Process.System: system
--    and main of system.c. Process.Account: show_process_account.c. Process.Nice: nice_influence.c.
--    Process.Times: process_times.c. Process.Priority: setpriority.c. Process.Tree:
--    test_process_account.c. Process.Exec: execl.c, exec_interpreter.c, echoall.c, and show_id.c and
--    test.c of process_control/system_error/.
--  - AdvancedIo.Nonblock: advanced_io/nonblock_io.c, over the calls of FileIo.Kernel. AdvancedIo.Mmap:
--    advanced_io/mmap.c, two processes with one step for each access of the shared integer and of
--    the semaphore. AdvancedIo.MandatoryLock: advanced_io/mandatory_lock.c, two processes with the
--    lock and the pipe between them. AdvancedIo.RecordLock and AdvancedIo.Asynchronous:
--    record_lock.c and asynchronous_io.c.
--  - Ipc.MessageQueue: interprocess_communication/sv_msq.c, two threads and the queue between them.
--  - Environment.Rlimit, Environment.Exit, Environment.Waitid, Environment.Setjmp: rlimit.c, exit.c,
--    waitid.c and setjmp.c of process_environment/.
--  - Stdio.StreamStat, Stdio.Fdopen, Stdio.Tmpnam, Stdio.MemStream: stream_stat.c, fdopen.c, tmpnam.c and
--    mem_stream.c of standard_io_library/.
--  - Threads.Body: what the function of a thread does, with its cleanup handlers. Threads.Slot: a thread
--    as main sees it, and its steps. Over these Threads.Exit, Threads.Cleanup and
--    Threads.Identification: pthread_exit.c, pthread_cleanup.c and pthread_identification.c of threads/.
--    Threads.Timedlock: pthread_mutex_timedlock.c.
--  - Signals.Mask: signals/sig_mask.c. Signals.Disposition: Signal and Signal_r of
--    signals/sigaction_semantics.c. Signals.Restart: the sections on interrupted reads in main of
--    sigaction_semantics.c and signal_semantics.c, over one function with a table for each program.
--    Signals.Reset and Signals.Nesting: the two parts of main before these, the second as steps of
--    parent, child and handler. Signals.Jump: sigsetjmp.c, with a stack of handlers. Signals.Child:
--    sigchld.c. Signals.Pending and Signals.Queued: sigpending.c and sig_queued.c, with signals that
--    may arrive between any two calls.
--  - Socket.GetHost, Socket.Interfaces: socket/gethost.c and getifaddrs.c.
-- The child modules Laws, Invariant, Complete, Flags and Wait hold what is proved of their parent; a
-- module Tests holds runs and the theorems at concrete systems.
--
-- A loop whose end depends on the system takes fuel, one unit for each round: more fuel than there
-- are bytes to read, records in the file, interruptions of waitpid, calls of sigsuspend, or bytes
-- and times that the output is busy, is enough, and the counting loop of nice_influence.c ends
-- within the 2 ^ 64 rounds of its counter. Loops over arguments and lists are recursion on these.
-- Words have their widths on 64-bit Linux: comp_t 16 bits, unsigned long and unsigned long long 64,
-- a port 16, a wait status 32, and macros have the values of Linux and glibc.
--
-- A line of a run is a call of printf or of its like; where the output is line-buffered, such as a
-- terminal, each is written at once, and in Environment.Exit, where _exit and _Exit leave what stands
-- in a buffer unwritten, the flush of exit is a call. Signed integers are printed by their patterns,
-- also where C leaves an overflow or a wrong format undefined. linkat.c and renameat.c do not compile
-- with glibc for want of <fcntl.h>; they are modelled as if they included it.
--
-- Not modelled: the widths of formatted fields, and the buffering of streams beside that flush; the
-- memory of a message or of a variable while it is written; the third version of three functions of
-- stream_stat.c, and Signal of sigsetjmp.c and sig_queued.c for headers with SA_RESTART, which do
-- not compile; and standard_io_library/FILE.c, a declaration of the C library.
pub mod Base
pub mod Mode
pub mod AdvancedIo
pub mod Environment
pub mod FileIo
pub mod Files
pub mod Ipc
pub mod Process
pub mod Signals
pub mod Socket
pub mod Stdio
pub mod Threads
