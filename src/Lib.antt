-- ===== src/Lib.antt =====
-- memleax attaches to a running process, traps its calls of malloc, free, realloc and calloc, and
-- reports the memory blocks that live longer than a threshold. This is a model of its code, file
-- by file; paths are from the root of the repository.
--
-- The parts:
--
-- * Hash (hash.h): chained hash tables. A table is a function from slots to chains, a chain is the
--   sequence of the nodes that are linked, and a search that compares past the end of an object is
--   an explicit fault. list.h, a copy of the Linux header, is not modelled: the lists are the
--   sequences that they stand for, `list_del` and `hlist_del` unlink a node, `list_add_tail` and
--   `hlist_add_head` add one.
-- * State (memblock.c, callstack.h): `struct memblock_s`, `struct callstack_s`, and the static
--   tables and lists as one record, `Tracker`. Blocks live in a store from addresses to structs;
--   callstacks, which are never freed, are numbered. `Env` holds the answers of the outside that a
--   handler uses: the clock, malloc, the frames that libunwind reaches.
-- * Callstack (callstack.c, ptr_backtrace.c): the lookup of the current callstack.
-- * Backtrace (ptr_backtrace.c): the table of thread spaces, the copies of the mapped files that the
--   unwinder reads, and the cache of unwind information. libunwind is outside: the spaces it makes
--   and the answers of its queries are arguments.
-- * Memblock (memblock.c): allocation, free, change of size, search, expiry, and the count of what
--   is not freed. Each is a function on `Tracker`; `none` stands for a fault of memleax itself.
-- * Machine (machines.h, ptrace_utils.h): the words that memleax reads and writes in the target, on
--   GNU/Linux and x86_64. The kernel behind ptrace is the parameter `Target`: a state, the bytes
--   that each task sees, which tasks are in a ptrace-stop, and what PTRACE_POKETEXT, which fails on
--   a task that is not stopped, and PTRACE_SETREGS change of them.
--   Machine.Variants has the operations of the other machines.
-- * Breakpoint (breakpoint.c): the handlers that the traps call; in Breakpoint.Table the four
--   breakpoints, set, found and taken away.
-- * Monitor (memleax.c): one round of the loop in `main` as a function `step` from the variables
--   of the loop and the stop that `waitpid` reports to a new monitor, the end of the loop, or a
--   fault (a null `bp`, the array of held threads full); `finish` is the clean-up after the loop.
--   The `goto lexpire` is the function `expire_and_resume`; resuming, detaching and the alarm are
--   recorded as actions. A round begins with a task in a ptrace-stop, the one that `waitpid`
--   reports; `finish` writes to the target itself, which may be stopped or not. Monitor.Running
--   has the loop over any number of rounds, Monitor.Session all from the set-up of the breakpoints
--   to the clean-up.
-- * Search (addr_maps.c, symtab.c, debug_line.c): the loop of the binary searches, in which an
--   overflow of `min + max` and a read outside the array are faults. Its fuel is one more than the
--   number of elements, which is enough since each round leaves fewer elements to search.
-- * AddrMaps (addr_maps.c), Symtab (symtab.c), DebugLine (debug_line.c): the tables of the maps, the
--   symbols and the units of source lines, how they are built and what the lookups find in them.
--   What libelf, libdw and libdwarf answer for a file is a parameter. debug_line.c is modelled with
--   libdw; DebugLine.Libdwarf has what differs with libdwarf.
-- * Sort (qsort of the C library): what the code relies on when it calls qsort, which is a parameter.
-- * Array (array.h): the arrays that grow. A push gives the index of the new item, and the caller
--   writes it; malloc and realloc succeed or fail by an argument.
-- * Report (callstack.c): what is printed at the end, as data: the callstacks that leak, sorted, each
--   with its backtrace in names. qsort is an argument. Report.Printed is the printing of one backtrace
--   with the tables that the start of memleax builds.
-- * Crc and DebugFile (debug_file.c): the CRC-32 by its table, the build id and the debug link of a
--   file, and the candidates for its debug information. The files are a parameter: what their ELF
--   sections are and what `read` gives. `debug_try_get` keeps an index between its calls; seven
--   calls are enough for all candidates. DebugFile.Loading is the pair of loops of `symtab_build` and
--   `debug_line_build` over the maps and over the candidates of each.
-- * ProcInfo (proc_info.c): the walks over /proc/pid/maps and /proc/pid/task, call by call,
--   with one call more than there are lines or entries as fuel. The `while` loops over such calls
--   are one definition in ProcInfo.Repeats; the table of maps is built by it in AddrMaps.Table, the
--   copies of the mapped files in Backtrace.Build. ProcInfo.Freebsd is the walk on FreeBSD.
-- * Options (memleax.c): the options, the attachment to the tasks of the target, and the end of `main`.
--
-- Machine integers are natural numbers with their wrap-around written out (Prelude.Words), on the
-- LP64 targets. Apart from the binary search and the repeated calls above there is no fuel: each
-- loop is a recursion on the list that it walks.
--
-- Not modelled: printing (what is printed is recorded as data); the libraries libunwind, libelf,
-- libdw and libdwarf; the kernel behind ptrace and /proc, and the functions of ptrace_utils.h that
-- only pass their arguments to ptrace; the signal handlers; and the reading of memory in two halves
-- on FreeBSD. The loop and the breakpoints as a whole are those of GNU/Linux on x86_64.
pub mod AddrMaps
pub mod Array
pub mod Backtrace
pub mod Breakpoint
pub mod Callstack
pub mod Crc
pub mod DebugFile
pub mod DebugLine
pub mod Hash
pub mod Machine
pub mod Memblock
pub mod Monitor
pub mod Options
pub mod Prelude
pub mod ProcInfo
pub mod Report
pub mod Search
pub mod Sort
pub mod State
pub mod Symtab
pub mod Tests
