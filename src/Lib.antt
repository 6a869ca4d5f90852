-- ===== src/Lib.antt =====
-- counterRop: a shared object that is preloaded into a program, finds the code that the program
-- can reach from its `main` and records it as address ranges. The model covers its data
-- structures (data/list, data/boundTree, data/hashtable) and the analysis on top of them
-- (elf/libaddr.cc and data/trap/trap.c).
--
-- How the parts interact. `wrapped_main` puts the address of the program's `main` on a queue of
-- addresses (`address_list`) and empties the queue: each address that no recorded range holds is
-- given to `printDis`, which walks along the instructions with a disassembler, puts the targets
-- of direct calls and jumps on the queue, writes a trap byte over each indirect call or jump,
-- remembers the byte that stood there in a hash table (`original_start_bytes`) and the address in
-- a list (`start_byte_list`), and records the range that it walked in a tree of ranges. When the
-- program runs into a trap byte, `trap_handler` puts the original byte back, finds where the call
-- or jump leads and empties the queue again. `shutdown` puts back every original byte.
--
-- Files and the code that they model:
-- - Common and its children: Boolean tests, lists, 64-bit words as bit patterns with the signed
--   order of `intptr_t`, outcomes (a result, undefined behaviour, the end of the process, no fuel
--   left) and a heap of cells with `malloc` and `free`.
-- - LinkedList: data/list/list.c and list.h (`list_new`, `list_find`, `list_insert`, `list_pop`,
--   `list_delete`), over a heap of nodes. LinkedList/Chain says what a well-formed list is in
--   memory; Find, Insert, Pop and Delete are about one function each, and LinkedList/Queue
--   relates them to a queue of distinct addresses.
-- - BoundTree: data/boundTree/boundTree.c and boundTree.h (`boundTree_new`, `boundTree_insert`,
--   `boundFind`, `direct_boundTree_insert`, `deleteNode`, `boundTree_delete`), over a heap of
--   nodes. BoundTree/Shape says what a well-formed tree is in memory; Walk, Insert, Refine,
--   Direct and Delete are about the functions; Ranges and Bounds are about the ranges that the
--   tree holds, Measure counts the addresses that none of them holds, and Places forgets where
--   the nodes stand.
-- - Jhash: data/hashtable/jhash.c (`JenkinsHash`). HashTable: data/hashtable/hashtable.c and
--   hashtable.h (`hashtable_new`, `hashtable_find`, `hashtable_insert`, `hashtable_delete`), over
--   a heap of entries. HashTable/Chains says what a well-formed table is in memory, and
--   HashTable/Map relates the functions to a finite map.
-- - Symbols: `find_address` and `callback` of elf/libaddr.cc, over what elf++ makes of a file;
--   Symbols/Last says which symbol is taken.
-- - Files: `file_readline`, `find_in_dir` and `print_proc_maps` of elf/libaddr.cc. Files/Pick is
--   about the directory, Files/Copy about the texts.
-- - Process: `__libc_start_main`, the beginning of `wrapped_main` and the wrappers of `exit`,
--   `_exit` and `_Exit` of elf/libaddr.cc, and `setup_analyzer` of data/trap/trap.c.
--   Process/Status: how a process ends, from `__libc_start_main` on; Process/Load: the same from
--   the loading of the library on.
-- - Simulation: data/boundTree/boundTreeTest.c, a machine of 100 instructions whose jumps drive
--   the tree; Simulation/Safe: its loop on a well-formed tree; Simulation/Ends: how many rounds
--   it takes; Simulation/Main: the whole program.
-- - Programs: `main` of data/list/test_list.c, data/hashtable/hashtest.c and
--   data/trap/trap_test.c, and Programs/Runs what they print. Examples: basic.c and testUdis.c,
--   and Examples/Listing what they print.
-- - Analyzer: the globals of elf/libaddr.cc and data/trap/trap.c as one record; Analyzer/Start:
--   how they are initialized. Analyzer/Trap: `trapSetup`, `swap_start_byte`, `shutdown`,
--   `get_register`, `get_address` of data/trap/trap.c. Analyzer/PrintDis: `printDis` of
--   elf/libaddr.cc. Analyzer/Handler: `wrapped_main` of elf/libaddr.cc and `trap_handler` of
--   data/trap/trap.c. Analyzer/Udis: what is used of the disassembler udis86, as a record of
--   operations with the laws that its manual gives.
-- - Analyzer/Armed has the invariant of the trap bytes, Analyzer/Ready the one of the whole
--   state, with the room that is left, and Steps the insertions that keep it. Analyzer/Stays,
--   Walk and Record follow `printDis` through it, Effect, Visit, Survey, Follow and Finds say
--   what its walk finds, Drain and Ends the loop that empties the queue, Found, Target and
--   Recover the trap handler, Restore `shutdown`, and Life the whole run of `wrapped_main`.
--   Address is about `get_address`, and Refuse about the ends of the process in `trap_handler`.
-- - The loop that empties the queue is also written without lists, tables and trees in memory, as
--   a relation between what was known before and after: Analyzer/Worklist. Explore and Closed
--   show that the loop of the code implements it. Rule, Visited, Complete and Sound say what such
--   a run has done: which instructions it looked at, and that the sites, the queue and the ranges
--   are theirs. Frame says what the loop leaves alone, and Alike that what it finds does not
--   depend on places in memory. Analysed is what is known when the queue is empty; Loaded applies
--   this to the loading of the library and `wrapped_main`, Trapped to `trap_handler`, Session and
--   Execution to a run of the program, in which it stores bytes and runs into one trap after
--   another, and Finish to the end of it.
-- - Tests: the theorems at concrete inputs, and a few runs.
--
-- Conventions. A word is a number below 2 ^ 64; signed overflow, which the C code leaves
-- undefined, wraps as it does on the target. A heap hands out addresses upwards and does not use
-- one again; `room` says how many calls of `malloc` succeed from now on. An object such as
-- `list_t` is a record that holds its fields and the memory of its nodes; a function on it
-- returns the new record. The flags 0 and 1 are Booleans, but for `trapFlag`, which counts. What
-- C leaves uninitialised is an argument (`garbage`). The memory behind a variable whose address
-- is hashed is an argument (`beyond`).
--
-- Fuel. A walk along a list, a chain or a tree is given as many rounds as addresses were handed
-- out, which the representation invariants bound the size by. The loop of `printDis` is given 101
-- rounds, one more than its input buffer has bytes. The loop that empties the queue takes its
-- rounds as an argument; each address that it examines is in a range afterwards, so with memory
-- for each address that no range holds, more rounds than the queue can become long are enough; so
-- are more than one for each address in the queue and 101 for each address that no range holds,
-- as a walk puts at most 101 addresses on the queue. The loop of the simulation is given 102
-- rounds for each instruction that no range holds and 102 more, and that of `print_proc_maps` one
-- round for each character and two more.
--
-- Not modelled: elf++ (elf/elf.cc and the files beside it), a copy of another project's library,
-- which is seen through a list of sections; the macros that interpose a function
-- (elf/interpose.hh, also a copy); printing to the terminal. What the system has in its files and
-- directories, and the `__libc_start_main` of the C library, are arguments. `mprotect` is an
-- argument that says for which pages it succeeds; the `malloc` of the result of `boundFind` is
-- taken to succeed; that a read of the analysed program's memory may itself end the process is
-- not modelled, nor a program that writes over one of its own sites, or that has several threads.
pub mod Common
pub mod LinkedList
pub mod BoundTree
pub mod Jhash
pub mod Symbols
pub mod Simulation
pub mod HashTable
pub mod Files
pub mod Process
pub mod Programs
pub mod Examples
pub mod Analyzer
mod Tests
