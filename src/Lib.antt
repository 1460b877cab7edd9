-- ===== src/Lib.antt =====
-- Ming is a platform for a scripting language, in C. This library models its containers, its tagged
-- values, the garbage collector, the threads that share it, the log and the startup.
--
-- The parts, and the files that model them:
--   List    the circular list with a head, include/m_list.h (M_List)
--   SList   the NULL-ended list with a head, include/m_list.h (M_SList)
--   Hash    the chained hash table, include/m_hash.h; Hash.Storage its operations on all the lists
--   RbTree  the red-black tree, include/m_rbtree.h
--   Cmp     the comparison functions for keys, include/m_cmp.h
--   Value   the tagged values, include/m_value.h, with m_gc_add_obj of include/m_gc.h
--   Log     the log, src/m_log.c
--   Gc.Root     the table of root objects, src/m_gc_root.c, a client of Hash
--   Gc.Bitmap   the marks of the cells, Gc.Obj the pools and the marking, Gc.Sweep the scan for gray
--               objects and the sweep, Gc.Collect the collection and gc_alloc_obj, Gc.Startup the
--               settings and the layout of the pools, all of src/m_gc_obj.c
--   Gc.Api      the entry points of src/m_gc_obj.c, src/m_gc.c and include/m_gc.h
--   Gc.Map      the memory maps, src/m_gc_map.c
--   Gc.Buf      the buffers, src/m_gc_buf.c, and the wrappers of include/m_malloc.h
--   Gc.Unmarked objects with pointers in a collection, src/m_gc_obj.c
--   Thread      the threads, src/m_thread.c: Thread.Step their steps, Thread.Actor the threads for
--               actors
--   Startup     the order of the parts, src/m_startup.c
--   Base    lists, tests, the state monad and integers that the parts share
--   Tests   concrete runs
-- The collector allocates pools through Gc.Map and its stacks through Gc.Buf, and calls Thread to
-- stop the others; Gc.Root and the new born stacks of the threads are where its marking begins. In
-- Gc the state is one record of the static variables and the fields of the pools, and the stops are
-- left out; in Thread the state is the list, the counters, the flags and the place of each thread, and
-- what a collection does is left out.
--
-- A function m_f is the definition f in the containers, Value, Cmp and Log, and m_f elsewhere. A loop
-- of a function f is f_loop, or a body that is named for what it does.
--
-- Memory: an address is a number, 0 is NULL, and a store has one function from addresses to contents
-- for each field that the code of a part reads or writes. An operation is a function of type
-- `Run S A = S → Option (A × S)`; it gives `none` where the C code fails an assertion or reads or
-- writes through NULL, and where a loop runs out of fuel. Integers are natural numbers with the
-- wrap-around of uint32_t and size_t written out; an `int` is an integer of Base.Int, or its 32 bits
-- where it numbers a cell. Addresses themselves do not wrap.
--
-- Fuel: a loop over a list takes a number of rounds. The theorems ask for one more round than the
-- list has nodes, for instance `length xs < fuel`, and then show that the loop ends, so every
-- list in memory has enough.
-- The tree's loops take as many rounds as the node or the place is deep, and one more. The loop over
-- the marks of a word takes 16 rounds, one for each mark; that over the powers of two 65, one more
-- than a size_t has bits; that for the number of cells one more than the number it begins with. The
-- loops of a collection, which run the generated gc_scan, take a number of rounds.
--
-- Threads: a step is the code between two releases of m_gc_lock, and a wait on a condition variable
-- may end without a signal. The lock is free while a thread collects, as in gc_collect_objs.
--
-- Callbacks and code that is not here: the functions of an `M_HashOps`, strcmp, malloc, realloc, mmap,
-- the results of getenv and strtol, the conversions of a double, and the generated gc_scan and
-- gc_obj_descrs are parameters. gc_final, which is generated too, and munmap of a pool are recorded as
-- calls. A locked region is one step.
--
-- Not modelled: the contents of buffers and objects, the C library's formatting of a log line, the
-- traversal macros that add the offset of a member to a node, m_malloc0 and m_assert_alloc, the
-- atomic macros, and the functions of src/m_gc_funcs.c and the static ones of src/m_gc_buf.c, whose
-- bodies are empty.
mod Base
pub mod List
pub mod SList
pub mod Hash
pub mod RbTree
pub mod Cmp
pub mod Value
pub mod Log
pub mod Gc
pub mod Thread
pub mod Startup
mod Tests
