-- ===== src/Lib.antt =====
-- Teds (pecl-teds) is a PHP extension of collections in C. This library models its core and proves
-- what the collections promise.
--
-- The parts, and the files that model them:
--
-- - teds_util.h: Util.antt has the capacities (teds_next_pow2_capacity,
--   teds_deque_next_pow2_capacity), Util/Range.antt the helpers that go through a range of zvals
--   (teds_zval_range_contains, teds_zval_range_zval_indexof).
-- - teds_deque.c, the circular buffer of Teds\Deque: Deque.antt has teds_deque_entries as the
--   record Deque, with DEBUG_ASSERT_CONSISTENT_DEQUE as IsValid, and its reads; Deque/Storage.antt
--   the growing and the shrinking of the buffer, Deque/Add.antt push, pushFront, set and `[]=`,
--   Deque/Insert.antt insert, Deque/Remove.antt offsetUnset, pop, popFront and clear,
--   Deque/Build.antt __construct, __unserialize, __set_state and clone, Deque/Walk.antt toArray,
--   indexOf, contains, foreach and the destructor, Deque/Keys.antt count, isEmpty, containsKey,
--   offsetExists and the read of an offset, Deque/Collect.antt get_gc. The specification is a
--   list: `Holds d q` says that the consistent deque `d` holds the values of the list `q`, front
--   first, and each operation is shown to do to the list what its name says. The files below each
--   of these have the proofs.
-- - teds_vector.c, Teds\Vector: Vector.antt has teds_vector_entries as the record Entries and how
--   the storage grows and shrinks, Vector/Store.antt set, push, pushFront, insert and `[]=`,
--   Vector/Remove.antt pop, popFront, offsetUnset, setSize, clear, reserve and shrinkToFit,
--   Vector/Keys.antt the reads, Vector/Build.antt __construct, __unserialize, __set_state, clone,
--   filter and map. Here too the specification is a list, with `Holds`; Vector/History.antt has
--   sequences of calls, with what the script sees of each, on a vector and on a list.
-- - teds_strictsortedvectorset.c, Teds\StrictSortedVectorSet, an ascending array over the storage
--   of teds_vector.c: StrictSortedVectorSet.antt has both binary searches, add, remove and
--   contains, StrictSortedVectorSet/Build.antt the sort with the removal of duplicates,
--   __construct, __unserialize, __set_state and clone. `Ascending` says that each value compares
--   less than every later one. The specification is a set that has no order and no representation,
--   a function that says of each value whether one that compares as equal is in it;
--   StrictSortedVectorSet/History.antt has `Represents`, between arrays and sets, and sequences of
--   calls. The qsort of the C library is a parameter, the record Qsort, with what its documentation
--   says: the same values, in order. Build/InsertionSort.antt below it is such a sort.
-- - teds_strictsortedvectormap.c, Teds\StrictSortedVectorMap, an array of pairs whose keys ascend:
--   StrictSortedVectorMap.antt has both searches, offsetSet, offsetUnset, get, containsKey,
--   offsetExists, pop and popFront, StrictSortedVectorMap/Ends.antt first, last and their keys,
--   StrictSortedVectorMap/Dimensions.antt `$map[$key]` and contains, StrictSortedVectorMap/Build.antt
--   construction from an iterator, fromPairs, __set_state, __serialize, __unserialize, toPairs,
--   keys, values, clear and clone. teds_mutableiterable_entries, its state, has the fields of
--   teds_vector_entries, and is the record Entries of Vector.antt over pairs. The specification is
--   a map, a function that says of each key which value one that compares as equal has;
--   StrictSortedVectorMap/History.antt has `Represents`, between arrays and maps, and sequences of
--   calls. TEDS_MAX_ZVAL_PAIR_COUNT is the parameter `max_pairs`, in the theorems twice a Limit.
-- - teds_strictheap.c, the array heaps StrictMinHeap and StrictMaxHeap: StrictHeap.antt has
--   teds_strictheap_entries_insert, teds_strictheap_entries_remove_top, extract, next and add,
--   StrictHeap/Build.antt __construct, __unserialize, __set_state and clone. Their storage is that
--   of teds_vector.c, in Vector.antt. `Holds` says which list the entries are, `Rearranged` that
--   two lists have the same values, each as often, and `Ordered` that each entry may stand below
--   the one above it, where insert and remove_top take different entries for that one (half and
--   upper).
-- - teds.c, the comparison that the heaps, the set and the map rest on: what teds_stable_compare promises
--   is the record Comparison of Compare.antt, a total order up to values that compare as equal.
--
-- The parts rest on:
--
-- - Base.antt: lists and tests over native numbers. Machine.antt: `uint32_t` and `size_t` with the
--   wrap-around written out (u32, u64), `&` with a mask, __builtin_clz.
-- - Memory.antt: blocks of zvals as safe_emalloc gives them, with what a read or a write outside
--   of one, or of a cell that was never written, is: a fault. A theorem that an operation returns
--   therefore says that it stays in its memory.
-- - Run.antt: how a call ends: a value, an exception, the fatal error of the engine, an assertion of
--   the source that does not hold, or a fault. The assertions of teds_vector_shrink_capacity, which
--   setSize breaks for some arguments, are written out, and DEBUG_ASSERT_CONSISTENT_DEQUE is the
--   invariant of the deque.
--
-- Values are of any type, since the collections only move them. An offset is the 64-bit pattern of
-- a zend_long, which the code reads as a zend_ulong. Iterators are modelled by the list of their
-- offsets, in the order of active_iterators. What an iterator of the engine gives to __construct
-- is in Iterable.antt. The engine's HT_MAX_SIZE is the parameter `max_size`, with what PHP
-- documents of it as the record Limit: a power of two, at least 4 and at most 2 ^ 31.
--
-- Loops with a counter are structural recursions. The loops of teds_deque_entries_insert_values
-- and teds_deque_entries_remove_offset, which run until an offset meets another, run on fuel,
-- which their callers set to the number of entries: each round moves one entry, and the theorems
-- on insert and offsetUnset show that it is enough, since running out of it is no result. foreach
-- runs on fuel as well, and foreach_lem says how much it needs. The loops of the heaps run on fuel
-- that insert and remove_top set to one more than the number of the entries; the theorems on them
-- show that it is enough. The binary searches run on one more than the size of the array, and each
-- round makes the range shorter. The search of the map that begins at the last pair runs on two more
-- than twice the size: of two rounds, one makes the range shorter.
--
-- A callback of filter or map may return or throw, and does not change the vector.
--
-- Not modelled: the other ZEND_ASSERTs, reference counts and the destruction of single values, the tables of properties
-- that var_export reads, toArray of StrictSortedVectorSet and StrictSortedVectorMap, which makes
-- keys of a PHP array, StrictSortedVectorMap::__construct from an array, whose block has more cells
-- than its capacity says,
-- the conversion of an offset that is not an int, the body of
-- teds_stable_compare, and the other collections of the extension.
pub mod Base
pub mod Machine
pub mod Run
pub mod Memory
pub mod Util
pub mod Iterable
pub mod Deque
pub mod Compare
pub mod Vector
pub mod StrictSortedVectorMap
pub mod StrictSortedVectorSet
pub mod StrictHeap
