-- ===== src/Lib.antt =====
-- Parts of the C programs of this repository: the collections library of a.yanin, its reference
-- counts and its thread pool, and the URL parser and the cache of its HTTP proxy waxy.
--
-- The parts and the files:
--   Common: shared names, Boolean tests, lists over native numbers, the outcome of code that may
--     stop (Common/Outcomes), and the status codes of a.yanin/common/error-codes
--     (Common/ErrorCodes).
--   Vec: a.yanin/common/collections.vec, vec.h. A vector is a storage of slots, a capacity and a
--     length; a slot that has not been written, or of which only some bytes have, is `none`. One
--     definition per function, by its name (`insert`, `remove`, `resize`, ...); `shift_in` is the
--     tail of `insert`.
--   Text: a.yanin/common/collections.string, string.c, over the vector of bytes.
--   Buffer: the same calls on the characters alone, as the URL parser uses them, and the errors of
--     a.yanin/common/error that it combines (Buffer/Reports).
--   Hash: a.yanin/common/collections.hash, hash.h and byte_hasher.c (Hash/Bytes). Hash/Pairs and Hash/Apart
--     have the pairs of a storage, Hash/Maps says when a table is a map from keys to values, and Hash/Updates and
--     Hash/Removal what `insert` and `remove` do to it.
--   Dlist: a.yanin/common/collections.dlist, dlist.h, on a heap of nodes that is a function of
--     addresses (Dlist/Nodes); `swap`, the two moves and `is_valid` are in Dlist/Moves. Dlist/Spec
--     says when the heap holds the list of certain cells, Dlist/Chain and Dlist/Trio what a write to
--     a pointer does to it, and Dlist/Insert, Dlist/Pluck and Dlist/Whole what the calls do.
--   Slab: a.yanin/common/collections.slab, slab.h, over the vector of nodes.
--   Arc: a.yanin/common/memory.arc, arc.h, and the threads that share an object (Arc/Runs).
--   Pool: a.yanin/common/executor.thread-pool, thread-pool.c: `submit`, `shutdown`, `new` and the
--     rounds of `worker_thread` (`enter`, `serve`, `settle`) as functions of what the mutex protects;
--     Pool/Single is a.yanin/common/executor.single, single.c, which runs a task at once.
--     Pool/System has the threads, the condition variable and what can happen next.
--   Url: a.yanin/waxy/src/url.c. Url/State has the parser's record and its views; Url/Handlers has
--     one function per state, `parse_host` for `url_parser_host` and so on; Url/Parse has the loop;
--     Url/Input the preparation of the text; Url/Percent the percent encoding; Url/Compare `url_eq`,
--     and Url/Copy `url_copy`, with slices as addresses.
--   Cache: a.yanin/waxy/src/cache.c. Cache/Content has an entry with its handles; Cache the calls
--     `fetch`, `commit` and `evict` on the map, the list and the store of entries; Cache/Keys the
--     hashing of URLs; Cache/Session one writer and one reader; Cache/Runs all runs;
--     Cache/Table the table of hash.h beside the association list that stands for it.
--
-- The parser copies its text with `string_from_slice`, prepares it, and runs the handlers over it,
-- which push to one buffer and cut regions off it; the regions become the slices of the URL. The
-- string is a vector of bytes that ends in NUL. The cache keeps its entries in a list and finds them in a hash table by their URLs; an entry is shared by reference counts. The pool
-- keeps its tasks in a list.
--
-- Parameters: `realloc`, `malloc` and `calloc` are a test on the number of bytes (Allocator), or
-- on the size of a text and what is added to it (Room), so requests of one size have one answer; in
-- Dlist, Pool and Cache they are an argument of the call. `joined` tells whether `error_combine` gets
-- its memory. RefusesHuge and IsBounded say that an object has at most PTRDIFF_MAX bytes. The hashers
-- and the comparison of a table are a record of functions. `vsnprintf` enters as the text that it has
-- formatted. Mutexes make critical sections single steps; `pthread_cond_signal` wakes a waiting
-- thread if there is one, whichever the run says, and waits may end without a signal.
--
-- The cache: its map is an association list, which assumes of the hash table what Cache/Table shows, and
-- its list is a sequence of entries, which assumes of dlist.h that append, remove and move_before act on
-- the sequence; of move_before this is not proved. Each call is one step. In the source cache_wr_write
-- holds only the mutex of its entry and adds to the recorded size with an atomic operation, so it may
-- come between the steps of a fetch or a commit; such runs are left out. What is modelled of this: a
-- commit compares with a length of the stored entry that was read before, and rd_process works on a
-- length and a state that it read before it called on_read.
--
-- Numbers: `size_t` arithmetic is taken modulo 2^64. The loop of the parser has 18 * (n + 2)
-- rounds of fuel for n characters: there are 18 states, and each round moves on in the text or to
-- a later state. A probe of the hash table has as many steps of fuel as there are slots. A walk
-- through a linked list, and the eviction, have a unit for each node and one for the end. The
-- quotient in `should_rehash` is compared exactly, without the rounding of a `double`.
--
-- Not modelled: the event loop and the input and output of a.yanin/common, the sockets of waxy,
-- `cache_free` and the time at which an entry of the cache is freed, the exercises of a.yanin and the
-- other authors, and all output. The assertions of url_parser_buf, that the slice begins inside the
-- buffer, and of region_to_slice, that its length is below 2^63, are left out of the views of the
-- parser. A negative answer of `vsnprintf` is left out, and so are the checks that the list makes of
-- itself before a move of an entry in the cache.
pub mod Common
pub mod Vec
pub mod Buffer
pub mod Text
pub mod Hash
pub mod Dlist
pub mod Pool
pub mod Slab
pub mod Arc
pub mod Cache
pub mod Url
