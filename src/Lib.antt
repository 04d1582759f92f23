-- ===== src/Lib.antt =====
-- Xplain software framework: the portable core of its C code (source/include and source/util).
--
-- The model is of the 32-bit AVR32 target, where `unsigned int`, `unsigned long`, `size_t` and
-- addresses are 32 bits wide. A machine word is a number below 2^32, and its arithmetic wraps by
-- `% 2 ^ 32` (add32, sub32 of Base/Words). An assertion that fails is `none`.
--
-- Base            lists, Boolean tests, words, bit operations by powers of two, and signed integers
-- Ring            include/ring.h: head and tail counters of a ring. Every function has the name of
--                 the C function without `ring_`. Ring/Counts and Ring/Refine prove what the
--                 counters say, against two counters that never wrap.
-- Stream          include/stream.h and util/stream/stream_core.c: character streams, which use the
--                 ring for their indices. `Stream` is `struct stream`; its backend (`stream_ops`)
--                 and what interrupts do to it are parameters (`Backend`), for which IsBackend of
--                 Stream/Write states what include/stream.h documents. Stream/Holds relates a
--                 stream to the queue of its bytes; Stream/Buffer and Stream/Write prove the
--                 operations, Stream/Deliver the public ones over a backend that always makes room.
--                 Stream/Printf has the number conversions, Stream/Printf/Machine the states of
--                 `stream_vprintf` (one function `in_...` for each `case STATE_...`).
--                 Stream/StringStream is util/stream/stream_string.c, a backend that stores the
--                 characters in a string, with snprintf and sprintf; its Commit proves that it keeps
--                 the documented contract of a backend, and its Snprintf uses that.
-- Slist           include/slist.h: singly linked lists with a sentinel, over a heap of links.
--                 Slist/Links relates a list to its nodes; Insert, Move and Borrow are about the
--                 operations.
-- Workqueue       include/workqueue.h and util/workqueue.c: queues of tasks on such lists. A task is
--                 queued if its link is not null. Workqueue/Schedule is the invariant of the main
--                 and a nested queue, Tasks and Nested are about the operations, Setup about the
--                 initialisation.
-- Memory/Align    round_down32 and round_up32 of include/util.h
-- Memory/Physmem  util/physmem.c and util/malloc_simple.c: memory from either end of a
--                 region
-- Memory/Mempool  util/mempool.c: pools of objects of one size. The memory is an explicit word at
--                 each address, since the free list is chained through the free objects. Chain
--                 relates it to a list of addresses, Init is about `mem_pool_init`, and Client
--                 about any sequence of calls. Region is about a pool in a physical region.
-- Memory/Membag   util/membag.c with CONFIG_MEMBAG_USE_TUNING: bags of such pools. The array
--                 `membags` is a list; Alloc, Free and Totals are about the allocation, the free
--                 and the queries.
-- Memory/Buffer   util/buffer.c and util/dmapool.c with their headers: buffer structures and data
--                 areas from such pools. The first word of a structure is the link of its pool.
-- Strings         util/string: memcpy, memset, strcmp, strncmp and strlen over bytes at addresses.
--                 Copy is about the first two, Compare about the others.
-- Tsfs            util/fs/tsfs.c and include/fs/tsfs.h without huge memory: the mounting of a
--                 volume; Tsfs/Open has the lookup and the handles, Tsfs/Read the transfer. Its
--                 Blocks, Transfer, Requests, Mount and Files prove the parts, and Contents what an
--                 application sees. It uses Strings, and malloc of Memory/Physmem.
-- Win             util/gfx/win.c and include/gfx/win.h: the windows as functions from addresses to
--                 their fields, with the calls of handlers and of the drawing code in a log.
--                 Ring, Tree, Links and Adding relate the links to the list of children of each
--                 window, Stacking and Raise are about visibility and the order of siblings.
--                 Geometry has the areas and clipping regions, with coordinates of 16 bits. Events
--                 has the queue of events, over Ring, and the way of an event through the tree:
--                 Queue, Loop, Routing and Bubbling are about these. Attributes has the
--                 setters, and Draw what is drawn of a tree, in which order.
--
-- Fuel: `write_loop` gets one round for each character and one more, since each round writes a
-- character or stops; `link` one for each byte of the area and one more; `fill` 32 rounds, since
-- each divides a 32-bit word by 8 at least; `pad` the width, at most 32; `copy_out` and `toss_out`
-- the number of characters in the buffer; `run` the blocks that a range of a file spans; `strcmp`
-- and `strlen` the length of the string and one more; `is_visible`, `bubble` and `to_root` the
-- windows on the way to the root, `find_child` and `draw_children` the children of a window,
-- `handle_pointer_event` and `win_draw_contents` the levels of the tree, and `process_events` the
-- events in the queue and those that their handlers still queue, for which there is to be a bound.
-- The theorems on these functions include that the fuel is enough.
-- `destroy_children` and `destroy_from` get one for each of their calls, and `win_draw` and
-- `translate_to_root` the windows on the way to the root; no theorem is about these.
--
-- Not modelled: the widgets and the graphics primitives; soft interrupts; drivers, start-up code and
-- register access; applications; in the allocators but for `zalloc`, contents of memory other than
-- the words that link free objects. In Win, the handlers of events are parameters; those that
-- `process_events` calls may queue events, and they do not call back otherwise. `barrier` and the
-- interrupt flag have no values; where interrupts are enabled within `stream_priv_write`, the model
-- lets the backend's `interrupt` change the stream.
pub mod Base
pub mod Memory
pub mod Ring
pub mod Slist
pub mod Stream
pub mod Strings
pub mod Tsfs
pub mod Win
pub mod Workqueue
