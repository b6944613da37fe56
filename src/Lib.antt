-- ===== src/Lib.antt =====
-- Exercises of an operating systems course, and the parts of them that carry state and logic.
--
-- ex2, a library of user-level threads. ex2/Thread.cpp holds the object of one thread;
-- ex2/uthreads.cpp keeps all of them in a map, the ready ones in three queues by priority, the
-- blocked ones in a vector, and switches between them in a timer signal.
--   Uthreads/Thread: `Thread`, its fields and setters, and the store that `new` allocates from.
--     Queues and map hold addresses, since the code shares the objects between them.
--   Uthreads/Table: `getNextId` on `_threads`, which Prelude/Maps has as the list of its entries in
--     key order.
--   Uthreads/Scheduler: the globals as the record `Sched`, and every internal function.
--   Uthreads/Api: `timeHandler` and every function of ex2/uthreads.h. A call ends in `ok`, in
--     `exits` for `exit`, or in `fault` for a null or dangling pointer, an exception of `at` or the
--     front of an empty queue; and control returns to the caller or jumps to the running thread.
--   Uthreads/Halves: sequences of steps, which are the tests of a call, its body behind SIG_BLOCK,
--     timer signals and jumps. Trace: what they keep. Late: a thread that is gone before
--     SIG_BLOCK.
--   The other modules of Uthreads hold the proofs, named for what they are about: the invariant and
--     its parts (Invariant), ids (Ids), the store (Store), the choice of the next thread (Pick,
--     Switch, Running), each call (Suspend, Blocking, Resuming, Spawn, Lifetime, Terminate), and
--     what a caller sees of them (Turns, Calls, Gone).
-- The body of a call, from SIG_BLOCK to SIG_UNBLOCK, is one step, since no signal comes in
-- between, and so are all tests in front of it together; signals may come between the two. A
-- signal between two tests of one call, or inside of one, is not modelled. A call of
-- `uthread_spawn`, `uthread_terminate`, `uthread_suspend` or `uthread_resume` in a statement
-- that has no such steps is one that nothing interrupts. The getters are one step each: two
-- only read, and `uthread_get_quantums` looks behind SIG_BLOCK. The return codes of the system
-- calls are the parameter `Os`. Ids are natural numbers: no thread has a negative id, so the
-- code treats one as a missing id. Stacks, address mangling and the overflow of the counters,
-- which are `int`, are not modelled.
--
-- ex4, a caching file system over FUSE (ex4/CachingFileSystem.cpp).
--   CachingFs/Block: `CacheBlock`; a C string is the list of its bytes, and a buffer keeps its
--     room.
--   CachingFs/Cache: `isInCache`, `searchMinCounter`, `updateBlock`, and the operations `init`,
--     `rename` and `ioctl`, which go through the cache.
--   CachingFs/Read: `caching_read`. `pread` and the size of the file are the parameter `OpenFile`.
--     The loop runs for the number of rounds that its condition allows, with the conversions of the
--     condition to unsigned, 64-bit and `int` values written out, so no fuel is needed.
--   Search, Counters, Labels, Parts, Coherence, Whole and Later hold the proofs: the searches, the
--     labels of blocks, parts of a file, what one round keeps, reads of a whole file, and reads that
--     begin late in it.
--   CachingFs/System and Handlers: the handlers with their log lines, messages and statuses. The
--     system below is the parameter `System`; a `CacheDir` has an address, and that of a deleted one
--     may be used again. The log is the lines written to its path since a rename last moved that
--     file or put another one in its place; what other programs do below the root is not
--     modelled. CachingFs/Mounted: sequences of calls of the handlers, between init and destroy.
--   CachingFs/Start: `main` up to `fuse_main`.
--   CachingFs/Session: programs that read and rename files, with and without the cache.
--   Number, Frames, Untouched, Kept and Lasting are about what handlers keep and log, Directory about
--     listings, Stale about renames over cached files, Renaming and Refinement about sessions.
-- A write past a buffer and the use of a deleted object are the outcome `overflow`, except for `buf`
-- itself, whose room is FUSE's. An allocation does not fail.
--
-- ex3, a block chain manager. ex3/Block.cpp holds the object of one block; ex3/blockchain.cpp keeps
-- the attached blocks in a map and the waiting ones in a queue, and a daemon thread hashes and
-- attaches them.
--   Blockchain/Block: `Block`, its setters, and the store of blocks, where `delete` leaves a gap.
--   Blockchain/Chain: the globals as the record `Chain`, the internal functions, and a round of the
--     daemon as two steps, before and behind the hash, since calls of the library come in between.
--   Blockchain/Library, Prune and Close: the functions of ex3/blockchain.h. A call returns, or
--     waits for a block or for a mutex. The loop that marks the longest chain has the depth of its
--     first block and one as fuel, the closing loop the length of the queue; `spins` is the outcome
--     without fuel.
--   Blockchain/Trace: sequences of calls and half rounds of the daemon.
--   The other modules hold the proofs: the choice of a father (Father) and of an index (Indexes),
--     the invariant, the searches of the queue (Waiting), what each step keeps (Adding, Taking,
--     Attaching, Marking, Hurrying), rounds of the daemon (Rounds, Between), answers (Answers),
--     pruning (Marks, Pruning), and the chain's beginning and end (Starting, Closing).
-- The hash library, `random_shuffle`, `pthread_create` and the memory behind the end of two
-- containers, which `prune_chain` reads, are the parameter `Env`. Data races finer than these steps
-- are not modelled.
--
-- ex5, a file transfer over sockets: the server ex5/srftp.cpp, which keeps a thread for each client,
-- and the client ex5/clftp.cpp.
--   Transfer/Numbers: `isInteger` of both programs; Prelude/Numbers has `strtol`, `atoi` and
--     `to_string`.
--   Transfer/Client: the class `Client` of ex5/clftp.cpp. What was sent and printed is explicit state,
--     and the socket (`Link`), the file (`InFile`) and the byte received (`Reply`) are parameters. The
--     sending loop has the number of full blocks as fuel.
--   Transfer/Server: `readFromClient` and `getMsgFromClient` on the list of what `recv` returns.
--   Transfer/Main: both main programs up to the transfer, with arguments as lists of bytes.
--   Transfer/Threads: the accept loop as a sequence of events, the variable that it shares with the
--     threads, and `freeClients`. The return of `accept`, the insertion into the map and
--     `pthread_create` are events of their own, and a waiting thread may begin between any two.
--   Decimal, Numerals, Arguments, Chunks, Saving, Delivery, EndToEnd, Races, Descriptors and Serving
--     hold the proofs: numbers, arguments, the blocks of a file, what the server saves, a whole
--     transfer, which thread reads which descriptor, and several clients.
-- One thread serves its client undisturbed in the model, from its beginning, in which it reads the
-- descriptor, on, so two threads on one descriptor are shown
-- only as far as the choice of the descriptor. `strtol` has 64 bits and `int` 32.
--
-- ex1, time measurements (ex1/osm.cpp).
--   Osm/Measure: the functions, with the readings of the clock as a parameter and the work of the
--     loops counted. The three measuring functions differ only in that work and are one definition.
--     A `double` is an exact fraction.
--   Osm/Iterations: how often the work is done.
--
-- Prelude passes on the library's names and holds lists, counting and integers over the native ℕ,
-- maps in key order, sorting, and the numbers of C as text.
--
-- A theorem about ex2 or ex3 that speaks of a call speaks of a state that satisfies the invariant of
-- its component, which the runs establish, and in ex3 of shuffles that keep the elements.
pub mod Prelude
pub mod Blockchain
pub mod CachingFs
pub mod Osm
pub mod Transfer
pub mod Uthreads
