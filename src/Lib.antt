-- ===== src/Lib.antt =====
-- Afina, a memcached-like server in C++ (Multithreading C++/afina): its storage, its commands,
-- its protocol parser, its four servers, the thread pool, the coroutine engine, logging and start-up.
--
-- A client's bytes go through the parser, which finds the end of a command line and builds a command.
-- The command runs against the storage and gives the text of the reply. The storage is a cache of
-- bounded size: a doubly linked list of nodes with an index, the last used node in front, from whose
-- tail nodes are evicted.
--
-- Parts. Paths, here and in the other files, are below Multithreading C++/afina.
--   Prelude      names of the libraries, Boolean tests on numbers, bytes, integers
--   Run          runs of imperative code: a value and a state, a fault, or fuel that is used up
--   Storage/Spec the specification of the cache over a list of entries, the last used first
--   Storage/Lru  src/storage/SimpleLRU.h and SimpleLRU.cpp: `put` is Put, `put_in_head` is PutInHead,
--                `move_to_head` is MoveToHead, and so on, over the heap of Storage/Lru/Memory;
--                `overwrite` is the second half of Put and of Set, `evict` their loop, and
--                `teardown` is the destructor. The modules below it hold the proofs, one for each
--                operation or for what they share.
--   Storage/Api  include/afina/Storage.h as a record of operations, with the specification and the
--                cache as two instances; Storage/Simulation relates them
--   Execute      src/execute and include/afina/execute: a constructor for each command class,
--                `execute` for the virtual method; Execute/Reply holds the proofs
--   Protocol/Parser
--                src/protocol/Parser.h and Parser.cpp: `step` is a round of the loop in Parse, with a
--                function for each state; Stream, Progress, Fields and Lines hold the
--                proofs
--   Network/Connection
--                src/network/st_nonblocking/Connection.h and Connection.cpp: `do_read` is DoRead,
--                `process` its inner loop, `round` the body of that; Network/Connection/Write holds
--                DoWrite and its proof, Network/Connection/Loop and Drain the proofs on DoRead,
--                Request and SetRequest those on a whole request, and Pieces those on requests that
--                come in several reads
--   Network/Blocking
--                src/network/st_blocking and mt_blocking/ServerImpl.cpp: OnRun and ProcessConnection
--   Network/Events
--                src/network/st_nonblocking/ServerImpl.cpp: `wake_up` is a round of OnRun, `handle`
--                one event, `sweep` the loop over the connections behind the events
--   Network/Multi
--                src/network/mt_nonblocking/Connection.cpp and Worker.cpp: the connection with its
--                mutex, and `work`, what a worker does with an event
--   Network/Worker
--                src/network/mt_nonblocking/Worker.cpp: OnRun of a worker
--   Network/Workers
--                src/network/mt_nonblocking: who has a connection, as steps of acceptors and workers; `finish`
--                with a refusal and `forget` are the two parts of DeleteConnection
--   Network/Acceptors
--                src/network/mt_nonblocking/ServerImpl.cpp: OnRun of an acceptor
--   Network/Listen
--                Start of the four servers: the calls that open descriptors and what they return
--   Logging      include/afina/logging/Config.h and src/logging/ServiceImpl.cpp: Logging/Start is
--                Start, Logging/Select `select`, Logging/Pattern the pattern in `create`, and
--                Logging/Reopen is reopen_all
--   Application  src/main.cpp: the options, the order in which the parts start and stop, and `main`
--   Executor     include/afina/concurrency/Executor.h and src/concurrency/Executor.cpp: `execute` is
--                Execute, `take_turn` and `come_back` are the critical sections of perform, `Step`
--                is what one thread does under the mutex; Executor/Invariant, Executor/Turns,
--                Executor/Runs and Executor/Stops hold the proofs
--   Coroutine    include/afina/coroutine/Engine.h and src/coroutine/Engine.cpp: `store` is Store, `enter`
--                Enter, and so on; `finish` is the part of run behind the coroutine's function, and
--                `resume_idle` the part of start behind its setjmp. The modules below Engine hold the
--                proofs.
--   Tests        runs and instances at concrete inputs
--
-- A state of the cache is the record of its fields with a heap from addresses to nodes; 0 is the null
-- pointer. A read or write through a null or dangling pointer is a fault. Dropping a unique_ptr frees
-- the nodes behind it. Allocation takes addresses in order and does not fail. The index is an
-- association list. A `size_t` is a number below 2^64 with the wrap-around written out, so also the
-- comparison of a signed with an unsigned number. The capacity is below 2^63 where that comparison
-- matters. An exception of the parser is a result, and the overflow of a signed integer is undefined.
--
-- Fuel. The eviction loop has one round for every address ever given, and one more; a round removes
-- a node, so this is enough; the loop of the destructor has as many. Dropping a chain of nodes has
-- as much. The digits of a number have the number itself. Parse is recursion on its input. The
-- inner loop of DoRead has one round for every byte in the buffer, and one more, which is enough
-- since a round takes a byte at least. The socket is an argument: the byte strings that read
-- returns, of which the code relies on that they fit into its buffer, and what writev returns. A
-- name has a round of `select` for every character, and one more, since a round cuts the name. A
-- pattern is compiled in one round for a character, or fewer. The search of reopen_all has one
-- round for every sink in the queue at the start and for every one inside of a sink, since a sink
-- is opened once.
--
-- Threads. A worker of the multithreaded non-blocking server has its connection to itself, since epoll
-- reports it once; the mutex is a flag, and locking it twice is a fault. What other threads do to
-- the clients and to the pool between the steps of an acceptor is an argument; between the steps of a
-- worker they leave its connections as they are. ThreadSafeSimpleLRU.h locks a mutex around every
-- operation of the cache and is not modelled.
--
-- Coroutines. The stack is a function from addresses to bytes. The addresses of the local variables
-- in Store and Restore depend on the state in a way that the machine gives. Store writes over the
-- frames of the functions that have called it, so these go on only where nothing is on the stack:
-- `save` is Store with what becomes of its callers. Restore calls itself once for every address below the stack's end at
-- most, and has one more for fuel.
--
-- Libraries. The registry and the sinks of spdlog are a record of operations with the laws that its
-- documentation gives. The calls of the system are arguments: what they return.
--
-- Not modelled: the saved registers of a coroutine; the allocator has no bodies, and Delete.h declares a
-- command with no implementation. The lectures' examples in materials are not linked into the program.
-- The traces that the commands print are left out, and so is the copy of a byte above 127 into the
-- text of an exception.
pub mod Prelude
pub mod Run
pub mod Storage
pub mod Execute
pub mod Protocol
pub mod Network
pub mod Executor
pub mod Coroutine
pub mod Logging
pub mod Application
mod Tests
