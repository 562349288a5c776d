-- ===== src/Lib.antt =====
-- Distributed monitors over MPI: a monitor whose mutex is acquired by the algorithm of Ricart and
-- Agrawala, whose condition variables are announced to all processes, and whose shared variables
-- are sent to all processes at the end of each entry.
--
-- The parts of the program, and the files that model them:
-- - src/communication/: `Communication`. Packet has the message types and the packet with its two
--   orders (ICommunicator.h, src/util/Define.h), and the unordered and ordered sets of packets.
--   Clock has the state of `ICommunicator`, the constructor of `MpiSimpleCommunicator` and the
--   Lamport clock; its `send` and `accept` are what the callers of `MpiSimpleCommunicator` see,
--   which Exclusion, Condition and Monitor build on: `MpiOptimizedCommunicator` overwrites the
--   stamp of a packet, and Exclusion/Restamped says what comes of it. Simple and Optimized are the
--   two communicators over MPI, message by message and byte by byte; Tagged has the overloads of
--   ITaggedCommunicator.h over either. Manager is CommunicationManager.h: `subscribe`,
--   `unsubscribe`, and one round of `threadFunction`; Manager/Thread is the receiving thread from
--   `listen` to the destructor, and Manager/Sending has its sends with the lines that they log.
-- - src/algorithms/RicartAgrawalaExclusionAlgorithm.h: `Exclusion`. Algorithm has the members of
--   one object and its functions (`acquireMutex` up to its wait is `queue`). System puts n of these
--   objects side by side as a step relation: the main thread acquires and releases, the receiving
--   thread takes a packet and then handles it, and the other components send packets through the
--   same clock, each to some or all others at once. The steps follow the locks:
--   `queuedMutexesMutex` is held while a request is sent and noted, and all through a release, and
--   keeps only the handlers of requests and agreements out. Defs states the invariant, and Network,
--   Handler, Alone, Weights, Quorum, Asker, Replier and Invariant prove it; Safety, Handled,
--   Restamped, Released, Delayed and Progress draw conclusions. Settled is about runs in which no
--   program makes a call: Work weighs what is left to do, Search finds a step that is possible,
--   Registered, Served and Owned say where such runs lead.
-- - src/algorithms/DistributedConditionVariableAlgorithm.h: `Condition`. Algorithm has its
--   functions, Wait the whole of `wait` as a machine, Waiters and Laws what is proved of the
--   handlers, Notices whom the notifications reach. System puts any number of processes side by
--   side that use one condition variable inside one monitor; there the mutex is abstract, and a
--   packet stays in its channel until it is handled, which only adds orders. Protocol states what a
--   wait means between two processes, Transitions, Members, Acts, Movers, Handle, Effects, Moved
--   and Steps prove it, Subscribed and Notified draw conclusions.
-- - src/distributed/: `Monitor`. Mutex is DistributedMutex.h and DistributedConditionVariable.h
--   over the interfaces of the algorithms, Sync is DistributedMonitor.h and
--   DistributedMonitorHelper.cpp. Fresh restricts the system of Exclusion to runs in which only the
--   owner of the mutex sends a SYNC, as the end of an entry does; Fresh/Owner, Fresh/Steps and
--   Fresh/Current say what has then come to a process that owns the mutex. Memory adds the
--   variables of two processes, which entries write and SYNCs restore: CatchUp replays what is on
--   the way, Sent is what a step sends, Kept states what holds, Carried and Steps prove it, Latest
--   is what the owner of the mutex then has, and Unsaved what it has where an entry waits before it
--   saves; Calm and Still have the lemmas of both. Node is one process: the objects that a main
--   function wires together over one manager, with the callbacks that they subscribe, and
--   Node/Destroyed what is left after the destructors.
-- - src/examples/: `Examples`. Ring and Queue are the buffers, Ring/Abstract the arrays up to
--   what they hold, Entry the interface of a monitor as the entries use it, Members the other
--   members of each class, Programs the entries of the nine programs, Shared what another process
--   has after an entry. Main is the main functions: the objects, and the first rounds of the
--   endless loops.
-- - src/util/ and src/logging/Logger.cpp: `Util`, the hashes, `printContainer`, the number
--   format, and in Log the logger itself; Command is how the output of a command is captured
--   (Utils.h), and Debugger is MultiprocessDebugHelper.cpp.
-- - `Base` holds the shared names, lists, maps and sets; `Tests` the concrete inputs.
--
-- Conventions. Numbers are natural numbers with their wrap-around written out: clocks and sizes on
-- 64 bits, lengths of messages on 32, codes of message types on 8. A string is the list of its
-- bytes. The order in which a loop visits an unordered set is the order of a list. A
-- `std::runtime_error` is `none`. Locks show as the grain of the steps, and calls of the logger are
-- left out, but for those of Manager/Sending.
--
-- Bounds. The system has fewer than 2 ^ 31 processes, since ranks are of type int, and makes fewer
-- than 2 ^ 64 steps, so that no clock wraps: a clock grows by at most one with each step. `digits`
-- has 20 rounds, as a number of 64 bits has at most 20 decimal digits. The loop over the output of
-- a command has as many rounds as bytes and two more, since a read that is not the last takes a
-- byte. Memory has two processes, since the saved states of more may come in different orders.
--
-- MPI is a parameter: between two processes it keeps the order of the messages, and delivers each
-- once. The hashes of the standard library, the serializer of Boost and the shell are parameters
-- too. MPI need not report a text that is received where a header is due; in Simple that is an
-- error. Not modelled: the scheduling of threads, a send between the lock of `updateTimestamp` and
-- its last statement, the calls of the logger from other components, and the copies of other
-- libraries (ConsoleColor.h, StringConcat.h, FindBoost.cmake).
pub mod Base
pub mod Communication
pub mod Exclusion
pub mod Condition
pub mod Monitor
pub mod Examples
pub mod Util
pub mod Tests
