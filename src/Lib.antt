-- ===== src/Lib.antt =====
-- EventStreamCore: a TCP server takes framed messages from its clients, makes events of them, and
-- queues them for a dispatcher, which routes each to one of three queues of a bus; a processor takes
-- the events from the bus by priority and stores them in a file.
--
-- The parts, in the order in which an event passes through them:
-- * Parser (include/ingest/tcp_parser.hpp, src/ingest/tcp_parser.cpp): `parse_tcp_frame` is
--   `parseTCPFrame`, `parse_frame` is `parseFrame`. A vector of bytes is a list of numbers, an
--   exception is a value of `ParseError`, and a read outside the vector, undefined in the source, is
--   the error `out_of_bounds`. `make_frame` is the client's encoder in test.py.
-- * Event (include/event/Event.hpp), Event/Crc32 and Event/Factory (src/event/EventFactory.cpp): the
--   data, `calculateCRC32` and `createEvent`. The shared counter is passed in and returned, the
--   reading of the clock is an argument.
-- * Server (src/ingest/tcpingest_server.cpp): `handleClient`, the thread of one connection. What
--   `recv` returns is a list of chunks of bytes; `drain` is its inner loop.
-- * Dispatcher (include/event/Dispatcher.hpp, src/event/Dispatcher.cpp): the inbound queue, `Route`,
--   the retry loop and `DispatchLoop`.
-- * TopicTable (include/event/Topic_table.hpp, src/event/Topic_table.cpp): the table of topics that
--   `Route` asks, and `LoadFileConfig`, byte by byte. TopicTable/Reads says which lines
--   of a file are entries.
-- * EventBusMulti (include/event/EventBusMulti.hpp, src/event/EventBusMulti.cpp): three bounded queues,
--   written by the dispatcher and read by the processor.
-- * Processor (include/eventprocessor, src/event_processor/realtime_processor.cpp): `processLoop`,
--   with and without a pool of workers.
-- * Storage (include/storage_engine/storage_engine.hpp, src/storage_engine/storage_engine.cpp): the
--   constructor and `storeEvent`, the blocks that it writes one by one.
-- * ThreadPool (include/utils/thread_pool.hpp, src/utils/thread_pool.cpp): the workers that run the
--   processor's tasks, as a list of stretches in which one thread runs alone. ThreadPool/Waits has the
--   mutex and the condition variable as steps, and `View` says which stretch a step is.
-- * Config (include/config/AppConfig.hpp, src/config/ConfigLoader.cpp): `loadConfig`, a chain of results
--   on the nodes of the YAML library.
-- * Listening (include/ingest/tcpingest_server.hpp, src/ingest/tcpingest_server.cpp): `start`, `stop`,
--   `acceptConnections`, and the descriptors that are opened and closed.
-- * System (src/app/main.cpp, with the loops of src/event/Dispatcher.cpp,
--   src/event_processor/realtime_processor.cpp and src/utils/thread_pool.cpp): the threads that run at
--   the same time, one step each at a time, on the queues that they share.
-- * Main (src/app/main.cpp): what is built from the configuration, and which errors end the program.
-- * Lifetime (src/app/main.cpp): the end of the program, as steps of `main` that run one destructor after
--   the other while the threads of System go on, and which objects each thread touches.
-- * UnitTests (unittest): the tests as runs of the other parts, and whether what they expect holds.
-- * Benchmark (src/benchmark/benchmark.cpp): `TCPLoadGenerator`, a client of the server,
--   `StorageBenchmark`, writers on one storage, and the options of its `main`.
-- * EventBus (include/event/EventBus.hpp, src/event/EventBus.cpp): callbacks on events, which no other
--   part uses.
-- * Prelude has the numbers, lists, bytes and results that the parts share.
-- Each part has a module of definitions, child modules named for what they prove, and `Tests`.
--
-- Threads: an operation that the source runs under a mutex is one step of the model; only in
-- ThreadPool/Waits the mutex is a part of the state, and who holds it. A loop is a
-- function of the turns that it makes, and what other threads do meanwhile is an argument of it: calls
-- in a list, or a function on the shared state. In System the threads stand side by side, and a
-- schedule is a list that says whose step is next. So the theorems hold for every interleaving that
-- the arguments can express, and say so where they ask for no interference.
--
-- Integers: a number of w bits is a natural number, and its wrap-around is written out as `% 2 ^ w`.
--
-- Fuel: `drain` has as much fuel as the buffer has bytes, and each of its turns takes at least four.
-- The loops of the threads run for the turns that they are given. Six rounds for each worker are enough
-- for `shutdown`, since a worker has at most six steps before its end once the flag is down.
--
-- Parameters: `Storage.Device` is the C++ stream library and the disk, with what the code relies on: a
-- block accepted is at the end of the file, and what is in the file stays there. `Config.Load.Yaml` is
-- the YAML library: subscripts, the test of a node, conversions. What the callbacks of `EventBus` do,
-- the clock, the counter as other threads move it, the bytes received and the time-outs are arguments.
-- So is what `socket`, `bind`, `listen` (`Listening.Network`) and `accept` return, and for the load
-- generator `send` and `std::to_string` (`Benchmark.Network`), for the writers of the benchmark what the
-- clock reads, and for the figures of its result `std::sort`. The files that the unit tests read are an
-- argument too.
--
-- Not modelled: logging, the socket library behind what its calls return, the start of threads, what
-- wakes a thread that waits at the queue of the dispatcher, the times
-- and rates of the benchmark, which are floating point, and what it prints, the code that is commented
-- out in the benchmark and the unit tests, and the client of test.py behind the frame that it builds.
mod Prelude
pub mod Event
pub mod Parser
pub mod EventBusMulti
pub mod TopicTable
pub mod Dispatcher
pub mod Storage
pub mod Server
pub mod Processor
pub mod ThreadPool
pub mod Config
pub mod EventBus
pub mod System
pub mod Main
pub mod Listening
pub mod Benchmark
pub mod Lifetime
pub mod UnitTests
