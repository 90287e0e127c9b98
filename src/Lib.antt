-- ===== src/Lib.antt =====
-- A model of SyLog, a logging library in C++, and of what makes it correct.
--
-- A `Logger` asks the `Pipeline` whether a severity is enabled, makes an event and submits it.
-- The pipeline finds in its endpoint cache the mask of the routes that may take an event of the
-- endpoint, applies the global filters, and then either writes on the calling thread or gives
-- the event to the `SinkCrossbar`. The crossbar has a lane for each route: a bounded queue and
-- a worker that filters again, renders and writes to the route's sink. A full lane drops the
-- event or makes the caller wait, by the route's delivery strategy.
--
-- Files:
--   Event, Severity, Config: include/sylog/event.hpp, severity.hpp and `Config` of logger.hpp.
--   Filter: the filters of logger.hpp and src/logger.cpp; Filter/Prefix is about prefixes.
--   Workers: the operations of the third-party `Workers::Queue::BlockingQueue`, a parameter of the
--     model, with the laws that SyLog relies on.
--   Queue: src/async/workers_event_queue.{hpp,cpp}; Queue/Laws has what each call does.
--     Queue/Threads has the same calls as atomic steps of threads that interleave.
--   Route: `Route`, include/sylog/delivery.hpp, src/delivery.cpp, and what a route writes.
--   Crossbar: src/async/sink_crossbar.{hpp,cpp}; Crossbar/Worker and Crossbar/Stopping are about
--     `lane_loop_` and `stop_lanes_`, Crossbar/Submit about `submit`. Crossbar/Threads has a lane
--     with its producers, its worker and its stop as atomic steps that interleave.
--   Pipeline: `Pipeline` of src/logger.cpp; Pipeline/Cache has `compute_cache_entry_` and
--     `cached_route_mask_`. Pipeline/Invariant has the invariant `IsSound`: the cache is current or
--     marked for clearing, lane by lane the crossbar serves the configured routes, each lane's
--     counter is right and its queue open, and a worker is there exactly while the pipeline runs.
--     Pipeline/Cache/Threads has `cached_route_mask_` as atomic steps of threads, with changes of
--     the routes in between.
--     Pipeline/Cache/Unordered has the cache as an unordered map, a quotient that forgets order.
--     Pipeline/Overlap has calls of `add_route` and `clear_routes` that overlap.
--     Pipeline/Reach has the pipelines that calls and workers bring about, one step after another;
--     Pipeline/Delivery has a lane with submissions and turns in any order;
--     Pipeline/Synchronous, Closing and Equivalence compare what is written on the two ways.
--   Logger: `Logger` of include/sylog/logger.hpp.
--   Host: what is taken from the platform and from `std::format`.
--   Render: src/renderers. Render/Replace has the loop that replaces a token, Render/Pattern
--     `PatternRenderer` and `AnsiConsoleRenderer`, with a pattern that is read once in
--     Pattern/Template. Render/Json has `JsonRenderer`; Json/Document has the object that a record
--     stands for, how it is printed and how it is read, and the grammar of its numbers.
--   Bench: benchmarks/sylog_bench.cpp; Bench/Options has the command line, Bench/Samples the latency
--     samples and their percentiles, Bench/Run the scenarios, their set-up and their producers, Bench/Report
--     what is printed.
--   Sink: include/sylog/sink.hpp, src/sinks/console_sink.cpp and src/sinks/file_sink.cpp.
--   Examples: examples/*.cpp; Examples/Written has what basic.cpp writes.
--   Sylogctl: tools/sylogctl.cpp.
--   Tests: a queue that obeys the laws, small pipelines, and runs on them.
--
-- State and calls: a component's state is a record, a call a function from the state to the
-- new one, with what others see of the call as values: `Output` for a call of a sink, `Effect`
-- for the pipeline. Outside the modules Queue/Threads, Crossbar/Threads,
-- Pipeline/Cache/Threads and Pipeline/Overlap, calls do not overlap. A caller that has to wait
-- for space has the result `waiting`, and a woken caller is another call; a worker works when
-- it is stopped or given a turn. Lanes run side by side, so what they write is one list for
-- each lane. Sinks are numbers, for the identity of their objects; a user's filter, renderer
-- or strategy is a function.
--
-- Bounds: sizes are `std::size_t`, reduced modulo 2 ^ 64 where the source adds or subtracts;
-- the masks have 64 bits and the loops over them end at index 64. The loops of a worker have
-- one round more than the queue's counter says, which is enough since each round takes an
-- event. Decimal digits have `n + 1` rounds for the number `n`. The replacing loop has one
-- round more than the text is long, and the reader of JSON as many as its text is long, which
-- is enough since each round takes a byte.
--
-- Not modelled: the interleaving of the atomic steps within a call, but for those of the event
-- queue, of a lane, of the endpoint cache and of changes of the routes; memory orders weaker
-- than sequential consistency; exceptions; the export macros; of the benchmark, the clocks and
-- the threads that log. The third-party argtree is an argument, as what it makes of a command line;
-- doubles are their 64-bit patterns, with `std::format` of them, their order and their products
-- as parameters. A file that is open takes every byte. A class that a user derives from
-- `SeverityFilter` or `EndpointFilter`, which the casts of `compute_cache_entry_` would take for
-- its base, is not represented.
mod Prelude
pub mod Event
pub mod Severity
pub mod Filter
pub mod Workers
pub mod Queue
pub mod Config
pub mod Route
pub mod Crossbar
pub mod Host
pub mod Render
pub mod Sink
pub mod Pipeline
pub mod Logger
pub mod Bench
pub mod Examples
mod Tests
pub mod Sylogctl
