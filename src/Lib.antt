-- ===== src/Lib.antt =====
-- minifind: a model of the parallel find(1) of this repository, and what it does correctly.
--
-- The program parses its arguments (src/args.rs), walks the given directories on several threads
-- (src/walk.rs over the leaf operations of src/walk/unix.rs or src/walk/fallback.rs), filters
-- each entry by type (src/filetype.rs), name patterns and metadata (src/meta.rs), and hands what
-- is left to one thread that writes it (src/lib.rs).
--
-- Base holds the shared helpers: Boolean tests, lists, the integers (an i64 is a ℤ with the
-- predicate IsI64, its wrap-around written out), bits of masks, result values (Base/Errors), and
-- texts as lists of code points with Rust's parsing of numbers (Base/Text) and its round trips.
--
-- Meta models src/meta.rs. Meta/Compare is `Comparison` (`parse`, `matches`, `matches_u64`),
-- Meta/Size `SizePred`, Meta/Time `TimePred` and `NewerPred`, Meta/Fields and Meta/Mask the
-- record `Meta` and the field masks, Meta/Symbolic `parse_symbolic_mode`, Meta/Perm `PermPred`
-- and `parse_mode`, Meta/Predicates `IdPred` and `Predicates`, and Meta/Nss the lookups of users
-- and groups and `NssCache`. The child modules Laws and Cache prove what the result list below
-- says. The loops of the lookups double a buffer on ERANGE, and run on fuel: a theorem gives the
-- rounds that suffice. The libc functions, the clock and the file system are arguments.
--
-- FileType models src/filetype.rs: `FileType::new`, `ignore_filetype` and `is_empty`, with what
-- the emptiness check asks of the file system as the record Probe.
--
-- Args models src/args.rs. Args/Types has the records `Args`, `FileType` and `Outcome`,
-- Args/Spellings the rewriting of find's words at the start of `parse_inner`, Args/Options the
-- options with their names, Args/Values `parse_file_type`, `parse_threads`, `parse_paths` and
-- `default_threads`, and Args/Parse the loop of `parse_inner` with its arms and the checks after
-- it. The crate lexopt is the record Lexer and the system the record Env. The loop runs on fuel;
-- the fuel that suffices is one more than the measure of what lexopt has left.
--
-- Walk models src/walk.rs. Walk has its data, and the record Platform: the leaf operations, on a
-- file system that does not change during a walk. Walk/Process is `process` and `descend` with
-- the closure given to `for_each_entry`, on a state with the visitor's own state, the flag
-- `quit`, the counter `pending` and the worker's deque. Walk/Process/Actions says the same as a
-- list of actions, entries to emit and tasks to enqueue; its children Spawned and OneDevice are
-- about the tasks enqueued. Walk/System is `walk_parallel` and `run_worker` as a step relation:
-- each worker's position, the counter, the flag, and the tasks of the injector and all deques
-- (crossbeam_deque) as one bag from which a worker takes any task; each push, take, load, store
-- and update is a step of its own, and whether a visit quits is left open. Walk/System/Count is
-- about the counter, Walk/System/Once about the entries visited, Walk/System/Finite about the end
-- of the sequential walk, Walk/System/Load about the moves that the workers make, with Load/Stops
-- and Load/Ends about how they stop, and Walk/System/OneDevice about `--one-filesystem`. The
-- sequential walk is a finite derivation, and has no fuel.
--
-- Walk/Unix models src/walk/unix.rs: Walk/Unix/Sys has the calls of rustix as the record Calls,
-- Walk/Unix/Leaf the operations, and its children what they give to Walk: Open fills the record
-- Platform with them, Listing and Metadata are about the listing of directories and `statx`.
-- Walk/Fallback models src/walk/fallback.rs over the record Std, and fills Platform too.
-- Walk/Reads is the loop of `for_each_entry` that both have.
--
-- Limiter models src/ratelimit.rs over the record World: the bucket of governor, the clock, the
-- flag and the sleep. `acquire` runs on fuel, and one turn for each 100 ms that the bucket keeps
-- the caller waiting, and one more, are enough. How long the calls take, and how much longer than
-- asked a sleep lasts, is left open.
--
-- Pipeline models src/lib.rs. Pipeline/Batch is `BatchSender` over a channel that is a parameter,
-- Pipeline/Output the output thread of `run`, Pipeline/Patterns the sets of src/glob.rs and
-- src/regex.rs over globset and regex, Pipeline/Visitor the filters that `run` compiles and the
-- visitor that each worker runs on an entry, which uses Meta, FileType, Walk and Pipeline/Batch,
-- and Pipeline/Worker the whole run of a worker's visitor and the order in which batches arrive,
-- with Whole and Partial on what that order leaves of the output.
--
-- Interrupt models src/interrupt.rs, Run the beginning of `run` in src/lib.rs, up to the start of
-- the threads, and Run/Main src/main.rs with `Args::parse`, as the list of its effects.
--
-- Run/Threads is the rest of `run`: a step relation on one state with the workers and their
-- visitors, the channel, the output thread, the main thread and the shutdown flag. A worker's
-- moves are those of Walk/System; at a visit the visitor of Pipeline/Visitor runs, sends over the
-- shared channel, and decides whether the walk quits; the output thread runs the loop of
-- Pipeline/Output on a batch; a send waits until the channel accepts it, and the main thread for
-- the workers and then for the output thread. A visit is one step, at the time of its send, and
-- may have read the shutdown flag before a signal. The channel of crossbeam is the record Channel
-- of Run/Channel, with what its documentation says as the record IsChannel; when a full channel
-- makes a send wait is for Channel to say. Run/Threads/Follows relates the threads to
-- Walk/System, Run/Threads/Sends and Run/Threads/Tally account for every entry,
-- Run/Threads/Prints is about the output (Run/Threads/Plans has what the threads are given),
-- Run/Threads/Settle and Run/Threads/Returns about the end, and Run/Threads/Growth,
-- Run/Threads/Roster, Run/Threads/Spare and Run/Threads/Overrun about what is done after the
-- receiver has gone.
--
-- Sched models src/sched.rs and `raise_nofile_limit`: system calls whose failures do not matter
-- to the walk.
--
-- Tests has runs of the definitions at concrete inputs.
--
-- Not modelled are `reset_sigpipe`, the flush of the sink and its failures, the texts of messages
-- and of the help, the switch that forces the fallback of `open_child` in tests, benchmarks and
-- tests. The release profile on a 64-bit machine is assumed: arithmetic wraps without a check,
-- also `threads - 1` where threads is 0, which the parser of arguments excludes. Orderings of
-- atomic operations weaker than a sequence of steps are not modelled, and a file system that
-- changes during the walk is not.
pub mod Base
pub mod Meta
pub mod Args
pub mod FileType
pub mod Walk
pub mod Limiter
pub mod Pipeline
pub mod Interrupt
pub mod Sched
pub mod Run
mod Tests
