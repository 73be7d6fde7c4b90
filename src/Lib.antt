-- ===== src/Lib.antt =====
-- VeloxDB: a key-value server that speaks the Redis protocol. It keeps its data in a sharded
-- storage engine in memory, logs writes to an append-only file, and recovers from that file.
--
-- The parts and their files:
--   * Util models src/util: Status (status.cpp), Text and Parse (string.cpp), Decimal (what the
--     program uses of std::to_string and std::from_chars), LogLevel (the levels of logger.cpp).
--     Util.Text.Trim, Parse.Bounds and Decimal.Bounds have what the loader needs of them.
--   * Config models src/config/config.cpp: Types (the structs of include/veloxdb/config/config.h
--     with their defaults), Values (strip_quotes, remove_comment and the setters), Apply
--     (apply_kv), Loader (load_file and apply_env), Args (the command line, and load). Apply.Valid
--     and Args.Valid say which configurations come out, Loader.Lines and Loader.RoundTrip what a
--     written file loads as, Args.Options what the options do.
--   * Resp models src/protocol/resp.cpp: Types (resp.h), Encode (the encoders), Parser (parse_at,
--     parse_inline and find_crlf), Parser.State (the public methods over the buffer). Its proofs
--     are Parser.Progress, Parser.RoundTrip and Parser.Prefix.
--   * Storage models src/storage/storage_engine.cpp: Types, Time, Table (one shard's map), Held
--     (each operation while the lock of its shard is held), Sweep (the passes over one shard),
--     Engine (the public methods). Held.Live, Frame, Effect, Counter and Expiry say what an
--     operation does to what a client sees, Held.Accounting and Held.Balance follow the memory
--     counters; Engine.Shards and Engine.Passes lift this to the engine, Engine.Contract, Updates,
--     Reach and Session state it.
--   * Net models src/net/tcp_server.cpp: Connection (read_from, drain_commands and write_to),
--     Worker (the table of connections, the queue of new ones, the events of loop_epoll), Accept
--     (accept_ready and setup_listener). Connection.Drain, Pipeline, Cut, Reads and Writes say what
--     is executed and sent however the stream is cut; Worker.Poll has loop_poll; Worker.Events
--     and Storage carry the invariants of one worker, Threads the counter over the steps of all
--     workers and the acceptor, Answers follows a request to its reply;
--     Accept.Queues and Balance count what is handed out.
--   * Metrics models src/metrics/metrics.cpp.
--   * Persistence models src/persistence. Of aof.cpp: Aof (append and its write loop), Rewrite
--     (open, close, sync and rewrite) and Replay (replay_file), with Aof.Append, Rewrite.Outcome
--     and Sound, Replay.Ends and Replay.Torn as their proofs. Of snapshot.cpp: Snapshot (the
--     content that save_snapshot_file writes, and the loop of load), Manifest (its text and its
--     parser), Store (save with its files) and Recovery (load and load_for_recovery), with
--     Snapshot.Load and Entries, Manifest.RoundTrip, Store.Saved, Checkpointed and Sound, and
--     Recovery.RoundTrip. Files has what both replace.
--   * Startup models the recovery in src/main.cpp, and Startup.Recovered says what it restores.
--   * Commands models src/commands: Context (CommandContext and the shared replies), Options (the
--     options of SET, with Options.Valid), Strings, Keys and Admin (the handlers), Registry.
--     Commands.Keeps and Sound carry the invariant of the engine through every handler, Clients the
--     counter of connected clients; Registry.Each goes through the registered handlers, Logged says
--     what the file receives.
--   * Prelude has the shared helpers, and Examples runs the theorems at concrete inputs.
--
-- How they interact: a request is bytes that Parser.State.append puts into a buffer; next_command
-- takes a command from it; Registry.execute finds its handler, which calls one operation of
-- Storage.Engine and then, where it wrote, Aof.append; Resp.Encode makes the reply and the log
-- entry. Replay.replay_file reads the log with the same parser and gives each command to a
-- callback. Commands call the snapshot store and the rewrite of the file through the record
-- Checkpoints, which Commands.Sound.Persisted fills. At a start, Startup.restore loads the snapshot
-- of a manifest that matches and replays the log behind its offset through the registry.
--
-- How the state is modelled. A text is a list of bytes, and a number of int64_t an integer; size_t
-- sums are taken modulo 2 ^ 64 where the source can wrap around. Sums of times, and the product of
-- a negative or of an EXAT time by 1000, are taken in the integers, since their overflow is
-- undefined in the program. A map is an association list whose order is the unspecified order of
-- iteration. The hash of a key is a parameter. Each operation of the engine is atomic, as it is
-- under the lock of its shard, and the loops of compare_exchange are one atomic step; locks have no
-- counterpart. What an operation meets of the clock and the allocator comes as a Tick, and what a
-- handler meets as a Call. The answers of write and fsync come as Io. Files are a function from
-- paths to contents, and a replacement of a file (Replacing, RewriteCalls) comes with the answers
-- of its calls; the content behind an open descriptor is a field of Aof. lexically_normal of
-- std::filesystem is a parameter.
--
-- Bounds and fuel. The parser's depth is the levels that are left. split_words runs on the length
-- of its text. replay_loop and load_loop run on the length of the buffer and one more rounds, and a
-- command takes a byte at least. to_string runs on the number. The reader of digits and the
-- encoders recurse on their input. drain_commands runs on the length of the buffer and one more
-- rounds, for the same reason; the loops of read_from, write_to, accept_ready and loop_epoll run on
-- the answers that the system calls give.
--
-- Not modelled: the text of the help, the signals, and the start and stop of the server and of its
-- threads. In the TCP server the interest of a descriptor in writing and the wake-up pipe are left
-- out. Nor are sockets, threads and the writing of log lines, which are I/O.
pub mod Prelude
pub mod Util
pub mod Resp
pub mod Config
pub mod Storage
pub mod Metrics
pub mod Persistence
pub mod Commands
pub mod Net
pub mod Examples
pub mod Startup
