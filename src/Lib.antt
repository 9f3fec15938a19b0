-- ===== src/Lib.antt =====
-- Ember, a key-value store that speaks the Redis protocol. A connection (src/config/client.rs)
-- reads bytes into a buffer, parses them as RESP values (src/resp/parser.rs), reads a value as a
-- command (src/command/command.rs), dispatches it (src/command/dispatcher.rs) to the shared store
-- (src/database/core.rs), and writes the reply (src/resp/types.rs). Expired keys are dropped when
-- they are read, and by a background cycle. A snapshot of the store is written to a file and
-- loaded at the start (src/rdb). The server (src/server.rs) looks for a free port and spawns a
-- task for each processor that accepts connections, and one for each connection.
--
-- The files, and the code that each models:
--   Prelude     names of the libraries that are passed on, tests on numbers, lists with native
--               lengths, `Result` with the outcomes of Rust code, integers
--   Text        `String` as UTF-8 bytes, and what is used of the standard library: UTF-8 validation,
--               `to_ascii_uppercase`, `split_whitespace`, `trim`, `parse` and `Display` of numbers
--   Word        `i32` arithmetic that wraps or panics, and casts
--   Resp/Types  src/resp/types.rs: `RespType`, `to_string`, `to_bytes`, `write_to`
--   Resp/Parser src/resp/parser.rs: `Parser::parse` and its helpers, under their names
--   Database    src/database/core.rs: Object is `RedisObject`, Core the methods of `DB`, Map what is
--               used of the crate `DashMap`
--   Command     src/command/command.rs and src/utils/mod.rs: `Command`, `extract_command`
--   Dispatcher  src/command/dispatcher.rs and the `Client` of src/config/client.rs: `dispatch`,
--               `execute_command`
--   Rdb         src/rdb: Writer is what `save_rdb` writes, Reader is `parse` on the bytes of a file;
--               Writer/Encode states the format
--   Rdb/File    `save_rdb` and `load_rdb` over the calls of std::fs; Rdb/File/Contract states what the
--               documentation of those says
--   Snapshot    `DB::new` and `DB::save_rdb` of src/database/core.rs
--   Database/Steps  the methods but `lrange`, and the cycle at a key, as the single calls of the maps,
--               which the steps of other tasks come between
--   Connection  src/config/client.rs: `Client::handle`, both of its loops, under the names of what each
--               part deals with; Connection/Requests states what a peer sees
--   Server      src/server.rs and `main`: the choice of the port, the listeners, the acceptors
--   Start       src/main.rs: `parse_args`
--   Tests       runs at concrete inputs, and instances of the theorems
--
-- State and effects. A function that can fail returns `Result`: `err` is an `Err`, `panic` an
-- unwinding panic (an index or a slice out of bounds, a checked overflow, a capacity that is not
-- granted), and `out_of_fuel` no outcome of the program. A method of `DB` takes the store and
-- returns its result with the store that it leaves; a `Session` is a connection's client, the
-- store, and the snapshots that were handed to background tasks. The time is an argument, in
-- nanoseconds. A debug build checks overflow and a release build wraps around: the flag `checks`,
-- or the `Build` of the parser, says which.
--
-- Parameters. `DashMap` is a record of operations with laws from its documentation, and an
-- association list satisfies them. `itoa` is a function that prints as `Display` does.
-- `AsyncWrite` is any writer; one that cannot tell how its input is cut into writes is an
-- `IsStream`. The random numbers of the cycle are a function.
--
-- `FileSystem` and `Sockets` are the calls of std::fs and of socket2 and tokio on a disk and on
-- the system's sockets; `IsFileSystem` and `IsHealthy` say what is asked of them. Under
-- `IsFileSystem` every call that changes the disk may fail, and a write may fail or not as the
-- bytes before it were cut; Tests/Disk is a disk that can be full, under a writer with a buffer.
-- The `Environment` of a connection gives the writer, the times, and what the other tasks do to
-- the store between two of its requests; what its reads come to is a list. A connection counts its
-- requests, and its passes over the buffer, which tells a loop that turns from a task that waits.
--
-- Fuel. `parse` has one unit more than the buffer has bytes, since a nested value is read from a
-- shorter rest. `execute_command` has two units: one for `EXEC`, one for the commands that it
-- executes, of which none is an `EXEC`. A pass over a connection's buffer has one unit more than
-- there are bytes in it, since a request has at least one. The search for a port has 2^16, the
-- number of ports. The cycle of the active expiration needs one unit more than there are
-- expirations, since a round that is followed by another has removed one. The reader of a snapshot
-- has one unit more than there are bytes behind the header, since each round reads a byte.
--
-- Not modelled: memory that runs out, where an allocation that is refused aborts the process (the
-- model has a panic for a capacity that `Vec::with_capacity` is not granted), and the stack, which
-- `parse` uses without a bound on values nested in one another; the logger and the runtime; the
-- capacity of a connection's buffer, which a read extends; an error of a read in the middle of a
-- snapshot file, which the reader takes for its end; the order in which the disk keeps the writes
-- of a machine that loses its power; `lrange` as interleaved steps; and the wait of `run` for its
-- acceptors, which never end.
pub mod Prelude
pub mod Text
pub mod Word
pub mod Resp
pub mod Database
pub mod Command
pub mod Dispatcher
pub mod Connection
pub mod Snapshot
pub mod Server
pub mod Rdb
pub mod Start
mod Tests
