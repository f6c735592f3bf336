-- ===== src/Lib.antt =====
-- FlashKV: an in-memory key-value store with a Redis protocol and an append-only file.
--
-- The parts. A `Database` (include/database.hpp, src/database.cpp) holds the keys. A command comes
-- as bytes, which `parseRespCommand` (src/resp.cpp) splits into arguments; a handler calls the
-- methods of `Database` and encodes a reply; a command that changed the data is appended to the
-- append-only file (src/aof.cpp), which is replayed at the next start. The server
-- (src/tcp_server.cpp) keeps an input and an output buffer for each socket. `evictIfNeeded` runs
-- before commands that write, `activeExpireCycle` from time to time.
--
-- The files.
-- Common: byte strings, lists, association lists, 64-bit words, `long long` and its decimal text, and
--   the monad `Exec` of methods that change an object and may throw.
-- Database/State: the values, `Entry`, the members of `Database`, and the private helpers `findLive`,
--   `create`, `erase`, `touch`, `setExpiry`, `clearExpiry`, `addMemory`, `removeMemory`, `valueAs`.
-- Database/Strings, Lists, Hashes, Sets, Expiry, Keyspace, Names: the public methods, under the
--   source's names (`incrementBy` is `increment_by`). Database/Glob: `globMatch`.
-- Database/Invariant: the invariant, and what the helpers do to its parts. Database/Typed: how an
--   operation on one type begins. Database/Preserves: the invariant behind each method.
--   Database/Reach: behind every sequence of calls.
-- Database/Live: the view of a key, its value and deadline. Database/Refine: the operations on one cell
--   of the abstract map from keys to values with deadlines, and `Database` as its implementation. Their
--   meaning is described without the code in Refine/Ends (lists), Sorting and Numerals.
-- Database/Eviction, Database/Cycle: `evictIfNeeded` and `activeExpireCycle`.
-- Resp/Tokenize, Resp/Parse, Resp/Encode: `tokenizeCommandLine`, `parseRespCommand`, the encoders.
--   Resp/RoundTrip: a command written and read back, on Common/Numerals, the same for numbers.
--   Resp/Total: the tokenizer ends. Resp/Bounds: the bytes that the parser takes.
-- Aof/Flush, Aof/Load: the append-only file. Aof/Durable: the bytes that it keeps. Aof/Replay: a log
--   written and loaded. Aof/Total: the loop of `load` ends. Aof/Returns: `flush` ends.
-- Database/Filled: no list, hash or set is stored empty, and what each method keeps of it.
-- Commands/Text, Processor, Keyspace, Strings, Lists, Hashes, Sets, Server, Table, Execute:
--   src/commands.cpp, under the source's names (`expireGeneric` is `expire_generic`, `type` is
--   `type_of`, `commandInfo` is `command_info`). A command is a function on `CommandProcessor`, which
--   has the database and the log in it. Commands/Runs: what every handler keeps, row by row of the
--   table. Commands/Answers: what follows for `execute`.
-- Server/Options, Server/Settings: the command line. Server/Client, Server/Events, Server/Startup: the
--   buffers of a client, the events of a socket, and the start, of src/tcp_server.cpp. Server/Input,
--   Server/Pipeline: `processInput`. Server/Delivery: `writeToClient`. Server/Order: the log before the
--   replies. Server/Sending: `writeToClient` ends. Server/Sound, Server/Returns, Server/Reach: the states
--   that the server reaches.
-- Format/Quote, Format/Reply: src/reply_format.cpp. Format/RoundTrip: a quoted text read back.
--   Format/Total: `formatReply` ends.
-- The modules called Tests apply the theorems at small inputs.
--
-- How the state is written. A `Node*` is the key of its node, since std::unordered_map keeps one
-- node for each key and does not move it; an iterator into the recency list is the key's place
-- there. An unordered container is an association list or a list without repetitions, and no result
-- depends on its order: KEYS, HGETALL and SMEMBERS sort. std::size_t is a number below 2^64 with
-- `%` written out where the memory is counted. `long long` is ℤ with its range tested where the
-- source tests for an overflow. `char` is signed, and matters in Glob only. The clock, the random
-- engine, the time budget of the expire cycle, and the answers of `write`, `fsync`, `open` and
-- `truncate` are parameters; the state counts the readings of the clock and the draws. The error
-- `undefined` marks `front()` of an empty list, and an argument read past the end. std::toupper and
-- std::tolower are those of the "C" locale, and std::stoll is written out as documented. What
-- `recv` and `send` answer is a parameter, and `send` takes no more than it is offered; the bytes
-- that the peer was sent stand beside its client, and so does the log as it was at each call of
-- `writeToClient`. An operation that waits for an answer, and the end of the fuel, are results of
-- their own.
--
-- Fuel. `evict_loop` has one unit for each key of the recency list, and each round takes one off;
-- `cycle_loop` has one for each key with a deadline, and one more, and each further round has
-- removed one; `class_loop` one for each byte, `glob_loop` the square of the lengths, `scan_loop`
-- three for each byte, `load_loop` one for each byte of the file, `process_loop` one for each byte
-- of the input and one, `format` one for each byte of the reply.
--
-- Where the model is wider than the code. Differences and sums of times in `ttlMs`, `ttl` and
-- `inspect` are integers without a bound: a signed overflow there, which needs a clock far from the
-- present (below 500 ms in `ttl`, below 0 in the others) and a deadline near the end of `long
-- long`, is not marked as undefined. The cast of the number of arguments to `int` in `execute` is
-- left out: the parser allows 1048576 of them.
--
-- Not modelled: the set-up of sockets, the choice of the events that `poll` waits for, the times of
-- the periodic work, and the usage text (src/tcp_server.cpp), the terminal (src/main.cpp), the
-- browser binding (web/flashkv_wasm.cpp) and the benchmark.
pub mod Common
pub mod Database
pub mod Resp
pub mod Aof
pub mod Commands
pub mod Server
pub mod Format
