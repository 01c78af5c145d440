-- ===== src/Lib.antt =====
-- RESPlite: a server of the Redis protocol that keeps its data in SQLite.
--
-- A command comes in over RESP, the dispatcher calls the engine, and the engine reads and writes
-- the tables through one storage module for each type, with a cache of whole values in front.
-- Pub/sub and blocking pops stand beside the engine. The files follow these parts:
--
--   Base            lists, integers and JavaScript's Map: what all parts share
--   Cache           src/cache/cache.js; Cache.Lru and Cache.Sizes are src/cache/lru.js. The variables
--                   that `createLRU` closes over are a record, its methods functions on it; `size` in
--                   bytes is `estimateSize`. The limits are natural numbers. Uses and Recency are about
--                   the order of use.
--   Storage         src/storage/sqlite/schema.js and tx.js. The tables are a record; a table whose
--                   rows belong to one key is a function of the key. A transaction that throws gives
--                   the tables back as they were.
--   Storage.Keys    src/storage/sqlite/keys.js
--   Storage.Lists   src/storage/sqlite/lists.js. Each SQL statement is a function on
--                   the rows (Storage.Lists.Statements); View relates the tables to the list of
--                   values that they hold under a key.
--   Storage.Strings src/storage/sqlite/strings.js
--   Engine.Cached   src/engine/engine.js, the reads of a list from the cache
--   Engine.Strings  src/engine/engine.js, the operations on strings and on keys as a whole, over tables
--                   and cache. Coherent says what a well-formed state is, Reads what a client can see of
--                   one; Gets, Sets and Expiries are about the commands, Refines about runs of them.
--   Engine.Increments  src/engine/engine.js, `_incrBy`
--   Engine.Lists    src/engine/engine.js, the operations on lists. Listed says what tables and cache hold
--                   under a key; Reads and Ranges are about the reads, Writes about the pops. Served has the
--                   pushes, Pushes and Serves are about them and the client whose wait they end,
--                   Fifo about one push after the other.
--   Blocking        src/blocking/manager.js. A waiter is an object: the queues hold its number, and what is
--                   assigned to it is assigned in one list of all waiters. The engine's pops are an
--                   argument of Wakeups, which Engine.Lists.Served gives. Valid and Waits say what a well-formed manager
--                   is, Cancels, Wakes and Flushes are about its calls, Runs about sequences of them,
--                   Replies about what a client that is woken gets.
--   Resp            src/resp/encoder.js (Value) and src/resp/parser.js (Parser); Decimal is `parseInt` and
--                   the printing of integers, Chunks the feeding of the parser by the handler of `data` in
--                   src/server/connection.js
--   Commands.MultiPop  src/commands/multi-pop-arguments.js; `toUpperCase` is an argument
--   Commands.Lists  src/commands/lpush.js and its kin: the handlers of the list commands
--   Commands.Set    src/commands/set.js: the options of SET, and its handler
--   Commands.BlockingPops  src/commands/blpop.js and brpop.js, and the part of src/server/connection.js that
--                   registers a client that is to wait
--   PubSub.Glob     src/pubsub/match.js
--   PubSub.Broker   src/pubsub/broker.js; a context is its connectionId, and what the broker hands to the
--                   connections is a list (Messages). Agreement, Steps and Loops are about one registry,
--                   Consistent and Calls about the broker, Publishes about `publish`,
--                   Receivers about its counter.
--   PubSub.Output   src/pubsub/output.js; a socket is Node's: what it answers is an argument of each
--                   call, and what the code does to it a log
--   Tests           runs on small inputs
--
-- Bytes and UTF-16 units are natural numbers, the numbers of JavaScript are integers without bound, and
-- `Date.now()` is an argument `now`, read once for a call. JavaScript's numbers are exact up to 2^53 only:
-- a `seq`, a length and a version stay within that in anything that can be built, and a moment that `expiry_at`
-- works out stays within it for times of up to 280000 years; `_incrBy` has the rounding sum and the print of
-- numbers as arguments; `encode` is `String` for NaN and safe integers, and is no model of larger numbers. The cache's keys, base64 in the program, are the keys themselves; an engine
-- without a cache is one whose cache is off. A JavaScript string is its UTF-8 bytes, and `utf8`, an
-- argument of the parser, is what `toString('utf8')` makes of bytes, malformed ones included.
--
-- Fuel: `make_room` has one round for each entry, and each round evicts one. The matcher has one round
-- for each state of its search, (value + 1) (tokens + 1); `tokenize` has one for each
-- byte of the pattern, and `flushWakeups` one for each client in a queue and one more. The theorems show that each is enough. The parser of the protocol has one for
-- each level of nested arrays and one for each value in the buffer; as it can loop for ever on a length
-- below -1, the theorems about it name the fuel that a well-formed input wants.
--
-- Not modelled: sockets, timers and logging; the Lua interpreter, full-text search and SQLite itself,
-- whose statements are written out instead; migration from a live Redis; the tables of hashes, sets
-- and sorted sets.
pub mod Base
pub mod Blocking
pub mod Cache
pub mod Commands
pub mod Storage
pub mod Engine
pub mod PubSub
pub mod Resp
pub mod Tests
