-- ===== src/Lib.antt =====
-- The wire layer of the Aerospike client for Rust: what the client sends for a command on one
-- record, how its operations and filters are built, and how values are packed and unpacked.
--
-- The parts and how they interact. A command (`set_write` and its like, src/commands/buffer.rs)
-- makes two passes over its key, filter and bins: the first, `estimate_*`, only moves the offset
-- of the buffer; then the buffer is resized once; then the header, the fields and the operations
-- are written, and `end` puts the size word before them. Values (src/value.rs) size and write
-- themselves; lists and maps go through the MessagePack packers (src/msgpack/encoder.rs), which
-- run without a buffer to count and with one to write. The answers' lists and maps are read by
-- src/msgpack/decoder.rs.
--
-- The files. Base has what all share. Outcome is the result of fallible code: a value, an error, a
-- panic of the source, or the model's exhausted fuel; stateful code is a function from the buffer
-- to an outcome, composed by do blocks in the order of the source. Buffer models
-- src/commands/buffer.rs from `new` to `end` (Sizing) and its reads and writes; Building and
-- Parsing describe sequences of them by the bytes they put or take. Value models src/value.rs
-- (Convert: conversions and hash map keys; Wire: sizes and payloads; Particle: reading a bin;
-- Restored: reading what was written). Msgpack models src/msgpack/ (Encoder, Cdt, Decoder); Format
-- is the reference encoding, Packed compares the packers with it, Canonical says what the decoder
-- makes of it, and RoundTrip compares the two. Operations models the types of src/operations/ and,
-- in Whole, an operation's size and bytes; its other children are the builders of operations by
-- family (Lists and ListQueries the two halves of lists.rs, Maps and MapQueries those of maps.rs),
-- with their codes in ListTypes, MapTypes, BitTypes and HllTypes, and Built is what they promise.
-- Expressions models src/expressions/: Filter the type, Packing `pack`, Tree the wire form of a
-- filter as a tree of arrays, WellFormed the filters that have one, Packed the comparison, Values,
-- Operators and the families the builders, and Made what they promise; Filters gives these filters
-- to the commands. Key models src/key.rs, Policy the types of src/policy/ and of src/bin.rs.
-- Commands models the type codes and the commands: Sizes and Fields are the two passes' parts,
-- Header the two header writers, Requests, Operate, Batch, Scan and Query the commands, Timeout
-- `write_timeout`, SingleCommand the loop that sends a command (Retried, Reached: its end); Built
-- compares the commands with the wire format of Built.Layout, whose flags are in Built.Flags and
-- Built.Attributes. Query models the statements of
-- src/query/, and Commands.Batch the reads of src/batch/batch_read.rs.
-- Net models a queue of src/net/connection_pool.rs (PoolRun: its calls in any order; PoolQueues,
-- PoolRound: the pool). Tests runs the theorems on concrete inputs.
--
-- Parameters. The crate `byteorder` is the interface Buffer.Endian, `ripemd160` is Key.Ripemd160,
-- and what the standard library prints for floats, lists and maps is Value.Display.Formatting. The
-- commands take filter expressions, of which they only call `pack`, by the interface Expressions.
-- What a call of the pool learns of the sockets and the clock is a Net.ConnectionPool.World.
--
-- Numbers. Machine words are natural numbers with their wrap-around written out; signed ones are
-- integers; floats are their bit patterns, as in the source. An arithmetic overflow that a debug
-- build checks is a panic. Strings are lists of bytes. A hash map is the list of its entries in
-- the order in which it is iterated.
--
-- Fuel. The loop of a single command (Commands.SingleCommand) needs two turns more than the
-- retries that its policy allows; without a limit it has no bound. `unpack_value` recurs on fuel;
-- its callers give it the length of the buffer, and every nested value stands behind a byte of its
-- own.
--
-- Not modelled: the vector's capacity (only its length is kept), the state behind an error, and of
-- the repository the cluster, the sockets, the threads, the parsing of answers, the
-- defaults of the policies, and the user-facing client.
pub mod Base
pub mod Outcome
pub mod Buffer
pub mod Value
pub mod Query
pub mod Commands
pub mod Msgpack
pub mod Operations
pub mod Key
pub mod Expressions
pub mod Policy
pub mod Net
mod Tests
