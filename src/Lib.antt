-- ===== src/Lib.antt =====
-- The executor of GenVM, a virtual machine for contracts in WebAssembly: models of its own logic,
-- and what is proved of them. Values travel as calldata, memory is charged to limiters, and what
-- a contract does is charged to fee buckets.
--
-- Calldata (executor/crates/calldata/src): Calldata/Value has the values of types.rs and the tags
--   of consts.rs; Calldata/Text what is used of the standard library's text (from_utf8, the order
--   of str); Calldata/Encoder the Writer trait and the Encoder of encoder.rs; Calldata/Encode the
--   walk `encode_to` and Calldata/Decode the Parser and `decode` of bin.rs, function by function,
--   with the stacks that the code keeps in place of recursion. Calldata/Format describes the
--   format by recursion, apart from the code; EncodeLaws and EncodeTo relate the encoder to it,
--   and Uleb, Sizes, Wire, Rounds, Reads and RoundTrip the decoder; Termination is about any
--   input. A byte list is a Vec<u8> or a slice; a BigInt is ℤ. Writers that can fail (StdWriter)
--   are left out.
-- Memory limiter (executor/src/rt/memlimiter.rs): Memory/Limiter has the counters and the
--   methods. `consume` is a sequence of atomic operations; Memory/Threads lets any number of
--   calls interleave, Memory/Interleavings has their invariant, and Memory/Progress bounds their
--   retries. Memory/Accounting and Memory/Growth take calls one after the other. `release` and
--   the drop of a limiter are not interleaved with other calls.
-- Fee buckets (executor/src/rt/fees.rs): Fees/Buckets has the buckets and their consumption, with
--   the panics of U256 arithmetic, and Fees/Message the charge for a message and the initial
--   charges; Fees/Atomic, Consume, Deductions and MessageFee are about what is charged. The cost
--   vectors, which the code computes by fee expressions, are arguments.
-- Fee allocations (executor/crates/common/src/domain/fees.rs and fees/abi.rs): Fees/Allocation
--   has the tree and the matching of messages, Fees/Abi its flattening and ABI encoding;
--   Fees/Flatten is about the parent pointers, Fees/Offsets about the offsets in the encoded
--   array and Fees/Alignment about its words. An address and a call key are lists of bytes.
-- Descriptors (executor/src/wasi/vfs.rs): Vfs/Descriptors has the table and its methods, over the
--   memory limiter with no other thread at work; Vfs/Validity, New, Alloc, Removal, Content and
--   Pop have what holds of a table and why each method keeps it.
-- Contract storage (executor/src/rt/vm/storage.rs): Storage/Pages has the pages that a run has
--   written and the delta made of them, Storage/Access the reads, Storage/Write the writes, and
--   Storage/Code the contract's code and major version, with the part of executor/src/lib.rs that
--   deploys. A slot is a number, and a page's bytes a list. The cache (crate const_lru), the
--   host, the fee component's answer to consume_storage_pages, and the hash are parameters; View
--   says what is relied on of them. A storage stands for a function from slots and places to
--   bytes; Cuts, Truth, Fill, FillAll and ReadLaws follow a read, Progress, Patches, WriteLaws
--   and Refines a write. A read of pages that were not written is covered up to 8 of them, the
--   length of the staging buffer: beyond that a page of the cache can be forgotten while the read
--   goes on. RoundTrip, Deploy and Load compose the two; PageKeys, KeyBytes, Chunks, KeyOrder and
--   Deltas are about the delta, and Encoding has its calldata.
-- Runner archives (executor/src/runners/ustar.rs): Archive/Ustar has from_ustar, round by round,
--   and Archive/Extraction what it takes out of any input. Archive/Writer describes the format by
--   a writer, apart from the code, and Archive/RoundTrip relates the two. The files are a list,
--   the last one first.
-- Base32 (executor/crates/sdk-rs/src/gvm32.rs): Base32/Code has encode and decode,
--   Base32/RoundTrip follows the encoder's and the decoder's pending bits through a run.
--   Base32/Hash has the text of hashes (executor/crates/common/src/bytes32.rs).
-- Tree map (executor/crates/sdk-rs/src/storage/tree_map.rs, and what it uses of array.rs):
--   TreeMap/Slots has the node pool, the free list and the accesses to nodes, as steps of a state
--   that can panic; TreeMap/Rotations, Lookup, Insertion and Removal the methods. A node's handle
--   is its index; that its address, idx * T::SIZE as a u32, does not wrap is taken for granted, so
--   that the model is of maps whose slots take less than 2^32 bytes; the order of keys is an
--   interface, and i8 is written in two's complement. TreeMap/Tree has trees with their
--   slots and trees with a hole, TreeMap/Held which tree the slots hold, and TreeMap/Entries the
--   entries in the order of their keys, with Laws of lookup in them. Returns says what it is to
--   return without a panic. Turns, DoubleTurns, Lifts and Links follow rotations and links,
--   Rebalance, Grows, Allocs and Inserts an insertion, Shrinks, Successors, Moves, Removes, Joins
--   and Erasure a removal; Search, Map, Visits and Depth are about lookup and the walk.
--
-- Fuel: `encode_loop` gets a round for each item of the value, and `parse` one for each byte of
-- the input and one more, since a round takes a byte at least. `write_uleb_loop` recurs on the
-- accessibility of its number. `push_digits` gets the number of bits, of which each round takes
-- 5. The loop of from_ustar gets a round for each byte and one more, since a round takes a block.
-- The walks of the tree map get a step for each slot of the pool and one more, since no node is
-- met twice.
--
-- Not modelled: the WebAssembly engine and its bindings, the host's and the modules' sockets, the
-- command line and logging; nor, so far, the fee expressions, the reads and writes on
-- descriptors, zip archives and the detection of a runner's kind, the arrays of the SDK, and
-- the supervisor.
pub mod Base
pub mod Calldata
pub mod Memory
pub mod Fees
pub mod Vfs
pub mod Base32
pub mod Storage
pub mod TreeMap
pub mod Archive
