-- ===== src/Lib.antt =====
-- A model of the zero-knowledge proof tool in empiricalZK/rtz14 and of the containers that it
-- uses. A prover shows a verifier that it knows inputs for which a Boolean circuit outputs one:
-- it evaluates the circuit to a bit string with one bit for each heap address, adds permuted
-- copies of the bits of each AND gate, commits to two exclusive-or shares of the result, and
-- then proves linear relations between the bits while it opens one share only.
--
-- The parts and the files that model them:
--   * BitString: `get_bit` and `set_bit` on byte arrays (empiricalZK/rtz14/src/emiter.c, and the
--     same code in linear_proof.c and rtz14.c).
--   * HashMap: the chained hash map (common/ds/src/hashmap.c and map.c), for any hash and compare
--     function. HashMap/Laws, Size and Keys have the laws of its operations.
--   * Circuit: gates (empiricalZK/rtz14/include/circuitparser.h) and the visitors of
--     empiricalZK/rtz14/src/circuit_analyser.c: PatchOne puts the address of the constant one in
--     place of -1, InputGates finds the addresses that are read before they are written, and
--     OutputGates those that are written and not read. AddressMap is the interface through which
--     the visitors use a map; Hashed fills it with the hash map and the address hash.
--   * Emitter: the evaluation of a circuit to a bit string (empiricalZK/rtz14/src/emiter.c). Its
--     client supplies the map of input gates.
--   * LinearProof: proof tasks and auxiliary bits (empiricalZK/rtz14/src/linear_proof.c): Builder
--     has the visitor that makes proof tasks, Generator the one that draws permutations. Position
--     is about the lookup in a string of permutations, Three and Gate about what the generator
--     writes for one gate.
--   * Encoding: hexadecimal text and integers in bytes (common/encoding/src/encoding/hex.c and
--     int.c, platform/osal/src/common.c).
--   * Commitment: the SHA-512 commitment scheme (empiricalZK/rtz14/src/commitment.c), with the
--     compression function as a parameter: Padding on the hash, Opening on `open`.
--   * Parser: the parser of circuits (empiricalZK/rtz14/src/circuitparser.c), with its Tokenizer.
--     Decimal and Reading are about single tokens, Text is about the text of a whole circuit,
--     Termination, Progress and Turns about the ends of the loops.
--   * Protocol: the two roles in empiricalZK/rtz14/src/rtz14.c. The parent has the delta string
--     and the check of the relations, Message the string that is committed to, Roles both roles
--     and a run of the two; Xor and Linear are about the shares and the check, AndTasks about the
--     tasks of an AND gate. Drawing (of LinearProof), Verdict and Honest follow an honest prover
--     through a whole circuit: generator, message and tasks. Range is about the indices and the
--     number of the tasks, and Run and Run/Whole about a run of both roles from its first step.
--   * Der: the DER encoding (common/encoding/src/encoding/der.c and its header): Length the lengths,
--     Primitive the elements, Sequence and Update sequences, Context the contexts by which a
--     message is written and read, and Stream the input stream with its cyclic buffer. Each has the
--     definitions; its children have the proofs. Nothing in empiricalZK/rtz14 calls it.
--   * Queue: the blocking queue (common/ds/src/blockingqueue.c). Ring is about its cells, Threads has
--     the steps of the threads that use it, Locked the parts under the lock, Sound the
--     invariant, Invariant, Fifo and Progress what holds in all states that the threads reach.
--   * LinkedList: the singly linked list (platform/osal/src/singlelinkedlist.c) with its nodes in a
--     store. Chain, Walk, Change, Refines and Removal are about its operations one by one, Runs
--     about runs of them.
--   * IntKeyMap: the map with integer keys (platform/osal/src/intkeymap.c); its child History is
--     about any puts and removals.
--   * Arena: the multi-party arena (common/carena/src/carena.c). The parent has the calls of a peer's
--     client, Threads the two threads of a peer. Chunks and Stream are about `receive`, Frames about
--     one step of a thread, Channel has the steps of one direction of a connection, with proofs in
--     its children. Peers has the arena itself: how clients become peers, and the listeners.
--   * Utf8: UTF-8 strings (platform/osal/src/utf8string.c). Points is about single code points,
--     Validity about the test of a text.
--   * Options: the options of a command line in a hash map (common/utils/src/utils/options.c); Lookup
--     says what the map holds.
--   * Osal: the operating system layer (platform/osal/posix_src/osal.c). The parent has the table of
--     descriptors and the loop of write, Descriptors the table after any calls; Files has open,
--     close, accept and read, with what the system answers as an argument, and its child Session
--     any calls of them; Threads the table of threads, on IntKeyMap; Semaphore the semaphore and the
--     threads at it; Data strings of bytes, with mcmp of platform/osal/src/common.c; Clock the time
--     stamps of the log; and Mutex the spin lock (platform/osal/posix_src/mutex2.c).
--   * Stats: measurements of run times (common/ds/src/stats.c); Totals is about their counters.
--   * Prelude: byte and word helpers, lists over the native numbers, and the library names that
--     the rest uses.
--
-- Conventions. A `uint` is a native number that is cut by `u32` where the code computes with it
-- and the result could wrap; a byte array is a list of numbers below 256, and an access outside
-- it is `none`, in Der `fault`. A bit that the code keeps in a byte after a comparison is a `Bool`. Visitors are
-- functions from their state and a list of gates; a method that the code attaches to an object
-- is called directly. Allocation succeeds, and memory is zero when it is allocated. Loops are
-- structural recursion on the list that they walk over, so that no fuel is needed there. The
-- loop of the tokenizer takes one turn for each character that is left, and the loop of the
-- parser one more turn than the source has characters; every turn reads at least one. The loop of
-- `der_begin_read` takes fuel, and `none` says that it has not ended; it needs one round more than
-- the message has elements. The loop of the arena's `receive` takes fuel too: one round for each
-- package in the queue and two more are enough.
--
-- Not modelled: the sockets, the locks and the destruction of the arena (and carena2.c, an earlier
-- version of it that the build does not name); the printing of statistics; the copy and the
-- destruction of a blocking queue. Of the operating system layer (platform/osal), the version for
-- Windows, the libc random source, the printing and the log file are left out. The object support
-- code writes machine code, and a method call is a direct call here. The command line tools read
-- files and call the components; the date and time are the system's clock. The BCH library and the
-- SHA-512 compression are copies of other projects. The random source is a parameter.
pub mod Prelude
pub mod BitString
pub mod HashMap
pub mod Circuit
pub mod Emitter
pub mod LinearProof
pub mod Encoding
pub mod Commitment
pub mod Parser
pub mod Protocol
pub mod Tests
pub mod Der
pub mod Queue
pub mod LinkedList
pub mod IntKeyMap
pub mod Arena
pub mod Utf8
pub mod Options
pub mod Stats
pub mod Osal
