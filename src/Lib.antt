-- ===== src/Lib.antt =====
-- Katana is a Starknet sequencer. This library models the parts that decide which transactions it
-- takes, in which order it holds them, what a transaction's hash says, how events are queried,
-- how a full node's sync advances, which gas prices it samples, how state diffs describe contracts,
-- how blocks and state are stored and read back,
-- and how blocks are produced.
--
-- - Transaction (crates/primitives/src/transaction.rs, utils/transaction.rs, fee.rs, chain.rs,
--   da/mod.rs): the types of transactions; Encode has `encode_gas_bound` and `encode_da_mode`,
--   Hash has `calculate_hash` and the `compute_*_tx_hash` functions, Convert the types, versions
--   and conversions. Collision says what it is for two sequences to clash; Binding,
--   AccountBinding and Kind have the proofs on hashes.
-- - Pool (crates/pool/src): Order has `TxId`, `PendingTx::cmp` and the orderings of tx.rs and
--   ordering.rs; Set is the BTreeSet; Notify has the loops of `notify_listener` and
--   `notify_subscribers`; Inner has `Pool` with its operations (pool.rs); Sender has
--   `PoolTransaction` for executable transactions (tx.rs); Validate has `TxValidator`
--   (validation/stateful.rs). Streams has `Subscription` and `PendingTransactions`
--   (subscription.rs, pending.rs). Contents, Submission, Outcome and Nonces have the proofs on what a
--   pool holds, on its order, and on the nonces that the validator counts, Yield those on what
--   the streams yield.
-- - Events (crates/rpc/rpc/src/utils/events.rs): Filter has `FilteredEvents`; Page has the
--   cursors and `fetch_tx_events`, Fetch `fetch_events_at_blocks` and `fetch_pending_events`. Spec says
--   what a page is; Loops, Refine, Blocks, Within and Pending have the proofs.
-- - Sync (crates/sync/pipeline/src/lib.rs, crates/sync/stage/src/lib.rs): Pipeline has the
--   pipeline's state and loops; Progress has the proofs on checkpoints, Until those on the loop
--   up to a tip, Tips those on the loop over tips.
-- - Oracle (crates/core/src/backend/gas_oracle.rs): the gas oracle and its worker; Samples has
--   the proofs on averages.
-- - StateDiff (crates/primitives/src/da/encoding.rs): `Metadata` with its encoding, and Updates
--   `encode_state_updates` and `decode_state_updates`. RoundTrip has the proofs on metadata, Merge
--   and Words those on what is gathered and read, Complete the round trip.
-- - Storage (crates/storage/provider/src/providers/db, over crates/storage/db): Table has the tables
--   with and without duplicates, BlockList the sets of block numbers, Db the stored data; Insert has
--   `insert_block_with_states_and_receipts`, Blocks, Transactions and Updates the readers of mod.rs,
--   Latest and Historical the state providers and writers of state.rs. Table.Laws has the lemmas on
--   tables, Rows those on consecutive keys. History is the abstract view of a value that changes from
--   block to block; Nonces, ClassHashes and Slots have the proofs that the writer's loops record it,
--   Frame and Written what the writer does to the other tables, Chain puts blocks in sequence. AsOf, Tip,
--   Stored and Readback have the proofs on what is read.
-- - Rpc (crates/rpc/rpc/src/starknet/mod.rs and forking.rs, crates/primitives/src/event.rs): Token has
--   the continuation tokens of event queries, which are texts, Events the `events` handler with
--   `events_inner` and the forked client. TokenRoundTrip has the proofs on tokens, EventPages those on
--   the handler, Paging those on a client that follows its tokens.
-- - Producer (crates/core/src/service/block_producer.rs): Backend has what the producers use of the backend,
--   the executor and the validator, with the laws that the executor documents; Interval has
--   `IntervalBlockProducer`, Instant `InstantBlockProducer`. Held says where a transaction may be;
--   Tasks, Rounds, Polls, Forced and Runs have the proofs that none is lost, and Locked what follows a
--   forced mining that fails.
-- - Fork (crates/storage/fork/src/lib.rs): Backend has the requests to the forked network, and the rounds of
--   the loop of `poll`. Sums and Keys have the lemmas on lists and keys, Serves and Polls what the two
--   halves of a round keep, Runs the theorems on sequences of rounds. Client has the client's methods, with the proof on what they read.
-- - Base: helpers. Each Tests module runs the definitions and applies the theorems.
--
-- The pool asks the validator, which reads transactions; the event query reads a block provider.
-- State behind locks (`Arc<Inner>`, the vectors of senders, the validator's map) is a record that
-- an operation takes and returns, so one operation runs at a time, as under the locks. The
-- writer of blocks runs in one database transaction, and is one function.
--
-- Felts, addresses and hashes are natural numbers; arithmetic on nonces is written modulo the
-- field's prime, counters modulo 2^64, and gas amounts and prices are assumed to fit their words
-- where a theorem says so. Indices are far below 2^64, since they count elements of vectors in
-- memory. Texts of errors, contract classes and instants are numbers.
--
-- Outside the source, and so parameters: the Pedersen and Poseidon hashes of sequences,
-- blockifier's validations (with the mapping of their errors, over its error types), the state,
-- block and checkpoint providers, the forked network's provider, the stages' work, Ethereum's fee histories, the channels of
-- futures and tokio, and the clock. A panic (`unimplemented!`, `todo!`, `unwrap`, `swap_remove`
-- out of range) is `none`, or `panicked` in the pipeline.
--
-- The database is libmdbx: a table is the ordered map that crates/storage/db/src/abstraction documents,
-- a dupsort table a map to its data items in order, and a bitmap of the crate roaring the list of its
-- members in order. Errors of libmdbx and the encodings of keys and values are left out; a key of
-- several parts compares part by part, as its bytes do. A BTreeMap is a table, and the theorems take
-- its keys to be in order. Transactions, receipts, traces and classes are stored as they are.
--
-- BTreeSet is the list of its elements in order. `Set.insert` searches from the least element, as
-- the tree does inside a node; since the comparison of pooled transactions is not transitive,
-- trees of other shapes may place an element elsewhere, and `Set.Slot` describes what any search
-- tree may do.
--
-- The channel that a stream over the pool reads is the sequence of the answers of its polls, and the
-- stream's loop is a recursion on two rounds, since a second round always finds a transaction.
-- A task that a block producer spawns runs in a step of its own, between two polls; whether it has
-- finished, and whether the timer has ticked, is up to the run. The producer's loop over executions is
-- a recursion on two rounds, since a task that a round spawns has not run in the next one.
-- A round of the fork backend's loop gets what the channel of requests and the network have for it. A future
-- is what polling it gives; the answers sent are kept in a list, with the key of their call.
--
-- Loops are recursions over a list, or over the number of blocks in a range. The pipeline's
-- loop over tips takes those seen so far, and then waits, since the pipeline itself keeps the watcher's channel open;
-- its loop up to a tip runs on fuel, of the tip plus one, which is enough for a positive chunk size; the
-- sum of a block number and the chunk size is assumed to fit 64 bits. The hexadecimal digits of a
-- number run on fuel of 16, enough for 64 bits, and a client that follows tokens on the number of
-- pages it may ask for. That a vector of a chunk's capacity can be allocated is assumed.
--
-- Not modelled: the other RPC handlers, the blobs of state diffs, the tries
-- with their proofs and roots, the fork provider, the conversion of the classes it fetches, the executor, the service that feeds the block producer, messaging, and the process around them.
mod Base
pub mod Transaction
pub mod Pool
pub mod Events
pub mod Sync
pub mod Oracle
pub mod StateDiff
pub mod Storage
pub mod Rpc
pub mod Producer
pub mod Fork
