-- ===== src/Lib.antt =====
-- Verification of the Avail light client.
--
-- The light client follows the chain's finalized headers, samples random cells of each block from a
-- DHT with the node's RPC as fallback, and answers with a confidence that the block is available.
-- Headers are trusted after the check of their justification (Finality). LightClient takes them,
-- fetches each block's sample through Network, and writes what it has verified to the database
-- (Data); SyncClient does the same for the blocks before. The tasks of the client stop together by
-- the controller of Shutdown. KadStore, with KadProviders, is the node's own part of the DHT.
--
-- Files and parts:
--   Prelude: tests, lists, results, sets of numbers, association lists, sorting by a key, decimal
--     numerals, chunks of a list.
--   Types: the block header, the GRANDPA messages, blocks and ranges (core/src/types.rs and
--     core/src/utils.rs); Samples has the stand-ins of the tests.
--   Finality: the check of justifications (core/src/finality.rs). `follow` runs on as many rounds as
--     the ancestry map has entries, like the loop of the source.
--   SyncFinality: the start from a checkpoint or the genesis (Start) and the loop over headers that
--     checks each change of the validators (core/src/sync_finality.rs), with filter_auth_set_changes
--     of core/src/utils.rs. Its rounds are the blocks from the first to the last one.
--   Shutdown: the shutdown controller and the futures around it (core/src/shutdown.rs and
--     core/src/shutdown/). Each call under the mutex is one step; Protocol has the sequences of calls.
--   Data: the keys of the database, their texts, and the database in memory (core/src/data.rs,
--     core/src/data/keys.rs, core/src/data/mem_db.rs); Store has one field for each key in use.
--   Network: the fetch of verified cells (core/src/network.rs, core/src/proof.rs), in the build
--     without the feature `multiproof`. A slice is cut into at most as many chunks as it has elements,
--     so that the fuel of `chunks` is its length.
--   LightClient: the processing of a block and the loop over headers (core/src/light_client.rs);
--     Sampling joins it with Network.
--   Rpc: how many cells are sampled, and which (core/src/network/rpc.rs). The loop that draws them runs
--     on a number of rounds; that they suffice is a statement about the numbers drawn.
--   RpcClient: the connection to one of the nodes and the calls that are tried on others
--     (core/src/network/rpc/client.rs, core/src/network/rpc.rs); attempts are numbered, and the retry
--     strategy is a parameter that ends with the result of an attempt or with none.
--   Subscriptions: finalized headers and their justifications (core/src/network/rpc/subscriptions.rs),
--     before they are handed on as events of the RPC client; the loop is a function of the messages.
--   AppClient: the rows of one application, from the DHT and a node, completed from columns and decoded
--     (core/src/app_client.rs); Rows and Cells have its parts, Source the functions of kate-recovery.
--   FatClient: the cells of a part of the matrix, fetched in batches and put into the DHT
--     (core/src/fat_client.rs).
--   Crawl: the success rates of the crawl client (core/src/crawl_client.rs).
--   SyncClient: the blocks before the latest one (core/src/sync_client.rs).
--   Updater: the choice of a newer release and its delayed installation (core/src/updater/).
--   Monitor: the list of peers of the monitor, a program of its own, with their health and the pages of
--     its server (monitor-client/src/); Health has the whole histories that the records stand for.
--   KadProviders, KadStore: providers and records of the DHT kept in memory
--     (core/src/network/p2p/kad_mem_providers.rs, core/src/network/p2p/kad_mem_store.rs).
--
-- Conventions: hashes, keys, signatures and peer ids are the numbers that their bytes spell.
-- Numbers are the native natural numbers (block numbers and set ids stay below the bounds of u32
-- and u64, so that adding one does not wrap around); where the source subtracts with saturation so
-- does `-`. Logging and durations are left out. A send to a channel whose failure is only logged
-- is an attempt. Code of other crates (hashing, encodings, signatures, the matrix and its proofs,
-- the arithmetic of f64) is a parameter, and so are the answers of the DHT and of the nodes.
--
-- Not modelled: the API, telemetry, maintenance, the stores in RocksDB, the configuration and event
-- loop of libp2p, the single calls to a node, and the binaries that start the tasks.
pub mod Prelude
pub mod Types
pub mod Crawl
pub mod Data
pub mod Network
pub mod LightClient
pub mod SyncClient
pub mod SyncFinality
pub mod Rpc
pub mod Subscriptions
pub mod AppClient
pub mod FatClient
pub mod Monitor
pub mod Updater
pub mod RpcClient
pub mod Finality
pub mod Shutdown
pub mod KadProviders
pub mod KadStore
