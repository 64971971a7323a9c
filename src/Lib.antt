-- ===== src/Lib.antt =====
-- A verification library for ursa, a content delivery node: a block store, a libp2p service that fetches
-- and publishes blocks, and an index provider that advertises them.
--
-- Parts and files (paths from the repository's root):
--   Store: crates/ursa-store/src/store.rs. `BitswapStorage` and `Store::dag_traversal`; `Store.Missing`
--   and `Store.Dag` are the two walks over a DAG of blocks, `Store.Links` says what a DAG reaches.
--   Network.Multiaddr, Network.Config, Network.Exchange: addresses, `NetworkConfig`, and the messages of
--   crates/ursa-network/src/codec/protocol.rs; Network.Codec reads and writes them.
--   Network.Discovery: `DiscoveryBehaviour` of crates/ursa-network/src/discovery.rs; `Connections` has the
--   callbacks of connections, `Poll` has `poll`.
--   Network.Behaviour: `Behaviour` of crates/ursa-network/src/behaviour.rs; `Handlers` has the handlers of
--   the sub-behaviours' events, `Steps` all that can happen to the state.
--   Network.Service: `UrsaService` of crates/ursa-network/src/service.rs; `Bitswap` has the requests for
--   blocks and their answers, `Publish` the publication of queued roots, `Turns` the loop of `start`,
--   `Ledger` and `Publications` what its runs have published.
--   Network.Gossip: crates/ursa-network/src/gossipsub.rs. Network.Transport: transport.rs beside it.
--   Network.Start: the constructors of the behaviour and of the service.
--   Index.Advertisement, Index.Provider, Index.Announcement, Index.SignedHead: advertisement.rs, provider.rs
--   and signed_head.rs of crates/ursa-index-provider/src.
--   Index.Provider.Http: the HTTP server of provider.rs, and Index.Provider.Crawl an indexer that reads from
--   it. Clones of a provider share the fields behind its
--   Arcs, so that one record stands for them all.
--   Node.Identity: crates/ursa/src/ursa/identity.rs, the key file and the identity manager.
--   Node.Config: crates/ursa/src/config.rs and the options of crates/ursa/src/ursa/mod.rs. Node.Main:
--   crates/ursa/src/main.rs up to its wait for Ctrl-C; Node.Lifecycle: from there to the end of the process.
--   Rpc.Api, Rpc.Routes: crates/ursa-rpc-server/src/api.rs, and the handlers in http/routes and rpc/routes.
--   Rpc.Api.Delivered, Filed and Announced: a client's requests and a client's upload, from the interface
--   through the loop of the service and back, or to an indexer.
--   Rpc.Client: crates/ursa-rpc-server/src/rpc/rpc.rs and crates/ursa-rpc-client/src/lib.rs.
--   Rpc.Multiplex: crates/ursa-rpc-server/src/service.rs. Rpc.Functions, Rpc.Server: the functions of
--   crates/ursa-rpc-client/src/functions.rs, and crates/ursa-rpc-server/src/server.rs, which they reach.
--   Metrics: crates/ursa-metrics/src/events.rs and middleware.rs; Metrics.Server: metrics.rs.
--   Gateway: crates/ursa-gateway/src/main.rs and config.rs.
--   Prelude: the names, tests, maps and outcomes that all share.
--
-- The service owns a behaviour, a provider and a handle of the store. It polls the behaviour for events and
-- takes commands from the RPC server; the behaviour owns the discovery. Between its turns the swarm may do
-- with the behaviour whatever `Steps` allows. What the program asks of libp2p,
-- of the metrics recorder or of one-shot channels is recorded in the state, call by call. What these
-- libraries answer, the database, the codecs, the order in which a hash set yields its elements, and
-- random numbers are parameters. A Cid and a peer id are numbers, so that the conversion between the Cid
-- types of two crates is the identity. A hash map is an association list with one entry for a key.
-- The main function makes the service, the provider and the interface from one key and one store, and runs
-- them, the RPC server and the metrics as tasks; the steps of these tasks, of Ctrl-C and of the shutdown are
-- a relation, in any order. Routers, the extraction of bodies, JSON and TOML are parameters as well.
-- An `Err` is `err`, an `unwrap`, `expect`, `todo!` or index out of range is `panic`.
--
-- Fuel: the walks of the store and the busy wait of the service run on fuel, and `none` says that it ran
-- out. The indexer of Index.Provider.Crawl takes a given number of advertisements, and fuel for each chain of
-- chunks. For a DAG of n Cids `rounds` is enough for `dag_traversal`; `missing_blocks` has no record of
-- what it visited, so that it is given an acyclic DAG and a number of rounds; the wait for a block needs
-- one look at the store more than the block takes to arrive; the loop over the queue of roots is given one
-- round more than there are roots.
--
-- Not modelled: the parser of the command line, `_block_until_sigint`, which nothing calls, the bind of
-- sockets, and the contents of log messages.
pub mod Gateway
pub mod Index
pub mod Metrics
pub mod Network
pub mod Node
pub mod Prelude
pub mod Rpc
pub mod Store
