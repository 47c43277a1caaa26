-- ===== src/Lib.antt =====
-- A model of valtrack, which finds the validators among the nodes of Ethereum's peer-to-peer network.
--
-- The program has two parts. The sentry (pkg/ethereum) connects to peers, asks each for its status and
-- its metadata, collects the subnets it subscribes to, and publishes one event per peer. The consumer
-- (consumer) reads these events from a queue, decides from the subnets which peers run validators,
-- stores them in a database and in ClickHouse (clickhouse), serves them over HTTP, and publishes them
-- to Dune. The events (types/types.go) are all that the two parts share.
--
--   Types                  types/types.go: the events.
--   Sentry.Wire            the types of libp2p and prysm that the sentry stores.
--   Sentry.Peerstore       pkg/ethereum/peerstore.go: the store of peers, all its methods.
--     Frame                  the effect of each method on one record, and runs of methods.
--     Validity               the invariant of the store.
--     Reconnect              the list of peers to reconnect to, and the overflow of the backoff.
--     Calm                   calls of other goroutines that do not disturb the handler of a peer.
--   Sentry.Stream          readRequest, readResponse, writeRequest, writeResponse of
--                          pkg/ethereum/reqresp.go, on a stream whose answers are given.
--     Framing                which calls are made, and when they succeed.
--   Sentry.ReqResp         the rest of pkg/ethereum/reqresp.go: the node's own status and metadata,
--                          the handlers and the requests.
--     LocalStatus, Handlers  theorems on the status that the node holds, and on the exchanges.
--     Registered             what is done around a registered handler.
--   Sentry.Node            the state that the connection handlers share, and sendMetadataEvent of
--                          pkg/ethereum/nats.go.
--   Sentry.Notifiee        pkg/ethereum/node_notifiee.go: Connected and the two connection handlers.
--     Connection, CleanUp, Ready, Answers, Safety
--                            what starts a handler, what it leaves behind, and that it cannot panic.
--     Calls                  that the handlers change the store by its methods alone.
--   Sentry.Subscriptions   FilterIncomingSubscriptions of pkg/ethereum/node.go.
--     Topics                 which topics are read back, and which stop the node.
--   Sentry.Publisher       the publishers of pkg/ethereum/nats.go, and pkg/ethereum/peer_dialer.go.
--     Connects               which peers the dialer connects to.
--   Sentry.Configuration   config/config.go, and the readers of the environment of
--                          pkg/ethereum/utils.go.
--   Sentry.Startup         NewNode and Start of pkg/ethereum/node.go, NewDiscoveryV5 of
--                          pkg/ethereum/discv5.go, createNatsStream of pkg/ethereum/nats.go, and
--                          Eth2EnrEntry of config/config.go.
--     Fresh                  the node as they leave it.
--   Sentry.System          the node at work, as a step relation: connections, handlers, subscriptions,
--                          status requests, and the reconnection timer and listener of
--                          pkg/ethereum/node.go.
--     Moves, Sound, Live     what a step does, the invariant, and what the node can always do.
--   Sentry.Goroutines      the node at work in finer steps: the handlers of
--                          pkg/ethereum/node_notifiee.go as goroutines that take turns, each at a
--                          phase, one read or write of shared state at a time.
--     Resume, Leads, Rest    what one turn of a handler, and of anything else, does.
--     Turns, Orderly         the invariant, and that every turn keeps it.
--     Progress               that the handlers can go on, and how many turns they take.
--     Alone                  that the turns of one handler in a row are the handler of
--                            Sentry.Notifiee, outbound and inbound, and what an outbound one makes of
--                            a peer that answers.
--     Race                   two overlapping calls of Connected.
--   Sentry.Discovery       pkg/ethereum/discv5.go from Serve on, pkg/ethereum/enr.go, MaddrFrom of
--                          pkg/ethereum/utils.go, and sendPeerEvent of pkg/ethereum/nats.go.
--     Announced, Dialed      which nodes are handled, and which peers are handed to the dialers.
--   Consumer.Launch        RunConsumer of consumer/consumer.go.
--     Failures               which errors it survives, and what it sets up.
--   Consumer.Subnets       consumer/utils.go: announced and short-lived subnets.
--   Consumer.Messages      handleMessage of consumer/consumer.go and what it calls.
--     Delivery, Channels     what becomes of a message, and of a run of messages.
--     Fetching               Start of consumer/consumer.go.
--   Consumer.Tracker       consumer/db.go: the handler that counts validators, the SQL statements as
--                          functions on tables, and the batches of its transactions.
--     Setup                  the tables and the addresses that they start with.
--     Totals, Counts, Rounds what the statements do to a peer's rows, what the tables have of each peer,
--                            and when the tracker panics.
--     Kept, Stale            what the pending row of a peer keeps until the batch is committed.
--   Consumer.Api           consumer/api.go: the API keys and the list of validators.
--   Consumer.Dune          consumer/dune.go: the calls that publish the validators to Dune.
--     Calls, Publish, Body   when each call and the whole publication succeed, and what is sent.
--   Clickhouse             clickhouse/client.go: the client, and the batches of rows.
--     Batches, Bounds        which rows are in which batch, and how many.
--   Pipeline               the sentry's publisher, the consumer's messages and the batches together.
--     Launches               the same from RunConsumer on.
--   Commands               cmd/cmd.go: the flags and both commands; discovery/service.go.
--     Started                the sentry's node as its command leaves it.
--   Base                   numbers, lists, maps with text keys, errors and panics.
--   Hex                    hexadecimal text.
--   Text                   texts as bytes: strings.Split, strings.Contains, strconv.Atoi.
--
-- Functions have the names of the source in snake case. A method on a shared object takes the object
-- and gives back the new one. A call that can panic gives an Outcome, a call that can fail gives a
-- Result. What the network, the clock, the queue, the database and the file system answer is an
-- argument. Maps are association lists: the order of Go's iteration, which is random, is the list's,
-- and no theorem on a map depends on it but through the list itself. Locks are left out: a method of
-- the store is one step. While a connection handler waits, other goroutines may call any methods of
-- the store and update the node's status; these calls are given with each wait, as an Interlude. A
-- call is calm if it is an Insert, or its peer was in the store when the handler started or has been
-- inserted in the same wait, and it is no Insert or Reset of the handler's own peer; a wait is calm if
-- its calls are. In the node at work a handler is one step, and its Interludes are the calls of the
-- others meanwhile; a step is a call that returns, and a handler is a step only if its waits are calm.
-- In Sentry.Goroutines there are no interludes and nothing is called calm: handlers of any peers, new
-- connections, subscriptions, status requests, ticks and attempts to reconnect take turns in any order.
-- A turn is one call of a method that holds a lock, or one update of the node's status; Connected,
-- which takes the lock three times, is one turn, and Race says what overlapping calls of it do. An
-- agent version that the host has is a text, as libp2p's identify stores it. A handler takes at most
-- eight turns, besides two for each sleep of waitForStatus: these are the fuel of Alone.
-- In the tracker the end of a goroutine that fetched an address is one step among the handler's rounds,
-- and such steps come also after the handler has returned, with the shared transaction nil.
--
-- Unsigned counters are natural numbers, with their wrap-around where they are counted up. The product
-- of the backoff is int64, with its wrap-around; time.Since saturates as Go's does. Every loop is
-- structural recursion, over a list or over the number of rounds left (64 for the subnets);
-- waitForStatus recurs on the sleeps that fit into its timeout, and the loops that send and prepare a
-- batch on the tries that are given: one that has not ended by then has no result, and a theorem says
-- which tries are enough. No definition uses other fuel.
--
-- Not modelled: logging (log/log.go), main.go's table of commands, the parsing of the command line, the
-- options of libp2p and of the gossip, the end of goroutines and of the process, the HTTP server and
-- the files that RunConsumer opens, but for their errors, the text of the SQL definitions of the
-- tracker's tables, discv5's iterator and the decoding of node records, and JSON, Parquet, SSZ and
-- Snappy encodings. RunConsumer logs its errors and goes on; the library objects it then has are as the
-- libraries leave them, but for the pointers and interfaces that are nil.
pub mod Base
pub mod Hex
pub mod Text
pub mod Types
pub mod Sentry
pub mod Clickhouse
pub mod Consumer
pub mod Pipeline
pub mod Commands
