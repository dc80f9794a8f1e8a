-- ===== src/Lib.antt =====
-- The actor system libeam: its message queues, its replicated actor registry, its cluster
-- membership, failure detection and authentication, and its demand-driven stages, as functions
-- over explicit state, with the theorems that make them correct.
--
-- The program's parts and the files that model them.
-- - Shared.antt: library names, tests and lists; Shared/Dict.antt is the `Map<string, V>` of the
--   source, in order of insertion; Shared/Text.antt is the order `>` on texts, by UTF-16 units.
-- - VectorClock.antt (src/vector_clock.ts): the class VectorClock. Order.antt says what
--   `compare` decides, Merging.antt what `merge`, `increment` and `isEmpty` do.
-- - Mailbox.antt (src/mailbox.ts): BoundedMailbox. The array is a list of slots that a write
--   past the end makes longer, as in JavaScript. Ring.antt has the arithmetic of the ring,
--   Held.antt the relation between a ring and the list of messages held, Queue.antt `enqueue`,
--   Bulk.antt `dequeue`, `unshift`, `clear` and `drain`, Replace.antt `replaceWith`.
-- - RegistrySync.antt (src/registry_sync.ts): the replicated registry that uses the vector
--   clocks; Invariant.antt, Delivery.antt, Conflicts.antt and Removal.antt have what holds of
--   it.
-- - GossipProtocol.antt (src/gossip_protocol.ts, src/gossip.ts): the membership table and its
--   handlers; Merging.antt, Versions.antt, Failures.antt, Revival.antt and Table.antt.
-- - Heartbeat.antt (src/heartbeat.ts): HeartbeatManager. The peer states are objects in a store,
--   since timers and pings in flight keep hold of them. Detection.antt says when a peer is
--   failed, Timers.antt what the stagger timers do, and to a peer that has come back; Store.antt
--   has reads and writes of the store.
-- - Auth.antt (src/auth.ts): CookieAuthenticator and KeyringAuthenticator over a record of what
--   the crypto module does; Auth/Z85.antt the encoding of keys. Nonces.antt is about replays,
--   Rotation.antt about two keys, Z85/RoundTrip.antt about decoding.
-- - GenStage.antt (src/gen_stage.ts): Demand.antt, Broadcast.antt and Partition.antt are the
--   three dispatchers, Producer.antt the producer over the interface Dispatcher, which
--   Dispatchers.antt fills for two of them, and Consumer.antt the consumer. Accounts.antt and
--   Shares.antt, Credit.antt and Bounds.antt, Order.antt, Buffer.antt and Flow.antt have what
--   holds of each.
-- - ProcessGroup.antt (src/process_group.ts): ProcessGroupManager. Groups.antt and Sweeps.antt
--   have its invariant, Replication.antt what two nodes agree on.
-- - LocalRegistry.antt (src/local_registry.ts): the registry of a single node and its reservations of
--   names; Reservations.antt says what a reservation promises.
-- - ActorSystem.antt (src/actor_system.ts, src/actor.ts): the actors of one node, as tables by
--   identifier, with `spawn` and `spawnChild`; Watching.antt has `watch`, `unwatch` and
--   `notifyWatchers`, Linking.antt `link`, `unlink`, `notifyLinkedActors` and `sendExit`,
--   Stopping.antt `stop`, `stopSingle` and `restart`. Frame.antt, Cuts.antt and Nesting.antt say
--   what an operation leaves as it is, Tree.antt, Leaving.antt and Removal.antt what becomes of the
--   tree of children, Watches.antt, WatchSets.antt and Answers.antt what becomes of a watch.
--   Shared/Table.antt is the `Map` whose keys are identifiers.
-- - Supervision.antt (src/supervisor.ts, src/child_supervisor.ts): `handleCrash` and the
--   strategies. Nesting.antt and Reachable.antt have the invariant of the tree over all
--   operations, Windows.antt the limit on restarts, RootRestarts.antt restarts of root actors,
--   Order.antt who takes whose place, Orphans.antt what is left without a parent,
--   Propagation.antt and Enough.antt how far a crash goes.
-- - MessageLoop.antt (src/actor_system.ts): how the messages of one actor are taken up, as a step
--   function over the callbacks that may come in any order. It uses the queue of Mailbox/Queue.antt,
--   which the ring implements. Wakeups.antt, Order.antt, Exclusion.antt and
--   Overlap.antt.
-- - Timers.antt (src/actor_system.ts): the timers of one actor, and what of them is still armed;
--   Silence.antt says when they send nothing any more.
-- - IdleTimeout.antt (src/actor_system.ts): the idle timeout of one actor over a clock, whose
--   callbacks run at any time; Due.antt says what a check does that is not early.
-- - DynamicSupervisor.antt (src/dynamic_supervisor.ts): the handlers over the actors of a node;
--   Limits.antt says what they answer.
-- - Placement.antt (src/placement.ts): PlacementEngine; RoundRobin.antt says whose turn it is.
-- - Health.antt (src/health.ts): HealthAggregator; Reports.antt says what a report's status is.
-- - Examples.antt: concrete runs, and each theorem applied to them.
--
-- How state and operations correspond. A class is a record of its fields, a method a function
-- from the record to the new record and its result; what it publishes, sends or emits is part of
-- the result, and `Date.now()` and random choices are arguments. An exception is an answer of
-- its own. Texts are native strings. Counters, generations and times are natural numbers: the
-- source's are JavaScript integers, which are exact below 2 ^ 53, a bound that is not modelled.
-- Differences of times are written as comparisons of sums, so that no subtraction stops at 0.
--
-- Bounds and fuel. The loop of `unshift` that doubles the ring takes the number of messages that
-- must fit as fuel, which is enough because each round makes the ring longer by one slot at
-- least. The loop of the DemandDispatcher takes the number of events as fuel, which is enough
-- because each round hands out one event at least. The value that `z85Decode` computes is
-- written modulo 2 ^ 32 where a character is not in the alphabet, and the djb2 hash is kept
-- modulo 2 ^ 32.
--
-- `stop` takes the depth of the tree of children as fuel: an actor's children have larger
-- identifiers than the actor, so that the identifiers from the actor's to the next one are enough,
-- and the code's own calls are given the next identifier. `handleCrash` takes the length of a chain
-- of links as fuel: a link is removed before a crash passes along it, so that one more than the
-- number of links is enough.
--
-- What is assumed of actors. `uuidv4` gives identifiers that were not given before, which are
-- numbers in order. In ActorSystem.antt and Supervision.antt what is awaited (the registry,
-- `terminate`) returns at once, so that an operation ends before the next one starts; the
-- interleavings of handlers of one actor are the subject of MessageLoop.antt. All actors are on one
-- node. An actor's own code is seen in the log of what it is sent and of which of its methods run.
--
-- Not modelled: sockets, the clock behind timers, telemetry and logging; the JSON form of
-- messages, whose objects hold the entries of the dictionaries sent; the cryptographic
-- functions, which are the parameter Crypto; what a handler had sent before an exception ended
-- it; `VectorClock.toString`, which is for display; actors on other nodes, migration and
-- stashing; an exception of `handleInfo` in a timer, which ends the process; the other parts of the
-- repository.
pub mod Shared
pub mod VectorClock
pub mod Mailbox
pub mod RegistrySync
pub mod GossipProtocol
pub mod Heartbeat
pub mod ProcessGroup
pub mod LocalRegistry
pub mod ActorSystem
pub mod Supervision
pub mod MessageLoop
pub mod Timers
pub mod IdleTimeout
pub mod DynamicSupervisor
pub mod Placement
pub mod Health
pub mod Auth
pub mod GenStage
pub mod Examples
