-- ===== src/Lib.antt =====
-- Clawdentity gives agents signed identities and lets them reach each other through a relay. The
-- parts modelled here, and how they meet:
--   * the proxy's relay session (apps/proxy/src/agent-relay-session), one durable object for each
--     agent: it forwards frames to the agent's connector, queues them while the agent is away, keeps a
--     receipt for each request, and wakes itself by an alarm;
--   * the proxy's trust store (apps/proxy/src/proxy-trust-store.ts, proxy-trust-keys.ts), which the
--     proxy asks before it relays: pairs are allowed by confirming a pairing ticket;
--   * the same store as a durable object (apps/proxy/src/proxy-trust-state), whose storage is read as
--     values of unknown shape and cleaned by an alarm;
--   * the connector's inbox (packages/connector/src/inbound-inbox*), on the agent's side: what the
--     relay delivers is stored before the agent sees it, and retried or kept as a dead letter;
--   * the replay of that inbox (packages/connector/src/runtime/replay.ts), which delivers its messages
--     to the local webhook, the messages of one conversation in their order;
--   * the connector's outbound queue (packages/connector/src/client/queue.ts): what the agent sends is
--     queued, written to a file, and sent in order while the line holds;
--   * the nonce cache (packages/sdk/src/security/nonce-cache.ts) and the durable nonce replay guard
--     (apps/proxy/src/nonce-replay-guard.ts), by which a server refuses a signed request that it has
--     seen before;
--   * the registry's rate limit (apps/registry/src/rate-limit.ts) in front of its public routes.
--
-- Files. Shared has Boolean tests, lists, dictionaries (a `Map` or an object with text keys, in the
-- order of insertion), `trim` and JSON values. The numbers of JSON values are natural.
--   Proxy/Relay/Types, Policy, Queue, Scheduler: types.ts, policy.ts, queue-state.ts and scheduler.ts.
--   Proxy/Relay/Manager: queue-manager.ts; `process_from` is the loop of processQueueDeliveries,
--     `drain_queue_on_reconnect` and `schedule_from_storage` are the methods of these names.
--   Proxy/Relay/Session: core.ts; `deliver_to_connector`, `record_delivery_receipt`,
--     `get_delivery_receipt` and `alarm`. Its state is the stored queue and the stored alarm.
--   Proxy/Trust/Types, Keys, Store, Confirm, Tickets: createInMemoryProxyTrustStore. `begin_confirm` and
--     `finish_confirm` are confirmPairingTicket before and after its `await`; Proxy/Trust/System is
--     the relation of the steps that may run in any order in between.
--   Proxy/TrustState/Utils, Storage, Storage/Entries, Handlers, Handlers/Confirm, Controller: utils.ts,
--     storage.ts with its entries, handlers.ts and controller.ts. `fetch` and `alarm` are the object's
--     methods; the confirmation is again split at its `await`, which Proxy/TrustState/System uses.
--   Connector/InboundInbox/Types, Storage, Calls: the records, the SQL of a write transaction, and
--     `enqueue`, `mark_delivered`, `mark_replay_failure`, `replay_dead_letter`, `purge_dead_letter`.
--   Connector/InboundInbox/Due, Snapshot: the reads, `list_due_pending`, which the replay uses,
--     `list_dead_letter` and `get_snapshot`.
--   Connector/Replay/Delivery, Lanes, Pass: replay.ts and the delays of policy.ts; `turn` is a stretch
--     of one lane between two waits, and `replay_pending_inbound_messages` a pass by such turns.
--   Connector/OutboundQueue: ConnectorOutboundQueueManager; `ensure_loaded` is its loading and `save`
--     one write of its `saveChain`.
--   Sdk/NonceCache: createNonceCache; its child Spec has the memory that the cache implements.
--   Proxy/NonceReplay: the guard's `handle_try_accept` and its `guard_alarm`.
--   Registry/RateLimit: createInMemoryRateLimit.
-- The other files hold what is proved of these, and a file named Tests has runs on concrete inputs.
--
-- Representation. Times, counts and sizes are natural numbers: the code reads them from a clock and
-- from configuration that is not negative, and never lets them near the range of a double. A handler
-- takes the time, the random samples and what the other side answers as arguments, and gives the new
-- state with what it returns or throws. Ratios are a numerator and a denominator. Every loop is
-- structural recursion on the list that the code runs over, but for the retries of a delivery, which
-- have as much fuel as the policy allows attempts.
-- An `await` inside a handler is a place where others run: it is split there for the trust store. A
-- handler of the relay session is one step, from load to save. That holds for its storage, but
-- deliverToConnector (core.ts:239) and the queue's pass also wait for the connector's acknowledgement
-- in between, where other events can run: what is said of the session is of events that do not
-- overlap in this wait. SQLite's tables
-- are dictionaries by primary key, and a refused statement rolls its transaction back.
--
-- Not modelled: HTTP and web socket parsing, the routes, the database access and the lifecycles of the
-- registry, signatures and tokens, the rest of the connector's runtime and client, the sites and the Rust
-- crates. What the trust store takes from pairing-ticket.ts and from packages/protocol is a record of
-- functions.
pub mod Connector
pub mod Proxy
pub mod Registry
pub mod Sdk
pub mod Shared
