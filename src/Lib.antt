-- ===== src/Lib.antt =====
-- Verification of the parallax telemetry playground's services, on models of their Rust code.
--
-- Modelled are services that keep their state in tables of one PostgreSQL database, and the
-- part of the telemetry library that carries identities and trace context between services.
--
-- services/inventory/src holds stock for checkouts. domain.rs validates requests
-- (Inventory/Domain and Inventory/Validation; Inventory/Validity says what a valid request is).
-- infrastructure.rs runs each operation in one transaction: `lock_current_checkout_fence` is
-- Inventory/Fence, `reserve` is Inventory/Reserve, `release` is Inventory/Release, `consume` is
-- Inventory/Consume, and `reap_expired_reservations` is Inventory/Reap, over the tables of
-- Inventory/Schema and the pairs of UPDATE statements of Inventory/Statements. application.rs and
-- the handlers of api.rs are Inventory/Api. Holder says who holds a checkout fence. Fencing,
-- Opening (over Candidates and Taking), Replay and Returning (over Giving) follow single
-- requests; Consumed, over Finality and Untouched, follows a consumed reservation.
-- Inventory/Ledger states what the tables conserve; Moves, Soundness, Transitions and the modules
-- of Conservation take it through each statement and operation. Inventory/System runs everything,
-- with the checkout service and the catalog as surroundings.
--
-- services/notifications/src delivers messages. `notify_inner` of api.rs and `record_delivery` of
-- store.rs are Notifications/Enqueue, `claim_next` and `reclaim_exhausted` are
-- Notifications/Claim, the marks and `backoff` are Notifications/Marks, the choice of an endpoint is
-- Notifications/Channel, and `dispatch_notification`, `persist_channel_message`, `process_job` and a
-- round of `run_delivery_worker` are Notifications/Worker, over the tables of Notifications/Schema.
-- Notifications/Invariant states what holds of a row, Notifications/Progress what becomes of it;
-- Advance, Outcomes, Process and Arrival take both through each operation; Notifications/System
-- interleaves them. Claims, Leases, Retry and Repeat follow single steps. Notifications/Carriers joins the
-- service to the telemetry library: `carrier_of` is what `record_delivery` stores, `job_context_headers`
-- what the worker checks; Stored is about the two.
--
-- services/checkout/src publishes the events of an order. Checkout/Outbox has
-- `claim_outbox_event`, `publish_one_outbox` and the loop of infrastructure.rs over the table of
-- events, Checkout/Broker its `publish_outbox_message`, with the errors of Checkout/Errors.
-- Checkout/Lifecycle is the life that an event is promised, Refinement takes each statement
-- through it, Budget counts the messages, Sending (over Due) follows a turn that succeeds and Answers the
-- answers of the broker. The query orders events by their time only; among equals the model takes
-- the first in its list. Checkout/Quotes is `validate_quote_response` of application.rs, and
-- Balance is about it.
--
-- services/pricing/src prices a cart. Pricing/Quote has the quote of domain.rs, its expiry and
-- its response, Pricing/Request the fingerprint and the cache key of a request, Pricing/Validate
-- the validation of a request, and Pricing/Calculate `calculate_quote` of infrastructure.rs over
-- what its queries return. Pricing/Cache is `calculate_quote` of application.rs, over what the
-- flag, Redis and the query of the version return. Expiry, Collision, Accepted, Balance and Fresh
-- are about them. The amounts that the source keeps in i64 are natural numbers where it has made
-- sure that they are not negative.
--
-- libs/playground-telemetry/src/propagation.rs carries identities and trace context between
-- services. Propagation/Bytes has its constants and its tests on bytes, Propagation/Percent its
-- decoding of baggage values, Propagation/Tenant the resolution of a tenant, Propagation/Headers
-- the reading of headers, Traceparent, Tracestate and Baggage their validation, Durable the whole
-- carrier, and Business the baggage of a context. Agreement, Refusal and Carried (over Trim) are
-- about tenants, Members, Grammar and Complete about carriers, Safety about baggage. Header maps
-- and contexts are the interfaces HeaderApi and ContextApi.
--
-- Table models a SQL table with a unique key as a list of rows; a statement that names the key
-- reaches the first row with it. Table/Replaces says that one row has become another without the
-- statement that did it. A transaction is a function from tables to a result: an error leaves the
-- tables as they were. Row locks and advisory locks serialise transactions on the same rows, so
-- transactions run one after another; `SKIP LOCKED` passes over rows that an argument names.
-- Times are numbers of microseconds, in pricing of milliseconds, and are arguments. Strings are
-- their UTF-8 bytes. The collation by which the database orders text is an argument. Integers are
-- natural numbers: the columns are checked to be non-negative, and the conversions to i32 and the
-- checked u32 sums of the source are written out. All loops recur on lists; only the printing of
-- a u64 in Pricing/Request runs on fuel, of twenty digits, which no u64 exceeds.
--
-- serde_json is the interface Json; the exchange with an endpoint or the broker, the encoding of
-- header values and the f64 arithmetic of promotions are arguments. Failures of the database
-- connection are not modelled, save that the notifications worker may fail to store a message or a
-- mark, and may abandon a job.
--
-- Not modelled: spans, metrics, pools, health handlers and the polling of the workers; checkout
-- but for its outbox and its check of quotes; the connection of pricing to Redis; orders,
-- storefront and recommendation; the rest of the telemetry library, which calls OpenTelemetry;
-- the command line; the Java services and the user interfaces.
pub mod Prelude
pub mod Propagation
pub mod Checkout
pub mod Pricing
pub mod Table
pub mod Inventory
pub mod Notifications
