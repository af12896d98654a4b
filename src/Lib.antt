-- ===== src/Lib.antt =====
-- The hosted x402 facilitator of src/hosted_facilitator/hosted: a seller's HTTP service sends an
-- x402 payment; the facilitator checks it, claims a settlement record for it, has a provider settle
-- it on chain, and records the outcome. Workers reconcile records whose outcome is open, under
-- leases; operators act on single records.
--
-- Parts, files, and the code that they model:
-- - Common: Python's dict, exceptions as values with the state left behind (`Action`), Boolean
--   tests, lists measured by native numbers, and relations between the rows of two tables.
-- - Json: decoded JSON objects.
-- - Settlement: the data of src/hosted_facilitator/hosted/storage.py. Status has the enumerations and
--   `_claim_for_status`, Identity the keys of a record, Redaction `_safe_requirements`.
-- - MemoryStore: `InMemorySettlementStore` (storage.py); Invariant is its well-formedness, Claims the
--   cases of a claim, Trace any sequence of calls; Queries are its read-only methods, and Reports what
--   they report.
-- - Postgres: `PostgresSettlementStore` (src/hosted_facilitator/hosted/postgres.py) as functions on its
--   two tables. Claim: claims and attempts; Finalize: the engine's transitions; Lease and
--   Reconcile: the reconcilers' leases and transitions; Operator: the operators' locked actions.
--   Transition is the diagram of statuses and what one step may do to a row; Steps and OperatorSteps
--   say it of each operation; Trace and Lifecycle of any interleaving; Once counts grants. Updates
--   is about the rows that an UPDATE reaches, Leases about what a lease denies, and Holder about
--   what it guarantees.
-- - RateLimit: the fixed-window limiter of src/hosted_facilitator/hosted/limits.py. Buckets are the
--   counters that a request is charged to, Bounds one check, Window sequences of requests; Distinct
--   and Minutes are about the keys and windows of buckets, Verdict about when a request is allowed.
--   Redis is `RedisFixedWindowRateLimiter` with its Lua script, Script is about the script, and Shared
--   compares the two limiters.
-- - Engine: `HostedFacilitatorEngine.settle` (src/hosted_facilitator/hosted/engine.py) over the Postgres
--   store and the limiter. Answers are its cached outcomes, Outcomes what is recorded when it answers,
--   Submission what reaches a provider.
-- - Reconciler: `HostedSettlementReconciler` (src/hosted_facilitator/hosted/reconciliation.py) over the
--   Postgres store. Scan is `_scan_candidates`, Counts what the statistics of a run account for.
-- - Tenancy: payment profiles and seller accounts (src/hosted_facilitator/hosted/tenancy.py); Resolver is
--   `StaticSellerAccountResolver`, Keys what a key gives access to.
-- - Router: `ProviderRouter` (src/hosted_facilitator/hosted/router.py); Admission is what it lets through.
-- - Validation: src/hosted_facilitator/hosted/validation.py; Numerals are the library calls of it and of
--   the fingerprint, Agreement what a valid envelope agrees on.
-- - Fingerprint: src/hosted_facilitator/hosted/fingerprint.py; Spelling is what a fingerprint does not
--   depend on.
-- - ControlPlane: `InMemoryControlPlaneState` (src/hosted_facilitator/hosted/control_plane.py); Names are
--   the texts that it lets in, Postgres is `PostgresControlPlaneState` (postgres.py), and Refinement
--   compares the two. The Postgres one answers a pause with the row that it reads back, and makes its
--   texts safe a second time (`event_from_row`).
-- - Application: the handlers of /verify and /settle (src/hosted_facilitator/hosted/app.py); Admission is
--   when they answer what the engine returned, Penalties what they charge to a client; Supported are
--   the kinds that /supported lists, and Offers what those have passed.
-- - Operators: the authorisation of operators' tokens (src/hosted_facilitator/hosted/auth.py); Granted is
--   whom it grants an operation.
-- - Runner: the reconciliation loop of src/hosted_facilitator/hosted/runner.py; Ends is its end.
-- - Nanopayments: the messages of src/hosted_facilitator/nanopayments/types.py; Payload is the payment
--   payload, RoundTrip what is read back.
-- - Scenarios: concrete runs.
--
-- The stores answer `claim_for_settlement` and the `mark_*` calls; the engine calls them around the
-- provider's answer, and reconcilers and operators call them in between. So a transaction of Postgres
-- is one step on the database (the row locks and the advisory lock of a payment serialize
-- what conflicts), `settle` is two steps, and the theorems about runs quantify over every sequence of
-- steps. A raise inside a transaction leaves the database as it was.
--
-- A request to /settle passes the handler of Application, which asks the resolver of Tenancy for an
-- access, the control plane for a pause, and then the engine; the engine asks Validation, Router,
-- Fingerprint and RateLimit. The handlers and the engine take what they call as a record of
-- operations (`Services`, `Routing`), so that each part is proved on its own.
--
-- Representation: times and ids are natural numbers; a reading of the clock is an argument. A limit
-- is a natural number. SQL NULL and Python None are `none`. The scheme or network of
-- requirements that is no string is read as absent by the engine. Only the loop of the runner needs
-- fuel, since it may run for ever; with `max_runs` set, that many iterations are enough. Each other
-- loop is recursion on a list, and the scan of a run on its limit, which is the range it loops over.
--
-- A record that the engine finds for a payment is answered by its status alone, also where it was
-- found by its provider fingerprint under another payment profile.
--
-- Parameters: `hashlib.sha256`, `json.dumps`, `decimal`, `repr` and `int`, `==` of decoded values, the methods of `str`
-- (`lower`, `strip`, `isalnum`, `isdigit`, `split`), `ipaddress`, the Redis server, uuid4, what a
-- provider says of itself and answers, the limiter's decisions as the engine and the handlers get
-- them, and the engine's `Routing`.
--
-- Not modelled: the SQLite store, the Postgres store's read-only queries, the seller resolver and the
-- seller events of Postgres, the routes of the control plane and of operations,
-- the JWKS and OpenFGA clients, telemetry, signers, the client of the Circle gateway, and the providers,
-- which call the chain.
pub mod Common
pub mod Json
pub mod Settlement
pub mod MemoryStore
pub mod Postgres
pub mod RateLimit
pub mod Engine
pub mod Scenarios
pub mod Reconciler
pub mod Tenancy
pub mod Router
pub mod Validation
pub mod Fingerprint
pub mod ControlPlane
pub mod Application
pub mod Nanopayments
pub mod Runner
pub mod Operators
