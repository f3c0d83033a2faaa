-- ===== src/Lib.antt =====
-- Agent00X keeps agents away from effects: a request passes a gateway, a policy decides on a signed
-- approval, a journal surrounds the one external effect, and stores record what happened. This
-- library models that control core, as the Python code is written.
--
-- Shared:
--   Prelude      text, tests on numbers, exceptions as `Result`, methods as `Outcome`
--   Values       the JSON-like values of Python, with its `==`, `isinstance` and `dict.get`
--   Tables       SQLite tables as lists of rows, the newest first
--   Clock, Host  `datetime`, and the library calls that the code relies on
-- Components, by the path of the source:
--   Workflow           src/app_contracts/state_machine.py: `transition`, with the relation `Edge` of
--                      allowed moves and runs of them
--   RuntimeSchema, RuntimeStore, RuntimeAudit
--                      src/app_contracts/runtime_store.py: tables, `create`, `get`, `advance` (as
--                      the read `plan` and the write `commit_plan`), `events`, `append_audit_event`,
--                      `audit_events`
--   Gateway            src/app_contracts/gateway.py: `classify`, `enforce`
--   Digests            src/app_contracts/digests.py: `canonical_json`, `sha256_digest`
--   ApprovalSignature  src/app_contracts/approval_signature.py
--   Authority          src/app_contracts/authority.py: `validate_approval`, `check_decision_usable`;
--                      Policy holds `PolicyConfig` and `DeterministicPolicy.decide`
--   Publication        Keys: src/app_contracts/publication_seed.py (branches, idempotency key);
--                      Separation: the parts of a key;
--                      Journal, Receipts, Execution: src/app_contracts/publication.py;
--                      MockGithub: src/app_contracts/mock_github.py;
--                      Actuator: src/app_contracts/actuator.py
--   Broker             src/app_contracts/broker.py: `validate_credential_use_grant`, the in-memory
--                      broker; Brokered: src/app_contracts/github_actuator.py
--   Chain              src/app_contracts/chain.py: `validate_chain` by its phases
--   Validator          src/app_contracts/validator.py: `validate_schema` (Schemas), `_validate` as
--                      `validate_value` (its tests of one value in Keywords), `validate`;
--                      Conforming is its specification
--   Observation        src/app_contracts/observation_store.py: Memory is `ObservationStore`, Sqlite
--                      and Pairs are `SQLiteObservationStore`, Dispatch is `run_gated_dispatch`;
--                      EventSchema, CheckpointSchema: schemas/*.json
--   Canary             src/app_contracts/secret_scan.py: `find_canary_surfaces`, the loop of
--                      `_contains_canary_bounded` as `scan` (Leaves holds the objects without
--                      members); Paths is its specification
--   Ledger             src/app_contracts/r5_attempt_ledger.py; Words holds its fixed words
--   Tests              runs on concrete inputs
--
-- How they interact: the state machine is called by the runtime store; the gateway writes to any
-- audit sink, of which the runtime store is one; the policy uses digests, signatures and a clock;
-- the journal is handed an endpoint, whose state and answers are arbitrary; the observation stores
-- validate every record against its schema, and a gated dispatch is handed a store and an effect.
--
-- The model: exceptions are values of `Result` with their class and message; an object is its state,
-- and a method returns what it leaves. A transaction that raises leaves the tables as they were.
-- Connections that interleave are sequences of reads and writes in RuntimeStore/Concurrency; the
-- calls of execute_publication are made one after the other. Every loop runs over a list or a text,
-- but for the canary scan, whose stack may grow: its fuel is two rounds for each of the 100000 nodes
-- that it may enter and a few more, which is enough.
--
-- Parameters (Host): SHA-256, Ed25519, ISO 8601 reading and printing, urlparse; and `re.search`, the
-- endpoint, the audit sink, the hook before a publication and the effect of a gated dispatch.
--
-- Not modelled: floats, but for what the canary scan prints of them, and the limit on the digits of
-- an integer that Python prints; time zones beyond aware or naive, and the range of `datetime`; files,
-- connections, pragmas and column migrations; SQLite's own failures and the range of its integers;
-- the values that the validator prints into messages, and the key order of records read back.
-- The other modules of src/app_contracts (verifier, snapshots, workers, observers, operator paths)
-- and scripts are left out: containers, networks, files and command lines around the core.

mod Prelude
pub mod Values
pub mod Workflow
pub mod Gateway
pub mod Broker
pub mod Chain
pub mod Validator
pub mod Observation
pub mod Canary
pub mod Digests
pub mod Publication
mod Tables
pub mod Clock
pub mod Host
pub mod ApprovalSignature
pub mod Authority
pub mod Ledger
mod Tests
pub mod RuntimeSchema
pub mod RuntimeStore
pub mod RuntimeAudit
