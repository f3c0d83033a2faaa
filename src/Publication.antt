-- ===== src/Publication.antt =====
-- The publication chain: names of branches and keys, the mock endpoint, the actuators, the journal.
pub mod Percent
pub mod Keys
pub mod Separation
pub mod Journal
pub mod Receipts
pub mod Execution
pub mod Actuator
pub mod Authorized
pub mod MockGithub
pub mod MockRetries
pub mod MockLookup
pub mod Preparation
pub mod Recovery
pub mod Matching
pub mod Counting
pub mod Lifecycle
pub mod Updates
pub mod Payments
pub mod OnlyOnce
pub mod Histories
pub mod Promises
