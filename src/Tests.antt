-- ===== src/Tests.antt =====
-- Runs of the model on concrete inputs, and the theorems at inputs that meet their hypotheses.
mod WorkflowRuns
mod StoreRuns
mod LedgerRuns
mod DigestRuns
mod GatewayRuns
mod AuthorityRuns
mod PublicationRuns
mod MockRuns
mod ActuatorRuns
mod BrokerRuns
mod ChainRuns
mod ObservationRuns
mod CanaryRuns
