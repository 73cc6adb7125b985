-- ===== src/Examples.antt =====
-- The theorems at concrete inputs, and runs of the definitions.
mod ClaimRuns
mod TriadRuns
mod CircuitRuns
mod LimiterRuns
mod RingRuns
mod LogRuns
mod ChairRuns
mod ReconcilerRuns
mod GovernorRuns
mod RateRuns
mod RetryRuns
mod HealerRuns
mod SanitizerRuns
mod HookRuns
mod BridgeRuns
mod MeshRuns
mod DispatchRuns
mod BusRuns
mod HubRuns
mod GateRuns
mod ConsensusRuns
mod EnvelopeRuns
