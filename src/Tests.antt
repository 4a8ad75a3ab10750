-- ===== src/Tests.antt =====
-- Concrete inputs on which the theorems' hypotheses hold.
mod Fixtures
mod LedgerRuns
mod RefereeRuns
mod GateRuns
mod QuoteRuns
mod DoorRuns
mod ServerRuns
mod GraphRuns
mod WorkerRuns
mod BrainRuns
mod ServiceRuns
