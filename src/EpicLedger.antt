-- ===== src/EpicLedger.antt =====
-- packages/pipeline-cli/src/tools/epic-ledger: the structural floor of an epic's task ledger, the
-- gate that runs it and the convergence loop around the gate.
pub mod Ledger
pub mod Graph
pub mod Validate
pub mod Effects
pub mod Gate
pub mod Loop
mod Tests
