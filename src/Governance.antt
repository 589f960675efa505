-- ===== src/Governance.antt =====
-- Vote-escrowed locks, gauge votes and bribes: backend/services/governance_service.go.
pub mod Amounts
pub mod Tables
pub mod Power
pub mod Locks
pub mod Gauges
pub mod Bribes
pub mod Requests
pub mod Rules
pub mod Effects
pub mod Finding
pub mod Opening
pub mod Decay
pub mod Granting
pub mod Voting
pub mod Refinement
pub mod Ballots
pub mod Totals
pub mod Counting
pub mod Within
pub mod Holdings
pub mod Escrow
pub mod Reading
pub mod Shares
mod Tests
