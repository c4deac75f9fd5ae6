-- ===== src/Session.antt =====
-- The charging session of internal/sbi/processor/converged_charging.go: rating and reservation of the
-- used and requested units (`sessionChargingReservation`).
pub mod Peers
pub mod Scan
pub mod Messages
pub mod Reserve
pub mod Debit
pub mod Loop
pub mod Money
pub mod Settle
pub mod Elsewhere
pub mod Untouched
pub mod Counted
pub mod Usage
pub mod Grants
mod Tests
