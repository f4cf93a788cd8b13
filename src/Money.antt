-- ===== src/Money.antt =====
-- pkg/money/money.go: amounts of minor currency units, and their decimal form in the database.
pub mod Amount
pub mod Arithmetic
pub mod RoundTrip
