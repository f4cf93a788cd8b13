-- ===== src/Sql.antt =====
-- db/sqlcore/rebind.go: the scanner of raw statements and the rewriting of placeholders.
pub mod Scan
pub mod Rebind
pub mod Pieces
