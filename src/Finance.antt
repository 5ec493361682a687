-- ===== src/Finance.antt =====
-- Finance: packages/domain/src/finance.ts.
pub mod Payment
pub mod Ledger
pub mod Secrets
