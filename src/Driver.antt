-- ===== src/Driver.antt =====
-- The Driver: packages/domain/src/driver-daily-operations.ts, driver-operations.ts and
-- driver-fair-treatment.ts.
pub mod Fatigue
pub mod Daily
pub mod Operations
pub mod FairTreatment
