-- ===== src/Identity.antt =====
-- Identity: packages/domain/src/identity.ts and packages/domain/src/authentication.ts.
pub mod Account
pub mod Contact
pub mod Laws
