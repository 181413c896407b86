-- ===== src/Auth.antt =====
-- The OAuth provider of adapters/auth/provider.py over the documents of
-- adapters/outbound/document_auth_repository.py, which stand in the state store.
pub mod Records
pub mod Repository
pub mod Provider
pub mod SingleUse
pub mod Access
pub mod Rotation
pub mod Revocation
mod Tests
