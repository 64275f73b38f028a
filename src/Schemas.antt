-- ===== src/Schemas.antt =====
-- The checks of src/schemas that the services share.
pub mod UrlGuard
