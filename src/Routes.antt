-- ===== src/Routes.antt =====
-- src/routes: the HTTP handlers.
pub mod Authorize
pub mod Login
pub mod Register
pub mod Token
