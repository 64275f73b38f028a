-- ===== src/Services.antt =====
-- src/services: the clients of the upstream services.
pub mod Browser
pub mod FetchBody
pub mod HttpFetch
