-- ===== src/OAuth.antt =====
-- src/oauth: the in-process authorization server.
pub mod Storage
pub mod Tokens
pub mod Codes
pub mod SourceLimit
pub mod Session
pub mod Resource
pub mod Keys
pub mod ClientDocument
pub mod ClientMetadata
pub mod Clients
pub mod Reconciliation
pub mod StaticTokens
pub mod Authorizations
