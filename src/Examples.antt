-- ===== src/Examples.antt =====
-- The theorems on concrete inputs.
mod ClientMetadata
mod Codes
mod TokenRoute
mod UrlGuard
mod Auth
mod Browser
mod BrowserFlow
mod FetchBody
mod HttpFetch
mod Keys
mod Limits
mod StaticTokens
mod Clients
mod RateLimit
