-- ===== src/Lib.antt =====
-- Stellara, a gateway of tools for language models: its OAuth server, its authentication, the pool
-- of browser sessions and the outbound fetch with its guard of URLs.
--
-- The parts and how they interact. Clients register (src/oauth/clients.ts), get an authorization
-- code (src/oauth/codes.ts) at the authorize endpoint (src/routes/oauth/authorize.ts) after a login
-- (src/routes/oauth/login.ts, src/oauth/session.ts), where the resolver of clients
-- (src/oauth/client-metadata.ts) finds them by registration or by a metadata document, and redeem
-- it at the token endpoint (src/routes/oauth/token.ts) for an access token and a refresh token,
-- which they rotate there (src/oauth/tokens.ts). The access tokens are signed with a key that the
-- first boot makes (src/oauth/keys.ts). All of these keep their state in one SQLite database
-- (src/oauth/storage.ts). At a boot the static tokens of the configuration are compared with the
-- last snapshot, and users who lost a token lose their authorizations
-- (src/oauth/static-token-state.ts, src/oauth/storage-reconciliation.ts). Every other request
-- passes the authentication hook (src/auth.ts), with a static token or an access token, and before
-- it the limit per address for requests without one (src/rate-limit.ts). The tools behind it use,
-- among others, a pool of browser sessions (src/services/playwright.ts,
-- src/services/playwright-pool.ts) and the outbound fetch (src/services/http-fetch.ts,
-- src/services/http-fetch-body.ts), which follows redirects to the URLs that the guard of
-- src/schemas/common.ts lets through.
--
-- Which file models which part:
--   Sql, Sql/*: the SQL statements that the code uses, on lists of rows with a primary key.
--   Dict, Dict/Laws: a JavaScript Map with text keys. Texts: a Set of texts. Web: URLs and JSON.
--   OAuth/Storage: the rows, the tables and one function for each statement of `OAuthStorage`.
--   OAuth/Tokens: `issueRefreshToken`, `rotateRefreshToken`.
--   OAuth/Codes: `issueAuthCode`, `exchangeAuthCode`, `safeEqual`.
--   OAuth/SourceLimit: src/oauth/client-metadata-rate-limit.ts, the limiter of metadata fetches.
--   OAuth/Session: `createSession`, `resolveSession`, `destroySession`.
--   OAuth/Resource: src/oauth/resource.ts, the resource indicator and its cutover.
--   OAuth/ClientDocument: src/oauth/client-metadata-document.ts, with its requests.
--   OAuth/ClientMetadata: src/oauth/client-metadata.ts as a machine over events, and
--     src/oauth/client-id.ts.
--   OAuth/Keys: src/oauth/keys.ts, the choice and the making of the signing key, with the document
--     of src/routes/oauth/jwks.ts.
--   OAuth/Clients: `registerClient`, `resolveClient`, `consumeBucket`, `validateRedirectUris`.
--   OAuth/Reconciliation: `reconcileSnapshotInTransaction`.
--   OAuth/StaticTokens: src/oauth/static-token-state.ts.
--   Routes/Token: both handlers of `POST /oauth/token`, with the reply, the log and the database.
--   Routes/Register: the handler of `POST /oauth/register`.
--   Routes/Authorize, Routes/Login: `GET /oauth/authorize` and `POST /oauth/login`;
--     Routes/Authorize/Flow goes from the login to the access token.
--   Auth: public paths, `parseBearerToken`, the static and the JWT resolution, the hook.
--   RateLimit: `recordUnauthHit` and the hook of `registerUnauthRateLimit` (src/rate-limit.ts).
--   Services/Browser: the pool as a machine over events; an event is what runs between two awaits.
--   OAuth/Authorizations: the abstract machine of codes and tokens, its moves, and the proofs
--     that the exchange and the rotation are moves of it; Routes/Token/Refinement does it for the
--     endpoint.
--   Services/FetchBody: `readBodyWithCap`, `decodeResponseBody`, `encodeRequestBody`.
--   Schemas/UrlGuard: `safeExternalUrl` and the checks of addresses and names below it.
--   Services/HttpFetch: `runHttpFetch` with the header rules, the redirect loop and the answer.
--   Texts/Split: `split` on a character, and a text behind a prefix.
--   Examples/*: the theorems at concrete inputs.
-- State is passed explicitly; an exception is `none` or a constructor of the result. A transaction
-- that throws leaves the database as it was, as better-sqlite3 rolls it back.
--
-- Parameters: random values, session ids and the time are arguments. SHA-256, the signature and the
-- verification of a JWT by jose, the URL and JSON parsers, UTF-8, base64, the order of `sort` and,
-- where its result is kept, `toLowerCase` are arguments of the definitions that call them.
--
-- Bounds: numbers are natural numbers, since times in milliseconds and all counts stay far below
-- 2^53; a subtraction that could be negative is explained where it stands. The redirect loop counts
-- the iterations that its condition leaves; they are never used up. Every other loop of the code
-- is a structural recursion on a list or a text.
--
-- Not modelled: the SQLite driver and the DDL, the Fastify wiring, the MCP server, the tools
-- and their schemas, the clients of Firecrawl, Exa, Qdrant and the embeddings backend, Playwright
-- itself, RDAP and WHOIS, the transport of client metadata documents, the markup of
-- the pages, and the configuration. The first ones are I/O or calls of
-- libraries.
pub mod Prelude
pub mod Sql
pub mod Dict
pub mod Web
pub mod Texts
pub mod OAuth
pub mod Routes
pub mod Auth
pub mod RateLimit
pub mod Schemas
pub mod Services
pub mod Examples
