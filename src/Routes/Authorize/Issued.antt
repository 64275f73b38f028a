-- ===== src/Routes/Authorize/Issued.antt =====
-- What `GET /oauth/authorize` of routes/oauth/authorize.ts issues and where it redirects.
use stellara.Prelude.{
  ℕ, ◌+◌, ◌*◌, ◌<◌, true, Option, none, some, List, String, ◌⊎◌, inl, inr, ◌≡◌, refl, ◌∙◌, arith,
  eq_iff, Option-cases,
}
use stellara.Texts.{has}
use stellara.OAuth.Storage.{
  OAuthStorage, OAuthSessionRow, OAuthCodeRow, get_code, get_session, insert_code, extend_session,
  delete_session,
}
use stellara.OAuth.Storage.Lookup.{get-insert_code}
use stellara.OAuth.Resource.{ResolvedClient}
use stellara.OAuth.Codes.{issue_auth_code, code_row}
use stellara.OAuth.Session.{SessionManager, ResolveSessionResult, resolve_session, resolve_row}
use stellara.Routes.Token.{App, scope_mcp}
use stellara.Routes.Authorize.{
  AuthorizeQuery, AuthorizeReply, AuthorizeLog, Lookup, Binding, bound, unbound,
  read_session_cookie, validate_resolved_binding, code_options, issue_code_and_redirect,
  continue_authorize, handle_authorize,
}

module _ (m : SessionManager) (id : String) (now : ℕ) (st : OAuthStorage) where
  pub resolve_session-ok :
      (u s : String) (e : ℕ)
      → (resolve_session m id now st).0 ≡ ResolveSessionResult.ok u s e
      → (row : OAuthSessionRow) × (get_session id st ≡ some row)
        × (now < row.expires_at)
        × (u ≡ row.user_id)
  unfolding resolve_session resolve_row
  resolve_session-ok u s e h = elim (Option-cases (get_session id st)) [
    | inl missing ↦ ground arith
    | inr (row, found) ↦ (row, found, ground arith, ground arith)
  ]

  pub resolve_session-codes :
      (c : String) → get_code c (resolve_session m id now st).1 ≡ get_code c st
  unfolding resolve_session resolve_row get_code extend_session delete_session
  resolve_session-codes c = ground arith

pub Session-cases :
    (r : ResolveSessionResult)
    → ((u s : String) × (e : ℕ) × (r ≡ ResolveSessionResult.ok u s e))
      ⊎ (r ≡ ResolveSessionResult.expired)
      ⊎ (r ≡ ResolveSessionResult.unknown)
Session-cases (ResolveSessionResult.ok u s e) = inl (u, s, e, refl)
Session-cases ResolveSessionResult.expired = inr (inl refl)
Session-cases ResolveSessionResult.unknown = inr (inr refl)

pub Binding-cases :
    (b : Binding)
    → ((reply : AuthorizeReply) × (b ≡ unbound reply))
      ⊎ ((logs : List AuthorizeLog) × (b ≡ bound logs))
Binding-cases (unbound reply) = inl (reply, refl)
Binding-cases (bound logs) = inr (logs, refl)

cookie-only :
    (cookie : Option String) (id : String) → read_session_cookie cookie ≡ some id → cookie ≡ some id
unfolding read_session_cookie
cookie-only none id h = ground arith
cookie-only (some raw) id h = ground arith

module _ (with_params : String → List (String × String) → Option String) (app : App) where
  pub binding-bound :
      (query : AuthorizeQuery) (client : ResolvedClient) (logs : List AuthorizeLog)
      → validate_resolved_binding with_params app query client ≡ bound logs
      → (has query.redirect_uri client.redirect_uris ≡ true) × (query.scope ≡ scope_mcp)
  unfolding validate_resolved_binding
  binding-bound query client logs h = (ground arith, ground (arith, eq_iff query.scope scope_mcp))

  issued-code :
      (fresh : String) (now : ℕ) (query : AuthorizeQuery) (user : String) (logs : List AuthorizeLog)
      (st : OAuthStorage) (c : String) (row : OAuthCodeRow)
      → get_code c (issue_code_and_redirect with_params app fresh now query user logs st).storage
        ≡ some row
      → get_code c st ≡ none
      → (c ≡ fresh) × (row ≡ code_row fresh (code_options app query user now))
  unfolding issue_code_and_redirect issue_auth_code
  issued-code fresh now query user logs st c row h free =
      let new = code_row fresh (code_options app query user now) in
      elim (Option-cases (insert_code new st)) [
        | inl e ↦ ground arith
        | inr (st', e) ↦
            let looked = get-insert_code c st new e in
            (ground (arith, looked, eq_iff fresh c), ground (arith, looked, eq_iff fresh c))
      ]

  module _ (parse_host : String → Option (String × String)) (m : SessionManager) (fresh : String)
      (now now' : ℕ) (cookie : Option String) (query : AuthorizeQuery) where
    -- A session that a cookie names and that is live.
    abbrev pub HasSession : OAuthStorage → String → Type 0
    HasSession st user =
        (id : String) × (session : OAuthSessionRow) × (cookie ≡ some id)
        × (get_session id st ≡ some session)
        × (now < session.expires_at)
        × (user ≡ session.user_id)

    continued-code :
        (client : ResolvedClient) (logs : List AuthorizeLog) (st : OAuthStorage) (c : String)
        (row : OAuthCodeRow)
        → get_code c
            (continue_authorize with_params app parse_host m fresh now now' cookie query client logs
              st).storage
          ≡ some row
        → get_code c st ≡ none
        → (user : String) × HasSession st user
          × (c ≡ fresh)
          × (row ≡ code_row fresh (code_options app query user now'))
    unfolding continue_authorize
    continued-code client logs st c row h free = elim (Option-cases (read_session_cookie cookie)) [
      | inl e ↦ ground arith
      | inr (id, e) ↦
          let kept = resolve_session-codes m id now st c in
          elim (Session-cases (resolve_session m id now st).0) [
            | inl (u, s, end, live) ↦
                let (session, found, before, same) = resolve_session-ok m id now st u s end live in
                let (own, written) =
                  issued-code fresh now' query u logs (resolve_session m id now st).1 c row
                    (ground arith) (kept ∙ free) in
                (u, (id, session, cookie-only cookie id e, found, before, same), own, written)
            | inr (inl over) ↦ ground arith
            | inr (inr missing) ↦ ground arith
          ]
    ]

    -- A new code in the database is the fresh one, and then the client resolved and registered the
    -- redirect URI, the scope is "mcp", and the cookie names a live session. The code is for the user
    -- of that session and for the client, the redirect URI, the scope and the challenge of the query,
    -- and it lasts for ten minutes.
    pub handle_authorize-code :
        (lookup : Lookup) (st : OAuthStorage) (c : String) (row : OAuthCodeRow)
        → get_code c
            (handle_authorize with_params app parse_host m fresh now now' lookup cookie query
              st).storage
          ≡ some row
        → get_code c st ≡ none
        → (client : ResolvedClient) × (user : String) × (lookup ≡ inr client)
          × (has query.redirect_uri client.redirect_uris ≡ true)
          × (query.scope ≡ scope_mcp)
          × HasSession st user
          × (c ≡ fresh)
          × (row ≡ record {
            code = fresh;
            client_id = query.client_id;
            user_id = user;
            code_challenge = query.code_challenge;
            redirect_uri = query.redirect_uri;
            scope = query.scope;
            expires_at = now' + 600 * 1000;
          })
    unfolding handle_authorize
    handle_authorize-code (inl error) st c row h free = ground arith
    handle_authorize-code (inr client) st c row h free =
        elim (Binding-cases (validate_resolved_binding with_params app query client)) [
          | inl (reply, e) ↦ ground arith
          | inr (logs, e) ↦
              let (registered, scope) = binding-bound query client logs e in
              let (user, session, own, written) =
                continued-code client logs st c row (ground arith) free in
              (client, user, refl, registered, scope, session, own, written)
        ]
