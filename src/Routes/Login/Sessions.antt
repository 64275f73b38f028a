-- ===== src/Routes/Login/Sessions.antt =====
-- The sessions that `POST /oauth/login` of routes/oauth/login.ts creates.
use stellara.Prelude.{
  ℕ, ◌+◌, true, false, Option, none, some, List, String, ◌⊎◌, inl, inr, ◌≡◌, refl, ap, arith,
  eq_iff, Option-cases,
}
use stellara.Texts.{has}
use stellara.OAuth.Storage.{OAuthStorage, OAuthSessionRow, get_session, insert_session}
use stellara.OAuth.Storage.Lookup.{get-insert_session}
use stellara.OAuth.Resource.{ResolvedClient}
use stellara.OAuth.Session.{SessionManager, create_session}
use stellara.Auth.{resolve_static_token_constant_time}
use stellara.Auth.Static.{resolve_static-get}
use stellara.Dict.{get}
use stellara.Dict.Laws.{IsUnique}
use stellara.Routes.Token.{App, scope_mcp}
use stellara.Routes.Authorize.{AuthorizeQuery, Lookup}
use stellara.Routes.Login.{
  LoginForm, LoginConfig, LoginLog, LoginReply, Revalidation, refused, valid, revalidate_form_state,
  log_in, handle_login,
}

Revalidation-cases :
    (r : Revalidation)
    → ((reply : LoginReply) × (r ≡ refused reply))
      ⊎ ((client : ResolvedClient) × (logs : List LoginLog) × (r ≡ valid client logs))
Revalidation-cases (refused reply) = inl (reply, refl)
Revalidation-cases (valid client logs) = inr (client, logs, refl)

revalidated :
    (app : App) (lookup : Lookup) (query : AuthorizeQuery) (client : ResolvedClient)
    (logs : List LoginLog)
    → revalidate_form_state app lookup query ≡ valid client logs
    → (lookup ≡ inr client)
      × (has query.redirect_uri client.redirect_uris ≡ true)
      × (query.scope ≡ scope_mcp)
unfolding revalidate_form_state
revalidated app (inl error) query client logs h = ground arith
revalidated app (inr resolved) query client logs h =
    let same : resolved ≡ client = ground arith in
    (ap inr same, ground arith, ground (arith, eq_iff query.scope scope_mcp))

module _ (parse_host : String → Option (String × String))
    (encode_query : List (String × String) → String) (digest : String → String) (app : App)
    (config : LoginConfig) (m : SessionManager) (fresh : String) (now now' : ℕ) where
  logged-session :
      (query : AuthorizeQuery) (user : String) (logs : List LoginLog) (st : OAuthStorage)
      (id : String) (row : OAuthSessionRow)
      → get_session id
          (log_in parse_host encode_query digest app config m fresh now now' query user logs
            st).storage
        ≡ some row
      → get_session id st ≡ none
      → (id ≡ fresh)
        × (row ≡ record {
          session_id = fresh;
          user_id = user;
          issued_at = now;
          expires_at = now + m.ttl_ms;
        })
  unfolding log_in create_session
  logged-session query user logs st id row h free =
      let new : OAuthSessionRow = record {
        session_id = fresh;
        user_id = user;
        issued_at = now;
        expires_at = now + m.ttl_ms;
      } in
      elim (Option-cases (insert_session new st)) [
        | inl e ↦ ground arith
        | inr (st', e) ↦
            let looked = get-insert_session id st new e in
            (ground (arith, looked, eq_iff fresh id), ground (arith, looked, eq_iff fresh id))
      ]

  -- A new session in the database is the fresh one, and then the token of the form is not among the
  -- revoked ones and the map of static tokens has it, the client resolved and registered the redirect
  -- URI, and the scope is "mcp". The session is for the user that the map has for the token and lasts
  -- for one lifetime. The map has no token twice, and no two texts are taken to have the same digest.
  pub handle_login-session :
      ((a b : String) → digest a ≡ digest b → a ≡ b)
      → IsUnique config.tokens
      → (lookup : Lookup) (body : LoginForm) (st : OAuthStorage) (id : String)
        (row : OAuthSessionRow)
      → get_session id
          (handle_login parse_host encode_query digest app config m fresh now now' lookup body
            st).storage
        ≡ some row
      → get_session id st ≡ none
      → (user : String) × (client : ResolvedClient) × (has body.token config.revoked_tokens ≡ false)
        × (get body.token config.tokens ≡ some user)
        × (lookup ≡ inr client)
        × (has body.query.redirect_uri client.redirect_uris ≡ true)
        × (body.query.scope ≡ scope_mcp)
        × (id ≡ fresh)
        × (row ≡ record {
          session_id = fresh;
          user_id = user;
          issued_at = now;
          expires_at = now + m.ttl_ms;
        })
  unfolding handle_login
  handle_login-session injective unique lookup body st id row h free =
      elim (Revalidation-cases (revalidate_form_state app lookup body.query)) [
        | inl (reply, e) ↦ ground arith
        | inr (client, logs, e) ↦
            let (resolved, registered, scope) = revalidated app lookup body.query client logs e in
            elim (Option-cases (
              resolve_static_token_constant_time digest body.token config.tokens
                config.revoked_tokens)) [
                  | inl unknown ↦ ground arith
                  | inr (user, known) ↦
                      let (own, written) =
                        logged-session body.query user logs st id row (ground arith) free in
                      let found =
                        resolve_static-get digest injective body.token config.tokens
                          config.revoked_tokens unique in
                      (
                        user,
                        client,
                        ground (arith, found),
                        ground (arith, found),
                        resolved,
                        registered,
                        scope,
                        own,
                        written,
                      )
                ]
      ]
