-- ===== src/Examples/Codes.antt =====
-- Issue and exchange of a code, and a refusal of each kind.
use stellara.Prelude.{[], ◌∷◌, none, some, String, ◌≡◌, refl, arith}
use stellara.Sql.{select, insert, delete, changes}
use stellara.OAuth.Storage.{
  OAuthStorage, OAuthCodeRow, empty, insert_refresh_token, get_code, insert_code, delete_code,
}
use stellara.OAuth.Storage.Invariant
use stellara.OAuth.Storage.Invariant.{Statement, run}
use stellara.OAuth.Tokens.{issue_refresh_token}
use stellara.OAuth.Codes.{
  ok, unknown, pkce_mismatch, ExchangeAuthCodeOptions, IssueAuthCodeOptions, issue_auth_code,
  code_row, exchange_auth_code, exchange_row, check_pkce, redeem, safe_equal,
}
use stellara.OAuth.Codes.Flow.{exchange_once, exchange_throws}

-- A function in the place of SHA-256.
abbrev s256 : String → String
s256 s = s

abbrev code : String
code = "code"

abbrev fresh : String
fresh = "r1"

abbrev u : String
u = "user"

abbrev c : String
c = "client"

abbrev sc : String
sc = "mcp"

abbrev i : IssueAuthCodeOptions
i = record {
  client_id = c;
  user_id = u;
  redirect_uri = "https://c/cb";
  scope = sc;
  code_challenge = "verifier";
  ttl_seconds = 600;
  now = 5;
}

abbrev row : OAuthCodeRow
row = code_row code i

abbrev issued : OAuthStorage
issued = record empty { oauth_codes = row ∷ [] }

abbrev o : ExchangeAuthCodeOptions
o = record {
  code = code;
  client_id = c;
  redirect_uri = "https://c/cb";
  code_verifier = "verifier";
  refresh_token_ttl_seconds = 60;
  now = 10;
}

abbrev wrong : ExchangeAuthCodeOptions
wrong = record o { code_verifier = "another" }

-- As many characters as the challenge, but more bytes.
abbrev longer : ExchangeAuthCodeOptions
longer = record o { code_verifier = "vérifier" }

abbrev exchanged : OAuthStorage
exchanged = record empty {
  oauth_refresh_tokens =
      record {
        token = fresh;
        client_id = c;
        user_id = u;
        scope = sc;
        issued_at = 10;
        expires_at = 60010;
        rotated_to = none;
      }
      ∷ [];
}

issue : issue_auth_code code i empty ≡ some (code, issued)
unfolding issue_auth_code insert_code insert select
issue = refl

exchange : exchange_auth_code s256 fresh o issued ≡ some (ok u c sc fresh, exchanged)
unfolding exchange_auth_code exchange_row check_pkce redeem safe_equal issue_refresh_token get_code
    delete_code insert_refresh_token select insert delete changes
exchange = refl

mismatch : exchange_auth_code s256 fresh wrong issued ≡ some (pkce_mismatch, issued)
unfolding exchange_auth_code exchange_row check_pkce redeem safe_equal issue_refresh_token get_code
    delete_code insert_refresh_token select insert delete changes
mismatch = refl

exchange_once_example :
    exchange_auth_code s256 fresh o (run (Invariant.delete_session c ∷ []) exchanged)
    ≡ some (unknown, run (Invariant.delete_session c ∷ []) exchanged)
exchange_once_example =
    exchange_once s256 fresh fresh o o issued exchanged u c sc fresh
      ((Invariant.delete_session c ∷ [])) exchange ((tt, tt)) refl

exchange_throws_example : exchange_auth_code s256 fresh longer issued ≡ none
unfolding get_code select
exchange_throws_example =
    exchange_throws s256 fresh longer issued row refl (omega arith) refl refl refl
      (λ e. omega (arith, e))
