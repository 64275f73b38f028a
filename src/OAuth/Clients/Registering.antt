-- ===== src/OAuth/Clients/Registering.antt =====
-- What a registration of oauth/clients.ts stores, and what its client must send from then on.
use stellara.Prelude.{ℕ, List, [], ◌∷◌, Option, none, some, String, ◌≡◌, refl, arith, eq_iff, max}
use stellara.Web.{Url, Json, arr, texts, only_texts}
use stellara.OAuth.Storage.{OAuthStorage, OAuthClientRow, get_client, insert_client}
use stellara.OAuth.Storage.Lookup.{get-insert_client}
use stellara.OAuth.Resource.{is_https_identifier, validate_bound_token_resource}
use stellara.OAuth.Resource
use stellara.OAuth.Clients.{
  validate_redirect_uris, ClientRegistrationRequest, ClientRegistrationResponse,
  RegisterClientResult, invalid_redirect_uri, ok, rate_limited, ClientRegistrar, persist_and_shape,
  register_client, found, resolve_client, valid,
}

only_texts-texts : (ss : List String) → only_texts (texts ss) ≡ ss
unfolding only_texts
only_texts-texts [] = refl
only_texts-texts (s ∷ ss) = cc (only_texts-texts ss)

-- The row of a registration.
abbrev pub registered :
    (List String → String) → String → ClientRegistrationRequest → ℕ → ℕ → OAuthClientRow
registered stringify client_id request now since = record {
  client_id = client_id;
  client_name = request.client_name;
  redirect_uris = stringify request.redirect_uris;
  created_at = max now since;
  last_used_at = max now since;
}

-- Every outcome but a registration.
abbrev pub IsRefused : Option RegisterClientResult → Type 0
IsRefused (some (ok response)) = ⊥
IsRefused _ = Unit

module _ (parse_url : String → Option Url) (stringify : List String → String) (client_id : String)
    (now now' : ℕ) (request : ClientRegistrationRequest) (ip : String) (reg : ClientRegistrar)
    (st : OAuthStorage) where
  -- A registration that is rejected, limited or fails leaves the database as it was.
  pub register-refused :
      (result : Option RegisterClientResult) (reg' : ClientRegistrar) (st' : OAuthStorage)
      → IsRefused result
      → register_client parse_url stringify client_id now now' request ip (reg, st)
        ≡ (result, (reg', st'))
      → st' ≡ st
  unfolding register_client persist_and_shape
  register-refused none reg' st' refused h = ground arith
  register-refused (some (invalid_redirect_uri reason)) reg' st' refused h = ground arith
  register-refused (some (rate_limited seconds)) reg' st' refused h = ground arith
  register-refused (some (ok response)) reg' st' refused h = absurd refused

  pub register-ok_inserted :
      (response : ClientRegistrationResponse) (reg' : ClientRegistrar) (st' : OAuthStorage)
      → register_client parse_url stringify client_id now now' request ip (reg, st)
        ≡ (some (ok response), (reg', st'))
      → (insert_client (registered stringify client_id request now' reg.resource_required_since) st
          ≡ some st')
        × (response.client_id ≡ client_id)
        × (validate_redirect_uris parse_url request.redirect_uris ≡ valid)
  unfolding register_client persist_and_shape
  register-ok_inserted response reg' st' h = ground arith

  registered-lookup :
      (response : ClientRegistrationResponse) (reg' : ClientRegistrar) (st' : OAuthStorage)
      → register_client parse_url stringify client_id now now' request ip (reg, st)
        ≡ (some (ok response), (reg', st'))
      → get_client response.client_id st'
        ≡ some (registered stringify client_id request now' reg.resource_required_since)
  registered-lookup response reg' st' h =
      let (inserted, named, _) = register-ok_inserted response reg' st' h in
      ground (
        arith,
        named,
        get-insert_client client_id st
            (registered stringify client_id request now' reg.resource_required_since) inserted,
        (eq_iff client_id client_id).1 refl,
      )

  -- A registered client is found again under the id of the answer, with its name and its redirect
  -- URIs, given that the JSON parser reads back what was written.
  pub register-resolve :
      (parse_json : String → Option Json) (later : ℕ) (response : ClientRegistrationResponse)
      (reg' : ClientRegistrar) (st' : OAuthStorage)
      → parse_json (stringify request.redirect_uris) ≡ some (arr (texts request.redirect_uris))
      → register_client parse_url stringify client_id now now' request ip (reg, st)
        ≡ (some (ok response), (reg', st'))
      → (resolve_client parse_json response.client_id later st').0
        ≡ some (
            found response.client_id request.client_name
              (max now' reg.resource_required_since)
              request.redirect_uris)
  unfolding resolve_client
  register-resolve parse_json later response reg' st' parsed h =
      let (_, named, _) = register-ok_inserted response reg' st' h in
      ground (
        arith,
        named,
        registered-lookup response reg' st' h,
        parsed,
        only_texts-texts request.redirect_uris,
      )

  -- A client that registers with a registrar that knows the cutover is never given the legacy
  -- default, however the clock runs: its token requests must name the resource.
  pub register-requires_resource :
      (parse : String → Option Url) (lower : String → String) (canonical : String)
      (response : ClientRegistrationResponse) (reg' : ClientRegistrar) (st' : OAuthStorage)
      → register_client parse_url stringify client_id now now' request ip (reg, st)
        ≡ (some (ok response), (reg', st'))
      → validate_bound_token_resource parse lower st' response.client_id none canonical
          reg.resource_required_since
        ≡ Resource.invalid "resource is required"
  unfolding validate_bound_token_resource
  register-requires_resource parse lower canonical response reg' st' h =
      ground (arith, registered-lookup response reg' st' h)
