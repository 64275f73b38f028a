-- ===== src/OAuth/Resource.antt =====
-- src/oauth/resource.ts: the resource indicator of authorize, code and refresh requests. The `URL`
-- parser and `toLowerCase` are parameters.
pub mod Cutover
use text.Mathlib.Text.{◌==◌, starts_with}
use stellara.Prelude.{
  ℕ, Bool, true, false, ◌&&◌, Option, none, some, List, String, if◌then◌else◌, ltb,
}
use stellara.Web.{Url}
use stellara.OAuth.Storage.{OAuthStorage, OAuthClientRow, get_client, get_or_initialize_meta}

abbrev pub resource_cutover_meta_key : String
resource_cutover_meta_key = "oauth_resource_required_since"

pub data ResourceValidation : Type 0 where
  invalid : String → ResourceValidation
  ok : String → Bool → ResourceValidation

-- `registration` of a `ResolvedClient`.
pub data Registration : Type 0 where
  cimd dcr : Registration

pub record ResolvedClient : Type 0 where
  pub client_id : String
  pub client_name : Option String
  pub redirect_uris : List String
  pub registration : Registration
  pub created_at : Option ℕ

abbrev pub is_dcr : Registration → Bool
is_dcr dcr = true
is_dcr cimd = false

abbrev pub created_before : Option ℕ → ℕ → Bool
created_before none cutover = false
created_before (some t) cutover = ltb t cutover

-- The marker of the cutover is read as a number once it is stored; `parse_number` is `none` for
-- what is no safe integer above 0, and then the call throws with the marker kept. The outer `none`
-- is the exception of the storage.
unfoldable pub initialize_resource_cutover :
    (String → Option ℕ) → String → OAuthStorage → Option (Option ℕ × OAuthStorage)
initialize_resource_cutover parse_number now st =
    elim (get_or_initialize_meta resource_cutover_meta_key now st) [
      | none ↦ none
      | some (persisted, st') ↦ some (parse_number persisted, st')
    ]

-- The branch that both validations share.
unfoldable pub match_requested : String → String → ResourceValidation
match_requested requested canonical =
    if requested == canonical
    then ok canonical false
    else invalid "resource does not match the protected MCP resource"

unfoldable pub validate_resolved_client_resource :
    ResolvedClient → Option String → String → ℕ → ResourceValidation
unfolding match_requested
validate_resolved_client_resource client (some requested) canonical cutover =
    match_requested requested canonical
validate_resolved_client_resource client none canonical cutover =
    if is_dcr client.registration && created_before client.created_at cutover
    then ok canonical true
    else invalid "resource is required"

module _ (parse_url : String → Option Url) (to_lower_case : String → String) where
  unfoldable pub is_https_identifier : String → Bool
  is_https_identifier value = elim (parse_url value) [
    | none ↦ starts_with (to_lower_case value) "https:"
    | some url ↦ url.protocol == "https:"
  ]

  unfoldable pub validate_bound_token_resource :
      OAuthStorage → String → Option String → String → ℕ → ResourceValidation
  unfolding match_requested
  validate_bound_token_resource st client_id (some requested) canonical cutover =
      match_requested requested canonical
  validate_bound_token_resource st client_id none canonical cutover =
      if is_https_identifier client_id
      then invalid "resource is required"
      else elim (get_client client_id st) [
        | none ↦ invalid "resource is required"
        | some client ↦
            if ltb client.created_at cutover
            then ok canonical true
            else invalid "resource is required"
      ]
