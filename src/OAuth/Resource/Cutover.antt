-- ===== src/OAuth/Resource/Cutover.antt =====
-- The one-way cutover of oauth/resource.ts.
use stellara.Prelude.{ℕ, Option, some, String, ◌≡◌, arith, Option-cases, inl, inr}
use stellara.Sql.{insert}
use stellara.OAuth.Storage.{OAuthStorage, get_meta, insert_or_ignore_meta, get_or_initialize_meta}
use stellara.OAuth.Resource.{initialize_resource_cutover, resource_cutover_meta_key}

present-kept :
    (key value v : String) (st : OAuthStorage)
    → get_meta key st ≡ some v
    → get_or_initialize_meta key value st ≡ some (v, st)
unfolding get_or_initialize_meta insert_or_ignore_meta get_meta insert
present-kept key value v st h = ground arith

initialized :
    (key value v : String) (st : OAuthStorage) {st' : OAuthStorage}
    → get_or_initialize_meta key value st ≡ some (v, st')
    → get_meta key st' ≡ some v
unfolding get_or_initialize_meta
initialized key value v st h = ground arith

-- After a call of the initialization that does not throw in the storage, a second call with whatever
-- time answers the same, also where the answer is that the marker is no number, and changes nothing.
pub cutover_once :
    (parse_number : String → Option ℕ) (now later : String) (st : OAuthStorage) {st' : OAuthStorage}
    (answer : Option ℕ)
    → initialize_resource_cutover parse_number now st ≡ some (answer, st')
    → initialize_resource_cutover parse_number later st' ≡ some (answer, st')
unfolding initialize_resource_cutover
cutover_once parse_number now later st {st'} answer h =
    elim (Option-cases (get_or_initialize_meta resource_cutover_meta_key now st)) [
      | inl failed ↦ cc (rw (failed, initialize_resource_cutover) at h)
      | inr ((v, s), done) ↦ ground (
        arith,
        done,
        present-kept resource_cutover_meta_key later v s
            (initialized resource_cutover_meta_key now v st done),
      )
    ]
