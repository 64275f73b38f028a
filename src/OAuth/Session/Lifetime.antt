-- ===== src/OAuth/Session/Lifetime.antt =====
-- How long a session of oauth/session.ts lives, and whom it belongs to.
use stellara.Prelude.{
  ℕ, ◌+◌, ◌-◌, ◌≤◌, ◌<◌, none, some, String, ◌≡◌, refl, arith, eq_iff, inl, inr, Bool-cases, ltb,
  ◌⊎◌, ◌≢◌, ltb→lt,
}
use stellara.OAuth.Storage.{OAuthStorage, OAuthSessionRow, insert_session, get_session}
use stellara.OAuth.Storage.Lookup.{get-insert_session, get-extend_session, get-delete_session}
use stellara.OAuth.Session.{
  SessionManager, expired, ok, unknown, create_session, resolve_row, resolve_session,
  destroy_session,
}

module _ (m : SessionManager) (id : String) (now : ℕ) (st : OAuthStorage) where
  -- A stored session whose end is still to come is accepted: the answer names its user, and the
  -- row that is left is the same but for its end, which is the one that is reported. The end is a
  -- full lifetime from now if the session has less left than the lifetime without the threshold, and
  -- the one before otherwise; it is never earlier than before.
  pub resolve-live :
      (row : OAuthSessionRow)
      → get_session id st ≡ some row
      → now < row.expires_at
      → (e : ℕ) × ((resolve_session m id now st).0 ≡ ok row.user_id id e)
        × (get_session id (resolve_session m id now st).1 ≡ some (record row { expires_at = e }))
        × (row.expires_at ≤ e)
        × (((row.expires_at + m.sliding_threshold_ms < now + m.ttl_ms) × (e ≡ now + m.ttl_ms))
            ⊎ ((now + m.ttl_ms ≤ row.expires_at + m.sliding_threshold_ms) × (e ≡ row.expires_at)))
  unfolding resolve_session resolve_row
  resolve-live row found live =
      rw (found, resolve_session)
        (elim (Bool-cases (ltb (row.expires_at - now) (m.ttl_ms - m.sliding_threshold_ms))) [
          | inl old ↦ (
            now + m.ttl_ms,
            ground arith,
            ground (arith, get-extend_session id st id (now + m.ttl_ms), (eq_iff id id).1 refl),
            omega (arith, ltb→lt _ _ old),
            inl (omega (arith, ltb→lt _ _ old), refl),
          )
          | inr young ↦ (
            row.expires_at,
            ground arith,
            ground arith,
            omega arith,
            inr (ground (arith, live), refl),
          )
        ])

  -- From its end on a session is refused and deleted.
  pub resolve-over :
      (row : OAuthSessionRow)
      → get_session id st ≡ some row
      → row.expires_at ≤ now
      → ((resolve_session m id now st).0 ≡ expired)
        × (get_session id (resolve_session m id now st).1 ≡ none)
  unfolding resolve_session resolve_row
  resolve-over row found over =
      (ground arith, ground (arith, get-delete_session id st id, (eq_iff id id).1 refl))

  -- No call touches another session.
  pub resolve-others :
      (other : String)
      → id ≢ other
      → get_session other (resolve_session m id now st).1 ≡ get_session other st
  unfolding resolve_session resolve_row
  resolve-others other apart = ground (
    arith,
    eq_iff id other,
    get-extend_session other st id (now + m.ttl_ms),
    get-delete_session other st id,
  )

unknown_of_absent :
    (m : SessionManager) (id : String) (now : ℕ) (st : OAuthStorage)
    → get_session id st ≡ none
    → (resolve_session m id now st).0 ≡ unknown
unfolding resolve_session
unknown_of_absent m id now st h = rw (h, resolve_session)

created-row :
    (m : SessionManager) (id : String) (now : ℕ) (user : String) (st : OAuthStorage)
    {st' : OAuthStorage} (e : ℕ)
    → create_session m id now user st ≡ some ((id, e), st')
    → (e ≡ now + m.ttl_ms)
      × (get_session id st'
          ≡ some (record {
            session_id = id;
            user_id = user;
            issued_at = now;
            expires_at = now + m.ttl_ms;
          }))
unfolding create_session
created-row m id now user st {st'} e h =
    let row : OAuthSessionRow = record {
      session_id = id;
      user_id = user;
      issued_at = now;
      expires_at = now + m.ttl_ms;
    } in
    let inserted : insert_session row st ≡ some st' = ground arith in
    (ground arith, ground (arith, get-insert_session id st row inserted, (eq_iff id id).1 refl))

-- A session that was just created is accepted for its user at every time before its end, which is
-- one lifetime from its creation, and is refused as unknown once it is destroyed.
pub create-resolve :
    (m : SessionManager) (id : String) (now : ℕ) (user : String) (st : OAuthStorage) (later : ℕ)
    {st' : OAuthStorage} (e : ℕ)
    → create_session m id now user st ≡ some ((id, e), st')
    → later < now + m.ttl_ms
    → (e ≡ now + m.ttl_ms)
      × ((e' : ℕ) × ((resolve_session m id later st').0 ≡ ok user id e'))
      × ((resolve_session m id later (destroy_session id st').1).0 ≡ unknown)
unfolding destroy_session
create-resolve m id now user st later {st'} e h live =
    let (end, found) = created-row m id now user st e h in
    let (e', answer, _, _, _) = resolve-live m id later st' _ found live in
    (
      end,
      (e', answer),
      unknown_of_absent m id later _
          (ground (arith, get-delete_session id st' id, (eq_iff id id).1 refl)),
    )
