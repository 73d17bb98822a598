-- ===== src/Auth/Sessions.antt =====
-- Sessions, src/lib/auth/session.ts: minting, verification with its sliding window, the list, and
-- revocation.
use Prim.Native.String.{◌++◌ as append}
use carbon_contractors_com.Prelude.{
  ℕ, ◌+◌, ◌-◌, ◌*◌, Bool, not, ◌&&◌, ◌||◌, Option, none, some, List, [], ◌∷◌, String, same, lower,
  if◌then◌else◌, leb, ltb, length, first, any, select, update,
}
use carbon_contractors_com.World.{Result, ok, err, unique_violation}
use carbon_contractors_com.Store.{
  Machine, M, pure, date_now, draw, call, query, attempt, ◌>>=◌, ◌>>◌, write_store,
}
use carbon_contractors_com.Auth.{Session, Auth, Crypto, is_null}

abbrev pub session_ttl_seconds : ℕ
session_ttl_seconds = 30 * 24 * 60 * 60

abbrev pub scope_full : String
scope_full = "session:full"

abbrev pub slide_throttle_ms : ℕ
slide_throttle_ms = 60 * 60 * 1000

abbrev pub write_sessions : (List Session → List Session) → Machine Auth → Machine Auth
write_sessions f = write_store (λ a. record a { sessions = f a.sessions })

unfoldable pub has_hash : String → Session → Bool
has_hash h s = same s.token_hash h

unfoldable pub has_session_id : String → Session → Bool
has_session_id id s = same s.id id

-- The unique index on the hash, and the primary key.
unfoldable pub is_taken : String → String → List Session → Bool
unfolding has_hash has_session_id
is_taken id h rows = any (λ s. has_hash h s || has_session_id id s) rows

unfoldable pub new_session : String → String → String → Option String → ℕ → ℕ → Session
new_session id wallet h name expires_at now = record {
  id = id;
  wallet = lower wallet;
  token_hash = h;
  scopes = scope_full ∷ [];
  name = name;
  created_at = now;
  last_used_at = now;
  expires_at = expires_at;
  revoked_at = none;
}

unfoldable pub insert_session : String → String → String → Option String → ℕ → M Auth (Unit {0})
unfolding call is_taken new_session
insert_session id wallet h name expires_at =
    call (λ m. if is_taken id h m.store.sessions then err unique_violation else ok tt)
      (λ m.
        if is_taken id h m.store.sessions
        then m
        else write_sessions (λ rows. new_session id wallet h name expires_at m.now ∷ rows) m)

pub record Minted : Type 0 where
  pub token : String
  pub expires_at : ℕ

pub record VerifiedSession : Type 0 where
  pub wallet : String
  pub session_id : String
  pub scopes : List String
  pub expires_at : ℕ

-- A row that may authenticate at a time.
unfoldable pub is_live : ℕ → Session → Bool
is_live now s = is_null s.revoked_at && ltb now s.expires_at

unfoldable pub verified : Session → ℕ → VerifiedSession
verified s expires_at = record {
  wallet = s.wallet;
  session_id = s.id;
  scopes = s.scopes;
  expires_at = expires_at;
}

unfoldable pub slide_row : ℕ → ℕ → Session → Session
slide_row last next s = record s { last_used_at = last; expires_at = next }

unfoldable pub revoke_row : ℕ → Session → Session
revoke_row now s = record s { revoked_at = some now }

-- `new Date().toISOString()` and the row's new expiry, in one statement.
unfoldable pub slide : Session → ℕ → M Auth (Option VerifiedSession)
unfolding ◌>>=◌ call verified slide_row has_session_id
slide s next = do
  last ← date_now
  call (λ m. ok tt) (write_sessions (update (has_session_id s.id) (slide_row last next)))
  pure (some (verified s next))

unfoldable pub check_session : Option Session → M Auth (Option VerifiedSession)
unfolding ◌>>=◌ is_live slide
check_session none = pure none
check_session (some s) = do
  now ← date_now
  if not (is_live now s)
      then pure none
      else if ltb slide_throttle_ms (now - s.last_used_at)
      then slide s (now + session_ttl_seconds * 1000)
      else pure (some (verified s s.expires_at))

unfoldable pub is_own_live : String → ℕ → Session → Bool
unfolding is_live
is_own_live wallet now s = same s.wallet (lower wallet) && is_live now s

unfoldable pub is_own : String → String → Session → Bool
unfolding has_session_id
is_own wallet id s = has_session_id id s && same s.wallet (lower wallet)

unfoldable pub is_unrevoked_of : String → Session → Bool
is_unrevoked_of wallet s = same s.wallet (lower wallet) && is_null s.revoked_at

unfoldable pub place_session : Session → List Session → List Session
place_session s [] = s ∷ []
place_session s (t ∷ ts) =
    let rest = place_session s ts in if leb t.created_at s.created_at then s ∷ t ∷ ts else t ∷ rest

unfoldable pub newest_session_first : List Session → List Session
unfolding place_session
newest_session_first [] = []
newest_session_first (s ∷ ss) = place_session s (newest_session_first ss)

-- The caller's live sessions; a session that ends this very moment is not listed.
unfoldable pub list_sessions : String → M Auth (List Session)
unfolding ◌>>=◌ query is_own_live newest_session_first
list_sessions wallet = do
  now ← date_now
  query (λ m. newest_session_first (select (is_own_live wallet now) m.store.sessions))

unfoldable pub revoke_session : String → String → M Auth Bool
unfolding ◌>>=◌ call is_own revoke_row
revoke_session wallet id = do
  now ← date_now
  revoked ←
      call (λ m. ok (select (is_own wallet id) m.store.sessions))
        (write_sessions (update (is_own wallet id) (revoke_row now)))
  pure (ltb 0 (length revoked))

unfoldable pub revoke_all_sessions : String → M Auth ℕ
unfolding ◌>>=◌ call is_unrevoked_of revoke_row
revoke_all_sessions wallet = do
  now ← date_now
  revoked ←
      call (λ m. ok (select (is_unrevoked_of wallet) m.store.sessions))
        (write_sessions (update (is_unrevoked_of wallet) (revoke_row now)))
  pure (length revoked)

abbrev pub wallet_of : Result (Option VerifiedSession) → Option String
wallet_of (err e) = none
wallet_of (ok none) = none
wallet_of (ok (some v)) = some v.wallet

module _ (k : Crypto) where
  -- The token is a random hex text; the row's id is the database's own.
  unfoldable pub mint_session : String → Option String → M Auth Minted
  unfolding ◌>>=◌ insert_session
  mint_session wallet name = do
    random ← draw
    now ← date_now
    id ← draw
    let token = append "ccs_" random
    let expires_at = now + session_ttl_seconds * 1000
    insert_session id wallet (k.hash_token token) name expires_at
    pure (record { token = token; expires_at = expires_at })

  unfoldable pub verify_session_token : String → M Auth (Option VerifiedSession)
  unfolding ◌>>=◌ query has_hash check_session
  verify_session_token token = do
    found ← query (λ m. first (has_hash (k.hash_token token)) m.store.sessions)
    check_session found

  -- Never throws.
  unfoldable pub session_wallet : Option String → M Auth (Option String)
  unfolding ◌>>=◌ verify_session_token
  session_wallet none = pure none
  session_wallet (some token) = attempt (verify_session_token token) λ r. pure (wallet_of r)
