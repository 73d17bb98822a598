-- ===== src/Auth/Promise.antt =====
-- What the sessions of src/lib/auth/session.ts are to look like from outside: a map from the hash of
-- a token to a grant, and what each request does to the map.
use Prim.Native.String.{◌++◌ as append}
use carbon_contractors_com.Prelude.{
  ℕ, ◌+◌, ◌-◌, ◌*◌, Bool, not, ◌&&◌, Option, none, some, [], ◌∷◌, String, same, lower,
  if◌then◌else◌, ltb,
}
use carbon_contractors_com.Auth.{Crypto}
use carbon_contractors_com.Auth.Sessions.{
  VerifiedSession, session_ttl_seconds, slide_throttle_ms, scope_full,
}
use carbon_contractors_com.Auth.Grants.{Grant, Grants, put, keep}

pub data Request : Type 0 where
  -- The random token and the id that the database gives are the environment's.
  mint : (wallet : String) (name : Option String) (random id : String) → Request
  check : (token : String) → Request
  revoke : (wallet id : String) → Request
  revoke_everywhere : (wallet : String) → Request
  wait : ℕ → Request

pub record Promise : Type 0 where
  pub now : ℕ
  pub grants : Grants

abbrev pub extended : Grant → ℕ → Grant
extended g now = record g { last_used_at = now; expires_at = now + session_ttl_seconds * 1000 }

abbrev pub shown : Grant → VerifiedSession
shown g = record {
  wallet = g.wallet;
  session_id = g.session_id;
  scopes = g.scopes;
  expires_at = g.expires_at;
}

abbrev pub shown_if : Option Grant → Option VerifiedSession
shown_if none = none
shown_if (some g) = some (shown g)

abbrev pub is_of : String → String → Grant → Bool
is_of wallet id g = same g.session_id id && same g.wallet (lower wallet)

abbrev pub granted : Promise → Option Grant → Option Grant
granted a none = none
granted a (some g) =
    if not (ltb a.now g.expires_at)
    then none
    else if ltb slide_throttle_ms (a.now - g.last_used_at)
    then some (extended g a.now)
    else some g

abbrev pub put_granted : String → Option Grant → Promise → Promise
put_granted h none a = a
put_granted h (some g) a = record a { grants = put h g a.grants }

module _ (k : Crypto) where
  abbrev pub promise : Request → Promise → Promise
  promise (mint wallet name random id) a = record a {
    grants =
        put (k.hash_token (append "ccs_" random))
          (record {
            session_id = id;
            wallet = lower wallet;
            scopes = scope_full ∷ [];
            last_used_at = a.now;
            expires_at = a.now + session_ttl_seconds * 1000;
          })
          a.grants;
  }
  promise (check token) a =
      put_granted (k.hash_token token) (granted a (a.grants (k.hash_token token))) a
  promise (revoke wallet id) a = record a {
    grants = λ h. keep (λ g. not (is_of wallet id g)) (a.grants h);
  }
  promise (revoke_everywhere wallet) a = record a {
    grants = λ h. keep (λ g. not (same g.wallet (lower wallet))) (a.grants h);
  }
  promise (wait ms) a = record a { now = a.now + ms }

  -- What a check of a token is to answer.
  abbrev pub due : String → Promise → Option VerifiedSession
  due token a = shown_if (granted a (a.grants (k.hash_token token)))
