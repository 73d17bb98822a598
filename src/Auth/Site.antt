-- ===== src/Auth/Site.antt =====
-- The requests on sessions as the code carries them out when nothing comes between its calls, and
-- when a table stands for a map of grants.
use Prim.Native.String.{◌++◌ as append}
use carbon_contractors_com.Prelude.{none, ℕ, ◌+◌, ◌≡◌, false, List, [], ◌∷◌, String}
use carbon_contractors_com.Store.{Machine}
use carbon_contractors_com.Auth.{Auth, Crypto}
use carbon_contractors_com.Auth.Sessions.{
  is_taken, mint_session, verify_session_token, revoke_session, revoke_all_sessions,
}
use carbon_contractors_com.Auth.Grants.{grants, Unlike}
use carbon_contractors_com.Auth.Promise.{
  Request, mint, check, revoke, revoke_everywhere, wait, Promise,
}

pub record Site : Type 0 where
  pub now : ℕ
  pub auth : Auth

abbrev pub machine : Site → List String → Machine Auth
machine a randoms = record { store = a.auth; now = a.now; turns = []; randoms = randoms }

abbrev pub site_of : Machine Auth → Site
site_of m = record { now = m.now; auth = m.store }

module _ (k : Crypto) where
  unfoldable pub handle : Request → Site → Site
  unfolding mint_session verify_session_token revoke_session revoke_all_sessions
  handle (mint wallet name random id) a =
      site_of (mint_session k wallet name (machine a (random ∷ id ∷ []))).1
  handle (check token) a = site_of (verify_session_token k token (machine a [])).1
  handle (revoke wallet id) a = site_of (revoke_session wallet id (machine a [])).1
  handle (revoke_everywhere wallet) a = site_of (revoke_all_sessions wallet (machine a [])).1
  handle (wait ms) a = record a { now = a.now + ms }

  -- A minted session has a hash and an id of its own.
  abbrev pub IsFresh : Request → Site → Type 0
  IsFresh (mint wallet name random id) a =
      is_taken id (k.hash_token (append "ccs_" random)) a.auth.sessions ≡ false
  IsFresh (check token) a = Unit
  IsFresh (revoke wallet id) a = Unit
  IsFresh (revoke_everywhere wallet) a = Unit
  IsFresh (wait ms) a = Unit

pub record Models (a : Site) (p : Promise) : Type 0 where
  pub now : a.now ≡ p.now
  pub unlike : Unlike a.auth.sessions
  pub agree : (h : String) → grants a.auth.sessions h ≡ p.grants h

-- No grants yet.
abbrev pub nothing : Site → Promise
nothing a = record { now = a.now; grants = λ h. none }
