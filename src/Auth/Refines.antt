-- ===== src/Auth/Refines.antt =====
-- The sessions implement the map of grants: whatever sequence of requests, the answers to the
-- checks of tokens are those of the map.
use Prim.Native.String.{◌++◌ as append}
use carbon_contractors_com.Prelude.{
  ℕ, ◌+◌, ◌*◌, ◌≡◌, refl, ap, ◌∙◌, Bool, true, false, not, Option, none, List, [], ◌∷◌, String,
  same, lower, update, arith,
}
use carbon_contractors_com.World.{Result, ok}
use carbon_contractors_com.Store.{Machine}
use carbon_contractors_com.Auth.{Session, Auth, Crypto, is_null}
use carbon_contractors_com.Auth.Sessions.{
  VerifiedSession, is_taken, new_session, revoke_row, is_own, is_unrevoked_of, session_ttl_seconds,
  verify_session_token,
}
use carbon_contractors_com.Auth.Grants.{Grant, grant_of, grants, keep, grants-cons, grants-revoke}
use carbon_contractors_com.Auth.Promise.{
  Request, mint, check, revoke, revoke_everywhere, wait, Promise, is_of, promise, due,
}
use carbon_contractors_com.Auth.Site.{nothing, Site, machine, site_of, handle, IsFresh, Models}
use carbon_contractors_com.Auth.Unlike.{not_taken-IsUnlike, update-Unlike}
use carbon_contractors_com.Auth.Checks.{Answers, check-Answers, verify_lem}

module _ (k : Crypto) where
  minted : String → Option String → String → String → Site → Session
  unfolding new_session
  minted wallet name random id a =
      new_session id wallet (k.hash_token (append "ccs_" random)) name
        (a.now + session_ttl_seconds * 1000) a.now

  mint_lem :
      (wallet : String) (name : Option String) (random id : String) (a : Site)
      → is_taken id (k.hash_token (append "ccs_" random)) a.auth.sessions ≡ false
      → handle k (mint wallet name random id) a ≡ record a {
        auth = record a.auth { sessions = minted wallet name random id a ∷ a.auth.sessions };
      }
  unfolding handle minted
  mint_lem wallet name random id a fresh = rw fresh refl

  revoke-hash : (now : ℕ) (s : Session) → (revoke_row now s).token_hash ≡ s.token_hash
  unfolding revoke_row
  revoke-hash now s = refl

  revoke-id : (now : ℕ) (s : Session) → (revoke_row now s).id ≡ s.id
  unfolding revoke_row
  revoke-id now s = refl

  own-agrees :
      (wallet id : String) (s : Session)
      → is_null s.revoked_at ≡ true
      → is_own wallet id s ≡ not (not (is_of wallet id (grant_of s)))
  unfolding is_own grant_of
  own-agrees wallet id s e = ground arith

  unrevoked-agrees :
      (wallet : String) (s : Session)
      → is_null s.revoked_at ≡ true
      → is_unrevoked_of wallet s ≡ not (not (same (grant_of s).wallet (lower wallet)))
  unfolding is_unrevoked_of grant_of
  unrevoked-agrees wallet s e = ground arith

  revoked-Models :
      (p : Session → Bool) (q : Grant → Bool) (a : Site) (o : Promise)
      → ((s : Session) → is_null s.revoked_at ≡ true → p s ≡ not (q (grant_of s)))
      → Models a o
      → Models
          (record a {
            auth = record a.auth { sessions = update p (revoke_row a.now) a.auth.sessions };
          })
          (record o { grants = λ h. keep q (o.grants h) })
  revoked-Models p q a o agrees m = record {
    now = m.now;
    unlike =
        update-Unlike p (revoke_row a.now) (revoke-hash a.now) (revoke-id a.now) a.auth.sessions
          m.unlike;
    agree = λ j. grants-revoke p q a.now a.auth.sessions j agrees ∙ ap (keep q) (m.agree j);
  }

  mint-Models :
      (wallet : String) (name : Option String) (random id : String) (a : Site) (p : Promise)
      → IsFresh k (mint wallet name random id) a
      → Models a p
      → Models
          (record a {
            auth = record a.auth { sessions = minted wallet name random id a ∷ a.auth.sessions };
          })
          (promise k (mint wallet name random id) p)
  unfolding minted grant_of
  mint-Models wallet name random id a p fresh m = record {
    now = m.now;
    unlike = (
      not_taken-IsUnlike id (k.hash_token (append "ccs_" random)) (minted wallet name random id a)
          a.auth.sessions refl refl fresh,
      m.unlike,
    );
    agree = λ j.
        grants-cons (minted wallet name random id a) a.auth.sessions j refl
        ∙ rw (m.now, m.agree j) refl;
  }

  Answers-Models :
      (token : String) (a : Site) (p : Promise) (r : Result (Option VerifiedSession) × Machine Auth)
      → Answers k token a p r
      → Models (site_of r.1) (promise k (check token) p)
  unfolding Answers
  Answers-Models token a p (r, m) h = h.1

  Answers-due :
      (token : String) (a : Site) (p : Promise) (r : Result (Option VerifiedSession) × Machine Auth)
      → Answers k token a p r
      → r.0 ≡ ok (due k token p)
  unfolding Answers
  Answers-due token a p (r, m) h = h.0

  verify-Answers :
      (token : String) (a : Site) (p : Promise)
      → Models a p
      → Answers k token a p (verify_session_token k token (machine a []))
  verify-Answers token a p m = rw (verify_lem k token a _ refl) (check-Answers k token a p _ m refl)

  handle-Models :
      (r : Request) (a : Site) (p : Promise)
      → IsFresh k r a
      → Models a p
      → Models (handle k r a) (promise k r p)
  unfolding handle
  handle-Models (mint wallet name random id) a p fresh m =
      rw (mint_lem wallet name random id a fresh) (mint-Models wallet name random id a p fresh m)
  handle-Models (check token) a p fresh m = Answers-Models token a p _ (verify-Answers token a p m)
  handle-Models (revoke wallet id) a p fresh m =
      revoked-Models (is_own wallet id) (λ g. not (is_of wallet id g)) a p (own-agrees wallet id) m
  handle-Models (revoke_everywhere wallet) a p fresh m =
      revoked-Models (is_unrevoked_of wallet) (λ g. not (same g.wallet (lower wallet))) a p
        (unrevoked-agrees wallet) m
  handle-Models (wait ms) a p fresh m = record {
    now = ap (λ n. n + ms) m.now;
    unlike = m.unlike;
    agree = m.agree;
  }

  abbrev pub handle_all : List Request → Site → Site
  handle_all [] a = a
  handle_all (r ∷ rs) a = handle_all rs (handle k r a)

  abbrev pub promise_all : List Request → Promise → Promise
  promise_all [] p = p
  promise_all (r ∷ rs) p = promise_all rs (promise k r p)

  abbrev pub AllFresh : List Request → Site → Type 0
  AllFresh [] a = Unit
  AllFresh (r ∷ rs) a = IsFresh k r a × AllFresh rs (handle k r a)

  grants-nil : (h : String) → grants [] h ≡ none
  unfolding grants
  grants-nil h = refl

  all-Models :
      (rs : List Request) (a : Site) (p : Promise)
      → AllFresh rs a
      → Models a p
      → Models (handle_all rs a) (promise_all rs p)
  all-Models [] a p fresh m = m
  all-Models (r ∷ rs) a p (fresh, more) m =
      all-Models rs (handle k r a) (promise k r p) more (handle-Models r a p fresh m)

  -- From a table with no sessions, after any sequence of mints, checks, revocations and waits, with
  -- nothing between the calls of each and every random token and id new: a token authenticates
  -- exactly whom the map of grants says, and until when. The map gets a grant at a mint, for thirty
  -- days; a check that finds it unexpired renews it if an hour has passed since it was renewed;
  -- a revocation removes the grant of the id if it is the caller's, and one everywhere all of the
  -- caller's.
  pub verify_session_token-refines :
      (rs : List Request) (a : Site) (token : String)
      → a.auth.sessions ≡ []
      → AllFresh rs a
      → (verify_session_token k token (machine (handle_all rs a) [])).0
        ≡ ok (due k token (promise_all rs (nothing a)))
  verify_session_token-refines rs a token empty fresh =
      let start : Models a (nothing a) = record {
        now = refl;
        unlike = rw empty tt;
        agree = λ h. ap (λ rows. grants rows h) empty ∙ grants-nil h;
      } in
      Answers-due token _ _ _ (verify-Answers token _ _ (all-Models rs a (nothing a) fresh start))
