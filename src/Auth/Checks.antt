-- ===== src/Auth/Checks.antt =====
-- One check of a token, against the map of grants.
use carbon_contractors_com.Prelude.{
  ℕ, ◌+◌, ◌-◌, ◌*◌, ◌≡◌, refl, sym, ap, ◌∙◌, true, false, Option, none, some, [], String, same,
  same_iff, ltb, first, update, arith, Bool-cases, inl, inr,
}
use carbon_contractors_com.World.{Result, ok}
use carbon_contractors_com.Store.{Machine}
use carbon_contractors_com.Auth.{Session, Auth, Crypto, is_null}
use carbon_contractors_com.Auth.Sessions.{
  VerifiedSession, has_hash, has_session_id, is_live, slide_row, session_ttl_seconds,
  slide_throttle_ms, verified, verify_session_token, check_session,
}
use carbon_contractors_com.Auth.Grants.{
  Grant, Grants, grant_of, grant_if, grants, put, grants-slide,
}
use carbon_contractors_com.Auth.Promise.{check, Promise, extended, shown, granted, promise, due}
use carbon_contractors_com.Auth.Site.{Site, machine, site_of, Models}
use carbon_contractors_com.Auth.Unlike.{update-Unlike}

module _ (k : Crypto) where
  -- What a check of the row of a hash does.
  check-none : (a : Site) → check_session none (machine a []) ≡ (ok none, machine a [])
  unfolding check_session
  check-none a = refl

  slid : Site → Session → Site
  slid a s = record a {
    auth = record a.auth {
      sessions =
          update (has_session_id s.id) (slide_row a.now (a.now + session_ttl_seconds * 1000))
            a.auth.sessions;
    };
  }

  check-dead :
      (s : Session) (a : Site)
      → is_live a.now s ≡ false
      → check_session (some s) (machine a []) ≡ (ok none, machine a [])
  unfolding check_session
  check-dead s a e = rw e refl

  check-slides :
      (s : Session) (a : Site)
      → is_live a.now s ≡ true
      → ltb slide_throttle_ms (a.now - s.last_used_at) ≡ true
      → check_session (some s) (machine a [])
        ≡ (ok (some (verified s (a.now + session_ttl_seconds * 1000))), machine (slid a s) [])
  unfolding check_session slid
  check-slides s a e f = rw (e, f) refl

  check-rests :
      (s : Session) (a : Site)
      → is_live a.now s ≡ true
      → ltb slide_throttle_ms (a.now - s.last_used_at) ≡ false
      → check_session (some s) (machine a []) ≡ (ok (some (verified s s.expires_at)), machine a [])
  unfolding check_session
  check-rests s a e f = rw (e, f) refl

  pub verify_lem :
      (token : String) (a : Site) (o : Option Session)
      → first (has_hash (k.hash_token token)) a.auth.sessions ≡ o
      → verify_session_token k token (machine a []) ≡ check_session o (machine a [])
  unfolding verify_session_token
  verify_lem token a o e = rw e refl

  -- The row of a hash and its grant.
  promised :
      (h : String) (a : Site) (p : Promise) (o : Option Session)
      → Models a p
      → first (has_hash h) a.auth.sessions ≡ o
      → p.grants h ≡ grant_if o
  unfolding grants
  promised h a p o m e = sym (m.agree h) ∙ ap grant_if e

  unfoldable pub Answers :
      String → Site → Promise → Result (Option VerifiedSession) × Machine Auth → Type 0
  Answers token a p (r, m) =
      (r ≡ ok (due k token p)) × Models (site_of m) (promise k (check token) p)

  nothing-Answers :
      (token : String) (a : Site) (p : Promise)
      → Models a p
      → granted p (p.grants (k.hash_token token)) ≡ none
      → Answers token a p (ok none, machine a [])
  unfolding Answers
  nothing-Answers token a p m e = (rw e refl, rw e m)

  some-Answers :
      (token : String) (a b : Site) (p : Promise) (g : Grant)
      → granted p (p.grants (k.hash_token token)) ≡ some g
      → Models b (record p { grants = put (k.hash_token token) g p.grants })
      → Answers token a p (ok (some (shown g)), machine b [])
  unfolding Answers
  some-Answers token a b p g e m = (rw e refl, rw e m)

  slide-hash : (last next : ℕ) (s : Session) → (slide_row last next s).token_hash ≡ s.token_hash
  unfolding slide_row
  slide-hash last next s = refl

  slide-id : (last next : ℕ) (s : Session) → (slide_row last next s).id ≡ s.id
  unfolding slide_row
  slide-id last next s = refl

  same_put : (h : String) (g : Grant) (f : Grants) (j : String) → f h ≡ some g → f j ≡ put h g f j
  same_put h g f j e = elim (Bool-cases (same h j)) [
    | inl here ↦ rw here (rw (← (same_iff h j).0 here) e)
    | inr there ↦ rw there refl
  ]

  live-grant : (s : Session) → is_null s.revoked_at ≡ true → grant_if (some s) ≡ some (grant_of s)
  unfolding grant_if
  live-grant s e = rw e refl

  granted-dead :
      (a : Site) (p : Promise) (s : Session)
      → a.now ≡ p.now
      → is_live a.now s ≡ false
      → granted p (grant_if (some s)) ≡ none
  unfolding is_live grant_if
  granted-dead a p s e d = ground arith

  granted-late :
      (a : Site) (p : Promise) (s : Session)
      → a.now ≡ p.now
      → is_live a.now s ≡ true
      → ltb slide_throttle_ms (a.now - s.last_used_at) ≡ true
      → granted p (grant_if (some s)) ≡ some (extended (grant_of s) p.now)
  unfolding is_live grant_if
  granted-late a p s e live late = ground arith

  granted-early :
      (a : Site) (p : Promise) (s : Session)
      → a.now ≡ p.now
      → is_live a.now s ≡ true
      → ltb slide_throttle_ms (a.now - s.last_used_at) ≡ false
      → granted p (grant_if (some s)) ≡ some (grant_of s)
  unfolding is_live grant_if
  granted-early a p s e live early = ground arith

  live-null : (now : ℕ) (s : Session) → is_live now s ≡ true → is_null s.revoked_at ≡ true
  unfolding is_live
  live-null now s e = ground arith

  late-shown :
      (a : Site) (p : Promise) (s : Session)
      → a.now ≡ p.now
      → verified s (a.now + session_ttl_seconds * 1000) ≡ shown (extended (grant_of s) p.now)
  unfolding verified grant_of
  late-shown a p s e = ap (λ n. verified s (n + session_ttl_seconds * 1000)) e

  early-shown : (s : Session) → verified s s.expires_at ≡ shown (grant_of s)
  unfolding verified grant_of
  early-shown s = refl

  late-grant :
      (a : Site) (p : Promise) (s : Session)
      → a.now ≡ p.now
      → grant_of (slide_row a.now (a.now + session_ttl_seconds * 1000) s)
        ≡ extended (grant_of s) p.now
  unfolding grant_of slide_row
  late-grant a p s e = ap (extended (grant_of s)) e

  late-Models :
      (h : String) (a : Site) (p : Promise) (s : Session)
      → Models a p
      → is_null s.revoked_at ≡ true
      → first (has_hash h) a.auth.sessions ≡ some s
      → Models (slid a s) (record p { grants = put h (extended (grant_of s) p.now) p.grants })
  unfolding slid
  late-Models h a p s m live found = record {
    now = m.now;
    unlike = update-Unlike _ _ (slide-hash _ _) (slide-id _ _) a.auth.sessions m.unlike;
    agree = λ j.
        grants-slide h s a.now (a.now + session_ttl_seconds * 1000) a.auth.sessions j m.unlike live
          found
        ∙ rw (late-grant a p s m.now, m.agree j) refl;
  }

  early-Models :
      (h : String) (a : Site) (p : Promise) (g : Grant)
      → Models a p
      → p.grants h ≡ some g
      → Models a (record p { grants = put h g p.grants })
  early-Models h a p g m e = record {
    now = m.now;
    unlike = m.unlike;
    agree = λ j. m.agree j ∙ same_put h g p.grants j e;
  }

  pub check-Answers :
      (token : String) (a : Site) (p : Promise) (o : Option Session)
      → Models a p
      → first (has_hash (k.hash_token token)) a.auth.sessions ≡ o
      → Answers token a p (check_session o (machine a []))
  unfolding grant_if
  check-Answers token a p none m e =
      rw (check-none a)
        (nothing-Answers token a p m (ap (granted p) (promised (k.hash_token token) a p none m e)))
  check-Answers token a p (some s) m e =
      let g = promised (k.hash_token token) a p (some s) m e in
      elim (Bool-cases (is_live a.now s)) [
        | inl live ↦ elim (Bool-cases (ltb slide_throttle_ms (a.now - s.last_used_at))) [
          | inl late ↦
              rw (check-slides s a live late, late-shown a p s m.now)
                (some-Answers token a (slid a s) p (extended (grant_of s) p.now)
                  (ap (granted p) g ∙ granted-late a p s m.now live late)
                  (late-Models (k.hash_token token) a p s m (live-null a.now s live) e))
          | inr early ↦
              rw (check-rests s a live early, early-shown s)
                (some-Answers token a a p (grant_of s)
                  (ap (granted p) g ∙ granted-early a p s m.now live early)
                  (early-Models (k.hash_token token) a p (grant_of s) m
                    (g ∙ live-grant s (live-null a.now s live))))
        ]
        | inr dead ↦
            rw (check-dead s a dead)
              (nothing-Answers token a p m (ap (granted p) g ∙ granted-dead a p s m.now dead))
      ]
