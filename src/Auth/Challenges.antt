-- ===== src/Auth/Challenges.antt =====
-- Single use and round trip of a wallet's challenge, src/lib/auth/wallet-challenge.ts and
-- src/app/api/basedhuman.mcp/challenge/route.ts.
use carbon_contractors_com.Prelude.{
  ℕ, ◌+◌, ◌≤◌, ◌*◌, ◌/◌, ◌≡◌, refl, ap, true, false, none, some, [], ◌∷◌, String, same_refl, lower,
  first, any, arith,
}
use carbon_contractors_com.World.{ok, err, invalid_argument}
use carbon_contractors_com.Auth.{
  Challenge, Crypto, ChallengeResponse, has_nonce, build_challenge_message, challenge_refusal,
  challenge_ttl_s, consume, check_signature, check_challenge, verify_challenge_signature,
  new_challenge, issue_challenge,
}
use carbon_contractors_com.Auth.Site.{Site, machine, site_of}
use carbon_contractors_com.Auth.Verified.{
  later, unexpired, consume_at, consumed, IsVerified, first-update, verify_challenge_signature_lem,
  verify-Taken,
}

module _ (k : Crypto) (nonce : String) where
  spent :
      (claimed signature : String) (a : Site) (c : Challenge) (at : ℕ)
      → c.used_at ≡ some at
      → (check_challenge k claimed signature nonce (ok (some c)) (machine a [])).0
        ≡ err (invalid_argument "Challenge already consumed")
  unfolding check_challenge challenge_refusal check_signature
  spent claimed signature a c at e = rw e refl

  -- When nothing comes between the calls of a request, a signature that is accepted was made by the
  -- wallet it is claimed for over the message of an unused and unexpired challenge that had been
  -- issued for that wallet, and after it the nonce is refused as consumed, whoever presents it,
  -- with whatever signature, and whenever.
  pub verify_challenge_signature-once :
      (claimed signature claimed' signature' wallet : String) (a : Site) (now : ℕ)
      → (verify_challenge_signature k claimed signature nonce (machine a [])).0 ≡ ok wallet
      → (wallet ≡ claimed)
        × ((c : Challenge) × IsVerified k claimed signature nonce a c)
        × ((verify_challenge_signature k claimed' signature' nonce (
              machine
                (later
                  (site_of (verify_challenge_signature k claimed signature nonce (machine a [])).1)
                  now)
                [])).0
            ≡ err (invalid_argument "Challenge already consumed"))
  verify_challenge_signature-once claimed signature claimed' signature' wallet a now h =
      let (c, v, same_wallet, m) = verify-Taken k claimed signature nonce a wallet h in
      let found = first-update nonce a.now a.auth.challenges c v.found in
      (
        same_wallet,
        (c, v),
        rw
            (
              m,
              verify_challenge_signature_lem k claimed' signature' nonce
                  (later (consumed nonce a) now) _ found,
            )
            (spent claimed' signature' (later (consumed nonce a) now) (consume_at a.now c) a.now
              refl),
      )

  abbrev pub response : Site → ChallengeResponse
  response a = record {
    nonce = nonce;
    expires_at = (a.now + challenge_ttl_s * 1000) / 1000;
    message = build_challenge_message k nonce a.now;
  }

  fresh_challenge : String → Site → Challenge
  unfolding new_challenge
  fresh_challenge wallet a =
      new_challenge (lower wallet) nonce (a.now + challenge_ttl_s * 1000) a.now

  issued : String → Site → Site
  issued wallet a = record a {
    auth = record a.auth { challenges = fresh_challenge wallet a ∷ unexpired a };
  }

  issue_challenge_lem :
      (wallet : String) (a : Site)
      → any (has_nonce nonce) (unexpired a) ≡ false
      → issue_challenge k wallet (machine a (nonce ∷ []))
        ≡ (ok (response a), machine (issued wallet a) [])
  unfolding issue_challenge issued fresh_challenge
  issue_challenge_lem wallet a fresh = rw fresh refl

  issued-found :
      (wallet : String) (a : Site)
      → first (has_nonce nonce) (issued wallet a).auth.challenges ≡ some (fresh_challenge wallet a)
  unfolding has_nonce issued fresh_challenge
  issued-found wallet a = rw (same_refl nonce) refl

  in_time-no_refusal :
      (wallet claimed : String) (a : Site) (ms : ℕ)
      → lower claimed ≡ lower wallet
      → ms ≤ challenge_ttl_s * 1000
      → challenge_refusal claimed (a.now + ms) (fresh_challenge wallet a) ≡ none
  unfolding challenge_refusal fresh_challenge
  in_time-no_refusal wallet claimed a ms own in_time = ground (arith, same_refl (lower wallet))

  accepted :
      (claimed signature : String) (a : Site) (c : Challenge)
      → challenge_refusal claimed a.now c ≡ none
      → k.verify_wallet_signature claimed (build_challenge_message k nonce c.created_at) signature
        ≡ ok true
      → (check_challenge k claimed signature nonce (ok (some c)) (machine a [])).0 ≡ ok claimed
  unfolding check_challenge check_signature consume
  accepted claimed signature a c r v = rw r (rw v refl)

  -- A challenge that is issued for a wallet with a new nonce can be met for sixty seconds: the
  -- answer's message, signed by that wallet, is accepted, in whatever case its address is written.
  pub issue_challenge-verifies :
      (wallet claimed signature : String) (a : Site) (ms : ℕ)
      → any (has_nonce nonce) (unexpired a) ≡ false
      → lower claimed ≡ lower wallet
      → k.verify_wallet_signature claimed (response a).message signature ≡ ok true
      → ms ≤ challenge_ttl_s * 1000
      → ((issue_challenge k wallet (machine a (nonce ∷ []))).0 ≡ ok (response a))
        × ((verify_challenge_signature k claimed signature nonce (
              machine
                (later (site_of (issue_challenge k wallet (machine a (nonce ∷ []))).1) (a.now + ms))
                [])).0
            ≡ ok claimed)
  unfolding fresh_challenge
  issue_challenge-verifies wallet claimed signature a ms fresh own signed in_time =
      let e = issue_challenge_lem wallet a fresh in
      (
        ap (λ r. r.0) e,
        rw
            (
              e,
              verify_challenge_signature_lem k claimed signature nonce
                  (later (issued wallet a) (a.now + ms)) _ (issued-found wallet a),
            )
            (accepted claimed signature (later (issued wallet a) (a.now + ms))
              (fresh_challenge wallet a) (in_time-no_refusal wallet claimed a ms own in_time)
              signed),
      )
