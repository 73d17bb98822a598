-- ===== src/Auth/Tests.antt =====
-- Sessions and challenges with a toy cryptography: the hash of a token is the token, and a signature
-- is right if it is the message.
use carbon_contractors_com.Prelude.{
  ◌+◌, ◌≡◌, refl, none, some, List, [], ◌∷◌, String, same, arith, lower,
}
use carbon_contractors_com.World.{Result, ok, err, invalid_argument, answered, refused}
use carbon_contractors_com.Store.{Machine}
use carbon_contractors_com.Auth.{
  Challenge, Auth, Crypto, build_challenge_message, issue_challenge, verify_challenge_signature,
}
use carbon_contractors_com.Auth.Sessions.{is_taken, verify_session_token}
use carbon_contractors_com.Auth.Promise.{Request, mint, check, revoke, wait, due}
use carbon_contractors_com.Auth.Site.{handle, Site, site_of, machine, nothing}
use carbon_contractors_com.Auth.Refines.{verify_session_token-refines, handle_all, promise_all}
use carbon_contractors_com.Auth.Verified.{IsVerified, later}
use carbon_contractors_com.Auth.Challenges.{
  response, verify_challenge_signature-once, issue_challenge-verifies,
}

abbrev pub toy : Crypto
toy = record {
  decimal = λ n. "0";
  hash_token = λ t. t;
  verify_wallet_signature = λ a message s. ok (same message s);
}

abbrev bare : Site
bare = record { now = 1000; auth = record { challenges = []; sessions = [] } }

-- Two tokens, one revoked by its owner after an attempt by another, the other used within and after
-- its hour.
abbrev requests : List Request
requests =
    mint "0xAb" (some "Laptop") "11" "s1"
    ∷ mint "0xAb" none "22" "s2"
    ∷ wait 4000000
    ∷ check "ccs_11"
    ∷ revoke "0xcd" "s1"
    ∷ revoke "0xAB" "s2"
    ∷ []

verify_session_token-refines_example :
    (verify_session_token toy "ccs_11" (machine (handle_all toy requests bare) [])).0
    ≡ ok (due toy "ccs_11" (promise_all toy requests (nothing bare)))
unfolding is_taken handle same
verify_session_token-refines_example =
    verify_session_token-refines toy requests bare "ccs_11" refl
      (refl, (refl, (tt, (tt, (tt, (tt, tt))))))

-- A challenge that is issued, signed and presented again by another wallet.
abbrev asked : Site
asked = site_of (issue_challenge toy "0xAb" (machine bare ("n1" ∷ []))).1

abbrev message : String
message = build_challenge_message toy "n1" 1000

once_premise : (verify_challenge_signature toy "0xAB" message "n1" (machine asked [])).0 ≡ ok "0xAB"
unfolding issue_challenge verify_challenge_signature same lower
once_premise = refl

verify_challenge_signature-once_example :
    (◌≡◌ {A = String} "0xAB" "0xAB")
    × ((c : Challenge) × IsVerified toy "0xAB" message "n1" asked c)
    × ((verify_challenge_signature toy "0xcd" "forged" "n1" (
          machine
            (later
              (site_of (verify_challenge_signature toy "0xAB" message "n1" (machine asked [])).1)
              5000)
            [])).0
        ≡ err (invalid_argument "Challenge already consumed"))
verify_challenge_signature-once_example =
    verify_challenge_signature-once toy "n1" "0xAB" message "0xcd" "forged" "0xAB" asked 5000
      once_premise

issue_challenge-verifies_example :
    ((issue_challenge toy "0xAb" (machine bare ("n1" ∷ []))).0 ≡ ok (response toy "n1" bare))
    × ((verify_challenge_signature toy "0xAB" message "n1" (
          machine
            (later
              (site_of (issue_challenge toy "0xAb" (machine bare ("n1" ∷ []))).1)
              (bare.now + 60000))
            [])).0
        ≡ ok "0xAB")
unfolding same lower build_challenge_message
issue_challenge-verifies_example =
    issue_challenge-verifies toy "n1" "0xAb" "0xAB" message bare 60000 refl refl refl (omega arith)

-- The write that marks a nonce as used is refused: the signature is accepted, and accepted again.
abbrev unmarked : Result String × Machine Auth
unmarked = verify_challenge_signature toy "0xAB" message "n1" (record (machine asked []) {
  turns =
      record { reply = answered; elapsed = 1; others = λ s. s }
      ∷ record { reply = refused; elapsed = 1; others = λ s. s }
      ∷ [];
})

reuse_tests :
    (unmarked.0 ≡ ok "0xAB")
    × ((verify_challenge_signature toy "0xAB" message "n1" unmarked.1).0 ≡ ok "0xAB")
unfolding issue_challenge verify_challenge_signature same lower
reuse_tests = (refl, refl)
