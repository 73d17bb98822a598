-- ===== src/Auth.antt =====
-- Who a caller is: the challenges that a wallet signs, src/app/api/basedhuman.mcp/challenge/route.ts
-- and src/lib/auth/wallet-challenge.ts. The children have the sessions that a signed challenge
-- opens. The check of a signature asks a node, and may fail; it is a parameter, as is the text of a
-- number.
pub mod Sessions
pub mod Grants
pub mod Promise
pub mod Site
pub mod Unlike
pub mod Checks
pub mod Refines
pub mod Verified
pub mod Challenges
pub mod Tests
use Prim.Native.String.{◌++◌ as append}
use carbon_contractors_com.Prelude.{
  ℕ, ◌+◌, ◌*◌, ◌/◌, Bool, true, false, not, Option, none, some, List, [], ◌∷◌, String, same, lower,
  if◌then◌else◌, ltb, first, any, select, update,
}
use carbon_contractors_com.World.{
  Error, Result, ok, err, invalid_argument, database, unique_violation,
}
use carbon_contractors_com.Store.{
  Machine, M, pure, throw, date_now, draw, call, query, attempt, ◌>>=◌, ◌>>◌, write_store,
}

pub record Challenge : Type 0 where
  pub wallet_address : String
  pub nonce : String
  pub expires_at : ℕ
  pub used_at : Option ℕ
  pub created_at : ℕ

pub record Session : Type 0 where
  pub id : String
  pub wallet : String
  pub token_hash : String
  pub scopes : List String
  pub name : Option String
  pub created_at : ℕ
  pub last_used_at : ℕ
  pub expires_at : ℕ
  pub revoked_at : Option ℕ

pub record Auth : Type 0 where
  pub challenges : List Challenge
  pub sessions : List Session

pub record Crypto : Type 0 where
  pub decimal : ℕ → String
  pub hash_token : String → String
  -- verifyWalletSignature: the address, the message, the signature.
  pub verify_wallet_signature : String → String → String → Result Bool

abbrev pub challenge_ttl_s : ℕ
challenge_ttl_s = 60

abbrev pub is_null : Option ℕ → Bool
is_null none = true
is_null (some _) = false

unfoldable pub has_nonce : String → Challenge → Bool
has_nonce nonce c = same c.nonce nonce

pub record ChallengeResponse : Type 0 where
  pub nonce : String
  pub expires_at : ℕ
  pub message : String

unfoldable pub new_challenge : String → String → ℕ → ℕ → Challenge
new_challenge wallet nonce expires_at now = record {
  wallet_address = wallet;
  nonce = nonce;
  expires_at = expires_at;
  used_at = none;
  created_at = now;
}

unfoldable pub insert_challenge : String → String → ℕ → M Auth Challenge
unfolding call has_nonce new_challenge
insert_challenge wallet nonce expires_at =
    call
      (λ m.
        if any (has_nonce nonce) m.store.challenges
        then err unique_violation
        else ok (new_challenge wallet nonce expires_at m.now))
      (λ m.
        if any (has_nonce nonce) m.store.challenges
        then m
        else write_store
            (λ a. record a {
              challenges = new_challenge wallet nonce expires_at m.now ∷ a.challenges;
            })
            m)

-- The guards of verifyChallengeSignature on a challenge that was read.
unfoldable pub challenge_refusal : String → ℕ → Challenge → Option String
challenge_refusal claimed now c =
    if not (is_null c.used_at)
    then some "Challenge already consumed"
    else if ltb c.expires_at now
    then some "Challenge expired"
    else if not (same c.wallet_address (lower claimed))
    then some "Challenge was issued for a different wallet"
    else none

module _ (k : Crypto) where
  unfoldable pub build_challenge_message : String → ℕ → String
  build_challenge_message nonce created_at =
      append "carbon-contractors.com wants to verify wallet ownership\nNonce: "
        (append nonce (append "\nTimestamp: " (k.decimal (created_at / 1000))))

  -- POST of the challenge, for an address of the right form. The error of the purge is not looked at.
  unfoldable pub issue_challenge : String → M Auth ChallengeResponse
  unfolding ◌>>=◌ call insert_challenge build_challenge_message
  issue_challenge wallet = do
    nonce ← draw
    now ← date_now
    attempt
        (call (λ m. ok tt)
          (write_store
            (λ a. record a { challenges = select (λ c. not (ltb c.expires_at now)) a.challenges })))
        (λ _. do
          c ← insert_challenge (lower wallet) nonce (now + challenge_ttl_s * 1000)
          pure (record {
            nonce = nonce;
            expires_at = (now + challenge_ttl_s * 1000) / 1000;
            message = build_challenge_message nonce c.created_at;
          }))

  unfoldable pub consume : String → String → Result Bool → M Auth String
  unfolding ◌>>=◌ call has_nonce
  consume claimed nonce (err e) = throw e
  consume claimed nonce (ok false) =
      throw (invalid_argument "Signature does not match claimed wallet")
  consume claimed nonce (ok true) = do
    now ← date_now
    attempt
        (call (λ m. ok tt)
          (write_store (λ a. record a {
            challenges =
                update (has_nonce nonce) (λ c. record c { used_at = some now }) a.challenges;
          })))
        (λ _. pure claimed)

  unfoldable pub check_signature :
      String → String → String → Challenge → Option String → M Auth String
  unfolding throw consume build_challenge_message
  check_signature claimed signature nonce c (some refusal) = throw (invalid_argument refusal)
  check_signature claimed signature nonce c none =
      consume claimed nonce
        (k.verify_wallet_signature claimed (build_challenge_message nonce c.created_at) signature)

  unfoldable pub check_challenge :
      String → String → String → Result (Option Challenge) → M Auth String
  unfolding ◌>>=◌ challenge_refusal check_signature
  check_challenge claimed signature nonce (err e) =
      throw (invalid_argument "Challenge not found or expired")
  check_challenge claimed signature nonce (ok none) =
      throw (invalid_argument "Challenge not found or expired")
  check_challenge claimed signature nonce (ok (some c)) = do
    now ← date_now
    check_signature claimed signature nonce c (challenge_refusal claimed now c)

  unfoldable pub verify_challenge_signature : String → String → String → M Auth String
  unfolding ◌>>=◌ query has_nonce check_challenge
  verify_challenge_signature claimed signature nonce =
      attempt (query (λ m. first (has_nonce nonce) m.store.challenges))
        (check_challenge claimed signature nonce)
