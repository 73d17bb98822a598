-- ===== src/Auth/Verified.antt =====
-- What an accepted signature of a challenge rests on, and what it leaves.
use carbon_contractors_com.Prelude.{
  ℕ, ◌≡◌, refl, sym, ap, ◌∙◌, Bool, true, false, not, Option, none, some, List, [], ◌∷◌, String,
  same_iff, lower, ltb, first, update, select, arith,
}
use carbon_contractors_com.World.{Result, ok, err}
use carbon_contractors_com.Store.{Machine}
use carbon_contractors_com.Auth.{
  Challenge, Auth, Crypto, is_null, has_nonce, build_challenge_message, challenge_refusal, consume,
  check_signature, check_challenge, verify_challenge_signature,
}
use carbon_contractors_com.Auth.Site.{Site, machine}

abbrev pub later : Site → ℕ → Site
later a now = record a { now = now }

abbrev pub unexpired : Site → List Challenge
unexpired a = select (λ c. not (ltb c.expires_at a.now)) a.auth.challenges

abbrev pub consume_at : ℕ → Challenge → Challenge
consume_at now c = record c { used_at = some now }

abbrev pub consumed : String → Site → Site
consumed nonce a = record a {
  auth = record a.auth {
    challenges = update (has_nonce nonce) (consume_at a.now) a.auth.challenges;
  };
}

pub first-update :
    (nonce : String) (now : ℕ) (cs : List Challenge) (c : Challenge)
    → first (has_nonce nonce) cs ≡ some c
    → first (has_nonce nonce) (update (has_nonce nonce) (consume_at now) cs)
      ≡ some (consume_at now c)
unfolding has_nonce
first-update nonce now [] c e = cc
first-update nonce now (x ∷ xs) c e = ground (arith, first-update nonce now xs c)

module _ (k : Crypto) (claimed signature nonce : String) where
  -- What an accepted signature rests on, in the store it is checked against.
  pub record IsVerified (a : Site) (c : Challenge) : Type 0 where
    pub found : first (has_nonce nonce) a.auth.challenges ≡ some c
    pub unused : is_null c.used_at ≡ true
    pub unexpired : ltb c.expires_at a.now ≡ false
    pub own : c.wallet_address ≡ lower claimed
    pub signed :
        k.verify_wallet_signature claimed (build_challenge_message k nonce c.created_at) signature
        ≡ ok true

  pub verify_challenge_signature_lem :
      (a : Site) (o : Option Challenge)
      → first (has_nonce nonce) a.auth.challenges ≡ o
      → verify_challenge_signature k claimed signature nonce (machine a [])
        ≡ check_challenge k claimed signature nonce (ok o) (machine a [])
  unfolding verify_challenge_signature
  verify_challenge_signature_lem a o e = rw e refl

  no_refusal :
      (now : ℕ) (c : Challenge)
      → challenge_refusal claimed now c ≡ none
      → (is_null c.used_at ≡ true)
        × (ltb c.expires_at now ≡ false)
        × (c.wallet_address ≡ lower claimed)
  unfolding challenge_refusal
  no_refusal now c e = ground (arith, same_iff c.wallet_address (lower claimed))

  Taken : Site → String → Challenge → Option String → Result String × Machine Auth → Type 0
  Taken a w c refusal (r, m) =
      (refusal ≡ none)
      × (k.verify_wallet_signature claimed (build_challenge_message k nonce c.created_at) signature
          ≡ ok true)
      × (w ≡ claimed)
      × (m ≡ machine (consumed nonce a) [])

  consume-Taken :
      (a : Site) (w : String) (v : Result Bool)
      → (consume k claimed nonce v (machine a [])).0 ≡ ok w
      → (v ≡ ok true)
        × (w ≡ claimed)
        × ((consume k claimed nonce v (machine a [])).1 ≡ machine (consumed nonce a) [])
  unfolding consume
  consume-Taken a w (err e) h = cc
  consume-Taken a w (ok false) h = cc
  consume-Taken a w (ok true) h = (refl, cc, refl)

  signature-Taken :
      (a : Site) (w : String) (c : Challenge) (refusal : Option String)
      → (check_signature k claimed signature nonce c refusal (machine a [])).0 ≡ ok w
      → Taken a w c refusal (check_signature k claimed signature nonce c refusal (machine a []))
  unfolding check_signature Taken
  signature-Taken a w c (some why) h = cc
  signature-Taken a w c none h = let (v, e, m) = consume-Taken a w _ h in (refl, v, e, m)

  check-Taken :
      (a : Site) (w : String) (o : Option Challenge)
      → first (has_nonce nonce) a.auth.challenges ≡ o
      → (check_challenge k claimed signature nonce (ok o) (machine a [])).0 ≡ ok w
      → (c : Challenge) × IsVerified a c
        × (w ≡ claimed)
        × ((check_challenge k claimed signature nonce (ok o) (machine a [])).1
            ≡ machine (consumed nonce a) [])
  unfolding check_challenge Taken
  check-Taken a w none e h = cc
  check-Taken a w (some c) e h =
      let (r, v, same_wallet, m) = signature-Taken a w c (challenge_refusal claimed a.now c) h in
      let (u, x, o) = no_refusal a.now c r in
      (c, record { found = e; unused = u; unexpired = x; own = o; signed = v }, same_wallet, m)

  pub verify-Taken :
      (a : Site) (w : String)
      → (verify_challenge_signature k claimed signature nonce (machine a [])).0 ≡ ok w
      → (c : Challenge) × IsVerified a c
        × (w ≡ claimed)
        × ((verify_challenge_signature k claimed signature nonce (machine a [])).1
            ≡ machine (consumed nonce a) [])
  verify-Taken a w h =
      let e = verify_challenge_signature_lem a _ refl in
      let (c, v, x, m) = check-Taken a w _ refl (sym (ap (λ r. r.0) e) ∙ h) in
      (c, v, x, ap (λ r. r.1) e ∙ m)
