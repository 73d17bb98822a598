-- ===== src/Kms/Signer.antt =====
-- Whatever the key service answers, a signature that is handed out recovers to the signer.
use carbon_contractors_com.Prelude.{
  ℕ, ◌≡◌, refl, Bool, true, false, List, [], ◌∷◌, Option, String, if◌then◌else◌,
}
use carbon_contractors_com.World.{Result, ok, err}
use carbon_contractors_com.Kms.{
  Hex, EthSignature, is_signer, try_each, with_parsed, der_to_eth_signature, parse_der_signature,
  encode_signature, encode_if, sign,
}

module _ (Hash : Type 0) (recover_address : Hash → EthSignature → Option String) (hash : Hash)
    (signer : String) where
  abbrev pub RecoversSigner : EthSignature → Type 0
  RecoversSigner sig = is_signer Hash recover_address signer (recover_address hash sig) ≡ true

  tried-if :
      (b : Bool) (sig tried : EthSignature) (rest : Result EthSignature)
      → is_signer Hash recover_address signer (recover_address hash tried) ≡ b
      → (rest ≡ ok sig → RecoversSigner sig)
      → (if b then ok tried else rest) ≡ ok sig
      → RecoversSigner sig
  tried-if true sig tried rest e h f = let same_sig : tried ≡ sig = cc in rw (← same_sig) e
  tried-if false sig tried rest e h f = h f

  tries-Recovers :
      (r s : Hex) (vs : List ℕ) (sig : EthSignature)
      → try_each Hash recover_address hash signer r s vs ≡ ok sig
      → RecoversSigner sig
  unfolding try_each
  tries-Recovers r s [] sig e = cc
  tries-Recovers r s (v ∷ vs) sig e =
      tried-if _ sig (record { r = r; s = s; v = v }) _ refl (tries-Recovers r s vs sig) e

  parsed-Recovers :
      (parsed : Result (ℕ × ℕ)) (sig : EthSignature)
      → with_parsed Hash recover_address hash signer parsed ≡ ok sig
      → RecoversSigner sig
  parsed-Recovers (err x) sig e = cc
  parsed-Recovers (ok (r, s)) sig e = tries-Recovers _ _ (27 ∷ 28 ∷ []) sig e

  encoded :
      (tried : Result EthSignature) (text : Hex)
      → ((sig : EthSignature) → tried ≡ ok sig → RecoversSigner sig)
      → encode_if Hash recover_address tried ≡ ok text
      → (sig : EthSignature) × (text ≡ encode_signature Hash recover_address sig)
        × RecoversSigner sig
  encoded (err x) text h e = cc
  encoded (ok sig) text h e = (sig, cc, h sig refl)

  pub sign-Recovers :
      (answer : Result (List ℕ)) (text : Hex)
      → sign Hash recover_address hash answer signer ≡ ok text
      → (sig : EthSignature) × (text ≡ encode_signature Hash recover_address sig)
        × RecoversSigner sig
  unfolding sign der_to_eth_signature
  sign-Recovers (err x) text e = cc
  sign-Recovers (ok der) text e =
      encoded _ text (λ sig f. parsed-Recovers (parse_der_signature der) sig f) e
