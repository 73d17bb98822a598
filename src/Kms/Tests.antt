-- ===== src/Kms/Tests.antt =====
-- Signatures of a toy curve, on which a low s with the bit 27 and a high s with the bit 28 recover.
use carbon_contractors_com.Prelude.{
  ℕ, ◌+◌, ◌-◌, ◌<◌, ◌≡◌, refl, ap, [], ◌∷◌, String, Option, some, ltb, ◌==◌, if◌then◌else◌, arith,
  same, lower, inl, inr,
}
use carbon_contractors_com.World.{ok}
use carbon_contractors_com.Kms.{
  EthSignature, secp256k1_order, secp256k1_half_order, parse_der_signature, sign, encode_signature,
  normalize_s_value, pos, negsuc, word_of,
}
use carbon_contractors_com.Kms.Der.{encode_der, parse_der_signature-encode}
use carbon_contractors_com.Kms.Words.{number_from, number_from-word_of}
use carbon_contractors_com.Kms.LowS.{IsSignature, Negates, Recovers, sign-IsSignature}

-- A number with a high first bit, and one byte.
der_test : encode_der 0x80ff 5 ≡ 48 ∷ 8 ∷ 2 ∷ 3 ∷ 0 ∷ 0x80 ∷ 0xff ∷ 2 ∷ 1 ∷ 5 ∷ []
unfolding encode_der
der_test = refl

parse_der_signature-encode_example : parse_der_signature (encode_der 0x80ff 5) ≡ ok (0x80ff, 5)
parse_der_signature-encode_example = parse_der_signature-encode 0x80ff 5 (omega arith) (omega arith)

-- A number above the order has a negative counterpart.
beyond_test : normalize_s_value (secp256k1_order + 5) ≡ negsuc 4
unfolding normalize_s_value
beyond_test = refl

abbrev toy : String → EthSignature → Option String
toy hash sig = some (
    if ltb secp256k1_half_order (number_from 0 sig.s)
    then (if sig.v == 28 then "0xAb" else "0xcd")
    else (if sig.v == 28 then "0xcd" else "0xAb"))

toy_high :
    (s : ℕ)
    → s < secp256k1_order
    → ltb secp256k1_half_order (number_from 0 (word_of (pos s))) ≡ ltb secp256k1_half_order s
toy_high s h = ap (ltb secp256k1_half_order) (number_from-word_of s (omega arith))

toy-Negates : Negates String toy
toy-Negates hash r s v p h bit =
    let below : secp256k1_order - s < secp256k1_order = omega arith in
    rw (toy_high s h, toy_high (secp256k1_order - s) below)
      (elim bit [ inl e ↦ rw e (ground arith) | inr e ↦ rw e (ground arith) ])

toy-Recovers : Recovers String toy "a hash" "0xab" 0x80ff (secp256k1_order - 7) 28
unfolding same lower
toy-Recovers = rw (toy_high (secp256k1_order - 7) (omega arith)) refl

sign-IsSignature_example :
    (sig : EthSignature) × IsSignature String toy "a hash" "0xab" 0x80ff (secp256k1_order - 7) sig
    × (sign String toy "a hash" (ok (encode_der 0x80ff (secp256k1_order - 7))) "0xab"
        ≡ ok (encode_signature String toy sig))
sign-IsSignature_example =
    sign-IsSignature String toy "a hash" "0xab" 0x80ff (secp256k1_order - 7) 28 toy-Negates
      (omega arith) (omega arith) (omega arith) (inr refl) toy-Recovers
