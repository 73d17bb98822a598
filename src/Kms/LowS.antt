-- ===== src/Kms/LowS.antt =====
-- The signature for the chain: in the lower half of the curve order, of words of 64 digits, and with
-- the bit that recovers the signer.
use carbon_contractors_com.Prelude.{
  ℕ, ◌-◌, ◌^◌, ◌≤◌, ◌<◌, ◌≡◌, ◌⊎◌, refl, ◌∙◌, List, [], ◌∷◌, if◌then◌else◌, true, false, Option,
  String, ltb, length, Bool-cases, inl, inr, arith,
}
use carbon_contractors_com.World.{ok}
use carbon_contractors_com.Kms.{
  secp256k1_order, secp256k1_half_order, pos, word_of, normalize_s_value, EthSignature, is_signer,
  try_each, der_to_eth_signature, encode_signature, sign,
}
use carbon_contractors_com.Kms.Der.{encode_der, parse_der_signature-encode}
use carbon_contractors_com.Kms.Words.{number_from, number_from-word_of, length-word_of}

abbrev pub low : ℕ → ℕ
low s = if ltb secp256k1_half_order s then secp256k1_order - s else s

-- Below the order the difference is no negative number, and the result is in the lower half.
normalize_s_value-low : (s : ℕ) → s < secp256k1_order → normalize_s_value s ≡ pos (low s)
unfolding normalize_s_value
normalize_s_value-low s h = ground arith

low-half : (s : ℕ) → s < secp256k1_order → low s ≤ secp256k1_half_order
low-half s h = ground arith

abbrev pub IsBit : ℕ → Type 0
IsBit v = (v ≡ 27) ⊎ (v ≡ 28)

abbrev pub signature_of : ℕ → ℕ → ℕ → EthSignature
signature_of r s v = record { r = word_of (pos r); s = word_of (pos s); v = v }

module _ (Hash : Type 0) (recover_address : Hash → EthSignature → Option String) where
  abbrev pub Recovers : Hash → String → ℕ → ℕ → ℕ → Type 0
  Recovers hash signer r s v =
      is_signer Hash recover_address signer (recover_address hash (signature_of r s v)) ≡ true

  -- The other square root: the negated s and the other bit recover the same address.
  abbrev pub Negates : Type 0
  Negates =
      (hash : Hash) (r s v : ℕ)
      → 1 ≤ s
      → s < secp256k1_order
      → IsBit v
      → recover_address hash (signature_of r (secp256k1_order - s) (55 - v))
        ≡ recover_address hash (signature_of r s v)

  low-Recovers :
      (hash : Hash) (signer : String) (r s v : ℕ)
      → Negates
      → 1 ≤ s
      → s < secp256k1_order
      → IsBit v
      → Recovers hash signer r s v
      → (w : ℕ) × IsBit w × Recovers hash signer r (low s) w
  low-Recovers hash signer r s v negates p h bit e =
      elim (Bool-cases (ltb secp256k1_half_order s)) [
        | inl high ↦ (
          55 - v,
          (elim bit [ inl f ↦ inr (omega arith) | inr f ↦ inl (omega arith) ]),
          rw (high, negates hash r s v p h bit) e,
        )
        | inr lower_half ↦ (v, bit, rw lower_half e)
      ]

  tries-here :
      (hash : Hash) (signer : String) (r s v : ℕ) (vs : List ℕ)
      → Recovers hash signer r s v
      → try_each Hash recover_address hash signer (word_of (pos r)) (word_of (pos s)) (v ∷ vs)
        ≡ ok (signature_of r s v)
  unfolding try_each
  tries-here hash signer r s v vs e = rw e refl

  tries-there :
      (hash : Hash) (signer : String) (r s v : ℕ) (vs : List ℕ)
      → is_signer Hash recover_address signer (recover_address hash (signature_of r s v)) ≡ false
      → try_each Hash recover_address hash signer (word_of (pos r)) (word_of (pos s)) (v ∷ vs)
        ≡ try_each Hash recover_address hash signer (word_of (pos r)) (word_of (pos s)) vs
  unfolding try_each
  tries-there hash signer r s v vs e = rw e refl

  tries :
      (hash : Hash) (signer : String) (r s w : ℕ)
      → IsBit w
      → Recovers hash signer r s w
      → (v : ℕ) × IsBit v
        × Recovers hash signer r s v
        × (try_each Hash recover_address hash signer
              (word_of (pos r))
              (word_of (pos s))
              (27 ∷ 28 ∷ [])
            ≡ ok (signature_of r s v))
  tries hash signer r s w (inl f) e =
      let at : Recovers hash signer r s 27 = rw (← f) e in
      (27, inl refl, at, tries-here hash signer r s 27 (28 ∷ []) at)
  tries hash signer r s w (inr f) e =
      let at : Recovers hash signer r s 28 = rw (← f) e in
      elim (Bool-cases
        (is_signer Hash recover_address signer (recover_address hash (signature_of r s 27)))) [
          | inl first ↦ (27, inl refl, first, tries-here hash signer r s 27 (28 ∷ []) first)
          | inr other ↦ (
            28,
            inr refl,
            at,
            tries-there hash signer r s 27 (28 ∷ []) other ∙ tries-here hash signer r s 28 [] at,
          )
        ]

  -- What is right of a signature that is handed to the chain.
  pub record IsSignature (hash : Hash) (signer : String) (r s : ℕ) (sig : EthSignature)
      : Type 0 where
    pub recovers : is_signer Hash recover_address signer (recover_address hash sig) ≡ true
    pub same_r : number_from 0 sig.r ≡ r
    pub same_s : (number_from 0 sig.s ≡ s) ⊎ (number_from 0 sig.s ≡ secp256k1_order - s)
    pub low_s : number_from 0 sig.s ≤ secp256k1_half_order
    pub word_r : length sig.r ≡ 64
    pub word_s : length sig.s ≡ 64
    pub bit : IsBit sig.v

  low-IsSignature :
      (hash : Hash) (signer : String) (r s v : ℕ)
      → r < 2 ^ 256
      → s < secp256k1_order
      → IsBit v
      → Recovers hash signer r (low s) v
      → IsSignature hash signer r s (signature_of r (low s) v)
  low-IsSignature hash signer r s v hr hs bit e =
      let half = low-half s hs in
      let fits : low s < 2 ^ 256 = omega arith in
      record {
        recovers = e;
        same_r = number_from-word_of r hr;
        same_s = rw (number_from-word_of (low s) fits) (low-or s);
        low_s = rw (number_from-word_of (low s) fits) half;
        word_r = length-word_of r hr;
        word_s = length-word_of (low s) fits;
        bit = bit;
      }
    where
      low-or : (s : ℕ) → (low s ≡ s) ⊎ (low s ≡ secp256k1_order - s)
      low-or s = elim (Bool-cases (ltb secp256k1_half_order s)) [
        | inl high ↦ inr (rw high refl)
        | inr lower_half ↦ inl (rw lower_half refl)
      ]

  sign_lem :
      (hash : Hash) (signer : String) (r s : ℕ) (sig : EthSignature)
      → r < 2 ^ 256
      → s < secp256k1_order
      → try_each Hash recover_address hash signer
          (word_of (pos r))
          (word_of (pos (low s)))
          (27 ∷ 28 ∷ [])
        ≡ ok sig
      → sign Hash recover_address hash (ok (encode_der r s)) signer
        ≡ ok (encode_signature Hash recover_address sig)
  unfolding sign der_to_eth_signature
  sign_lem hash signer r s sig hr hs e =
      let fits : s < 2 ^ 256 = omega arith in
      rw (parse_der_signature-encode r s hr fits, normalize_s_value-low s hs, e) refl

  -- Where the key service answers with the DER encoding of a signature r, s that recovers to the
  -- signer by one of the two bits, and a negated s with the other bit recovers the same address, as
  -- ECDSA has it: signing succeeds, with 64 digits of r, 64 digits of s or of its negation, whichever
  -- is in the lower half of the order, and a bit by which the three recover to the signer.
  pub sign-IsSignature :
      (hash : Hash) (signer : String) (r s v : ℕ)
      → Negates
      → r < 2 ^ 256
      → 1 ≤ s
      → s < secp256k1_order
      → IsBit v
      → Recovers hash signer r s v
      → (sig : EthSignature) × IsSignature hash signer r s sig
        × (sign Hash recover_address hash (ok (encode_der r s)) signer
            ≡ ok (encode_signature Hash recover_address sig))
  sign-IsSignature hash signer r s v negates hr p hs bit e =
      let (w, bit_w, low_e) = low-Recovers hash signer r s v negates p hs bit e in
      let (x, bit_x, found, tried) = tries hash signer r (low s) w bit_w low_e in
      (
        signature_of r (low s) x,
        low-IsSignature hash signer r s x hr hs bit_x found,
        sign_lem hash signer r s (signature_of r (low s) x) hr hs tried,
      )
