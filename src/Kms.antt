-- ===== src/Kms.antt =====
-- From a signature of the key service to one for the chain, src/lib/contracts/kms-signer.ts: the
-- parsing of DER, the low half of the curve order, and the recovery bit. A byte string is the list
-- of its bytes, a hex text the list of its characters after `0x`. What a signature recovers to is a
-- parameter, as are the hash and the signature that the key service answers.
pub mod Digits
pub mod Der
pub mod Words
pub mod LowS
pub mod Signer
pub mod Tests
use carbon_contractors_com.Prelude.{
  ℕ, zero, suc, ◌+◌, ◌-◌, ◌*◌, ◌/◌, ◌%◌, ◌^◌, Bool, true, false, not, ◌||◌, Option, none, some,
  List, [], ◌∷◌, ◌++◌, map, String, same, lower, ltb, ◌==◌, length, take, if◌then◌else◌,
}
use carbon_contractors_com.World.{Result, ok, err, invalid_argument}

abbrev pub secp256k1_order : ℕ
secp256k1_order = 0xfffffffffffffffffffffffffffffffebaaedce6af48a03bbfd25e8cd0364141

abbrev pub secp256k1_half_order : ℕ
secp256k1_half_order = secp256k1_order / 2

-- ── Bytes ──
abbrev pub drop {ℓ} : {A : Type ℓ} → ℕ → List A → List A
drop zero xs = xs
drop (suc n) [] = []
drop (suc n) (x ∷ xs) = drop n xs

abbrev pub get_elem? : List ℕ → ℕ → Option ℕ
get_elem? [] n = none
get_elem? (b ∷ bs) zero = some b
get_elem? (b ∷ bs) (suc n) = get_elem? bs n

abbrev pub is_byte : ℕ → Option ℕ → Bool
is_byte b none = false
is_byte b (some c) = b == c

-- The end of a subarray that is not a number is 0.
abbrev pub length_or_zero : Option ℕ → ℕ
length_or_zero none = 0
length_or_zero (some n) = n

unfoldable pub hex_of : List ℕ → List ℕ
hex_of [] = []
hex_of (b ∷ bs) = b / 16 ∷ b % 16 ∷ hex_of bs

abbrev pub replicate {ℓ} : {A : Type ℓ} → ℕ → A → List A
replicate zero x = []
replicate (suc n) x = x ∷ replicate n x

abbrev pub pad_start {ℓ} : {A : Type ℓ} → ℕ → A → List A → List A
pad_start n x xs = replicate (n - length xs) x ++ xs

unfoldable pub big_int_from : ℕ → List ℕ → ℕ
big_int_from n [] = n
big_int_from n (d ∷ ds) = big_int_from (n * 16 + d) ds

-- `rBytes[0] === 0x00 ? rBytes.subarray(1) : rBytes`
unfoldable pub strip_sign : List ℕ → List ℕ
strip_sign [] = []
strip_sign (b ∷ bs) = if b == 0 then bs else b ∷ bs

unfoldable pub integer_of : List ℕ → ℕ
unfolding hex_of big_int_from strip_sign
integer_of bytes = big_int_from 0 (pad_start 64 0 (hex_of (strip_sign bytes)))

unfoldable pub parse_second : List ℕ → ℕ → ℕ → Result (ℕ × ℕ)
unfolding integer_of
parse_second der offset r =
    if not (is_byte 2 (get_elem? der offset))
    then err (invalid_argument "Invalid DER: expected INTEGER tag (0x02) for s")
    else ok
        (r, integer_of (take (length_or_zero (get_elem? der (offset + 1))) (drop (offset + 2) der)))

unfoldable pub parse_der_signature : List ℕ → Result (ℕ × ℕ)
unfolding parse_second integer_of
parse_der_signature der =
    if ltb (length der) 8 || not (is_byte 48 (get_elem? der 0))
    then err (invalid_argument "Invalid DER: expected SEQUENCE tag (0x30)")
    else if not (is_byte 2 (get_elem? der 2))
    then err (invalid_argument "Invalid DER: expected INTEGER tag (0x02) for r")
    else parse_second der (4 + length_or_zero (get_elem? der 3))
        (integer_of (take (length_or_zero (get_elem? der 3)) (drop 4 der)))

-- ── Numbers and hex texts ──
pub data ℤ : Type 0 where
  pos : ℕ → ℤ
  negsuc : ℕ → ℤ

infixl 60 ◌-ℤ◌
abbrev pub ◌-ℤ◌ : ℕ → ℕ → ℤ
m -ℤ n = if ltb m n then negsuc (n - m - 1) else pos (m - n)

unfoldable pub normalize_s_value : ℕ → ℤ
normalize_s_value s = if ltb secp256k1_half_order s then secp256k1_order -ℤ s else pos s

pub data HexChar : Type 0 where
  digit : ℕ → HexChar
  minus : HexChar

abbrev pub Hex : Type 0
Hex = List HexChar

-- The digits of a number that has no more than `fuel` of them.
unfoldable pub digits_within : (fuel : ℕ) → ℕ → List ℕ
digits_within zero n = []
digits_within (suc fuel) n =
    let rest = digits_within fuel (n / 16) in if n == 0 then [] else rest ++ n % 16 ∷ []

-- An integer of the parser has 255 bytes at most.
abbrev pub max_digits : ℕ
max_digits = 510

unfoldable pub to_string : ℕ → Hex
to_string n = if n == 0 then digit 0 ∷ [] else map digit (digits_within max_digits n)

unfoldable pub to_string_signed : ℤ → Hex
unfolding to_string
to_string_signed (pos n) = to_string n
to_string_signed (negsuc n) = minus ∷ to_string (suc n)

unfoldable pub word_of : ℤ → Hex
unfolding to_string_signed
word_of n = pad_start 64 (digit 0) (to_string_signed n)

pub record EthSignature : Type 0 where
  pub r : Hex
  pub s : Hex
  pub v : ℕ

-- ── The recovery bit ──
module _ (Hash : Type 0) (recover_address : Hash → EthSignature → Option String) where
  abbrev pub is_signer : String → Option String → Bool
  is_signer signer none = false
  is_signer signer (some recovered) = same (lower recovered) (lower signer)

  unfoldable pub try_each : Hash → String → Hex → Hex → List ℕ → Result EthSignature
  try_each hash signer r s [] =
      err (invalid_argument "Could not determine recovery parameter v for KMS signature")
  try_each hash signer r s (v ∷ vs) =
      let rest = try_each hash signer r s vs in
      if is_signer signer (recover_address hash (record { r = r; s = s; v = v }))
      then ok (record { r = r; s = s; v = v })
      else rest

  abbrev pub with_parsed : Hash → String → Result (ℕ × ℕ) → Result EthSignature
  with_parsed hash signer (err e) = err e
  with_parsed hash signer (ok (r, s)) =
      try_each hash signer (word_of (pos r)) (word_of (normalize_s_value s)) (27 ∷ 28 ∷ [])

  unfoldable pub der_to_eth_signature : Hash → List ℕ → String → Result EthSignature
  unfolding parse_der_signature
  der_to_eth_signature hash der signer = with_parsed hash signer (parse_der_signature der)

  unfoldable pub encode_signature : EthSignature → Hex
  encode_signature sig =
      sig.r ++ sig.s ++ (if sig.v == 27 then digit 1 ∷ digit 11 ∷ [] else digit 1 ∷ digit 12 ∷ [])

  abbrev pub encode_if : Result EthSignature → Result Hex
  encode_if (err e) = err e
  encode_if (ok sig) = ok (encode_signature sig)

  -- What signMessage and signTypedData do with the hash of a message and the key service's answer.
  unfoldable pub sign : Hash → Result (List ℕ) → String → Result Hex
  unfolding der_to_eth_signature
  sign hash (err e) signer = err e
  sign hash (ok der) signer = encode_if (der_to_eth_signature hash der signer)
