-- ===== src/Kms/Der.antt =====
-- The parser of DER reads what the encoding of two integers is. The encoding is that of X.690: the
-- tag and the length of a sequence, and for each integer its tag, its length, and its bytes, the
-- most significant first, with a zero before a byte that would make it negative.
use carbon_contractors_com.Prelude.{
  ℕ, zero, suc, ◌+◌, ◌*◌, ◌/◌, ◌%◌, ◌^◌, ◌≤◌, ◌<◌, ◌≡◌, refl, sym, ap, List, [], ◌∷◌, ◌++◌,
  if◌then◌else◌, false, leb, ltb, ◌==◌, length, take, Bool-cases, inl, inr, ==_iff, arith,
}
use carbon_contractors_com.World.{ok}
use carbon_contractors_com.Kms.{drop, get_elem?, parse_second, parse_der_signature}
use carbon_contractors_com.Kms.Digits.{value_from, integer_of_lem}

take-append : (xs ys : List ℕ) → take (length xs) (xs ++ ys) ≡ xs
take-append [] ys = refl
take-append (x ∷ xs) ys = ap (λ zs. x ∷ zs) (take-append xs ys)

drop-append : (n k : ℕ) (xs ys : List ℕ) → n ≡ length xs + k → drop n (xs ++ ys) ≡ drop k ys
drop-append n k [] ys e = ap (λ m. drop m ys) (let z : n ≡ k = omega arith in z)
drop-append zero k (x ∷ xs) ys e = elim (let no : ⊥ = omega arith in no) [ ]
drop-append (suc n) k (x ∷ xs) ys e = drop-append n k xs ys (omega arith)

get_elem?-append :
    (n k : ℕ) (xs ys : List ℕ) → n ≡ length xs + k → get_elem? (xs ++ ys) n ≡ get_elem? ys k
get_elem?-append n k [] ys e = ap (get_elem? ys) (let z : n ≡ k = omega arith in z)
get_elem?-append zero k (x ∷ xs) ys e = elim (let no : ⊥ = omega arith in no) [ ]
get_elem?-append (suc n) k (x ∷ xs) ys e = get_elem?-append n k xs ys (omega arith)

length-append : (xs ys : List ℕ) → length (xs ++ ys) ≡ length xs + length ys
length-append [] ys = omega arith
length-append (x ∷ xs) ys = omega (arith, length-append xs ys)

-- Two integers by their bytes, and what follows them.
abbrev pub der_of : List ℕ → List ℕ → List ℕ → List ℕ
der_of r s rest = 48 ∷ (4 + length r + length s) ∷ 2 ∷ length r ∷ (r ++ 2 ∷ length s ∷ (s ++ rest))

second_lem :
    (r s rest : List ℕ) (offset n : ℕ)
    → offset ≡ 4 + length r
    → parse_second (der_of r s rest) offset n ≡ ok (n, value_from 0 s)
unfolding parse_second
second_lem r s rest offset n e =
    let lead = 48 ∷ (4 + length r + length s) ∷ 2 ∷ length r ∷ r in
    let tail = 2 ∷ length s ∷ (s ++ rest) in
    rw
      (
        get_elem?-append offset 0 lead tail (omega arith),
        get_elem?-append (offset + 1) 1 lead tail (omega arith),
        drop-append (offset + 2) 2 lead tail (omega arith),
        take-append s rest,
        integer_of_lem s,
      )
      refl

pub parse_der_signature-bytes :
    (r s rest : List ℕ)
    → 1 ≤ length r
    → 1 ≤ length s
    → parse_der_signature (der_of r s rest) ≡ ok (value_from 0 r, value_from 0 s)
unfolding parse_der_signature
parse_der_signature-bytes r s rest hr hs =
    let long : ltb (length (der_of r s rest)) 8 ≡ false =
      rw (length-append r (2 ∷ length s ∷ (s ++ rest)), length-append s rest) (ground arith) in
    rw (long, take-append r (2 ∷ length s ∷ (s ++ rest)), integer_of_lem r)
      (second_lem r s rest (4 + length r) (value_from 0 r) refl)

-- ── Numbers ──
unfoldable pub bytes_within : (fuel : ℕ) → ℕ → List ℕ
bytes_within zero n = []
bytes_within (suc fuel) n =
    let rest = bytes_within fuel (n / 256) in if n == 0 then [] else rest ++ n % 256 ∷ []

abbrev pub with_sign : List ℕ → List ℕ
with_sign [] = 0 ∷ []
with_sign (b ∷ bs) = if leb 128 b then 0 ∷ b ∷ bs else b ∷ bs

-- Two numbers of up to 32 bytes.
unfoldable pub encode_der : ℕ → ℕ → List ℕ
unfolding bytes_within
encode_der r s = der_of (with_sign (bytes_within 32 r)) (with_sign (bytes_within 32 s)) []

value_from-snoc : (n b : ℕ) (bs : List ℕ) → value_from n (bs ++ b ∷ []) ≡ value_from n bs * 256 + b
unfolding value_from
value_from-snoc n b [] = refl
value_from-snoc n b (c ∷ bs) = value_from-snoc (n * 256 + c) b bs

value_from-bytes : (fuel n : ℕ) → n < 256 ^ fuel → value_from 0 (bytes_within fuel n) ≡ n
unfolding bytes_within value_from
value_from-bytes zero n h = omega arith
value_from-bytes (suc fuel) n h = elim (Bool-cases (n == 0)) [
  | inl e ↦ rw e (sym ((==_iff n 0).0 e))
  | inr e ↦
      rw (e, value_from-snoc 0 (n % 256) (bytes_within fuel (n / 256)))
        (let below : n / 256 < 256 ^ fuel = grind arith in
          rw (value_from-bytes fuel (n / 256) below) (omega arith))
]

value_from-with_sign : (bs : List ℕ) → value_from 0 (with_sign bs) ≡ value_from 0 bs
unfolding value_from
value_from-with_sign [] = refl
value_from-with_sign (b ∷ bs) = ground arith

with_sign-long : (bs : List ℕ) → 1 ≤ length (with_sign bs)
with_sign-long [] = omega arith
with_sign-long (b ∷ bs) = ground arith

-- What is read back from the encoding of two numbers of 256 bits is those numbers.
pub parse_der_signature-encode :
    (r s : ℕ) → r < 2 ^ 256 → s < 2 ^ 256 → parse_der_signature (encode_der r s) ≡ ok (r, s)
unfolding encode_der
parse_der_signature-encode r s hr hs =
    rw
      (
        parse_der_signature-bytes (with_sign (bytes_within 32 r)) (with_sign (bytes_within 32 s)) []
            (with_sign-long (bytes_within 32 r)) (with_sign-long (bytes_within 32 s)),
        value_from-with_sign (bytes_within 32 r),
        value_from-with_sign (bytes_within 32 s),
        value_from-bytes 32 r hr,
        value_from-bytes 32 s hs,
      )
      refl
