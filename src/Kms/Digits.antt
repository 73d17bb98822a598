-- ===== src/Kms/Digits.antt =====
-- What number a text of hex digits stands for.
use carbon_contractors_com.Prelude.{
  ℕ, zero, suc, ◌+◌, ◌-◌, ◌*◌, ◌/◌, ◌%◌, ◌^◌, ◌≤◌, ◌<◌, ◌≡◌, refl, sym, ap, ◌∙◌, List, [], ◌∷◌,
  ◌++◌, ◌==◌, length, length-snoc, Bool-cases, inl, inr, ==_iff, arith,
}
use carbon_contractors_com.Kms.{
  hex_of, big_int_from, replicate, strip_sign, integer_of, digits_within,
}

-- Base 256, the most significant byte first.
unfoldable pub value_from : ℕ → List ℕ → ℕ
value_from n [] = n
value_from n (b ∷ bs) = value_from (n * 256 + b) bs

big_int_from-hex_of : (n : ℕ) (bs : List ℕ) → big_int_from n (hex_of bs) ≡ value_from n bs
unfolding big_int_from hex_of value_from
big_int_from-hex_of n [] = refl
big_int_from-hex_of n (b ∷ bs) =
    let step : (n * 16 + b / 16) * 16 + b % 16 ≡ n * 256 + b = omega arith in
    big_int_from-hex_of ((n * 16 + b / 16) * 16 + b % 16) bs ∙ ap (λ m. value_from m bs) step

pub big_int_from-zeros :
    (k : ℕ) (ds : List ℕ) → big_int_from 0 (replicate k 0 ++ ds) ≡ big_int_from 0 ds
unfolding big_int_from
big_int_from-zeros zero ds = refl
big_int_from-zeros (suc k) ds = big_int_from-zeros k ds

value_from-strip_sign : (bs : List ℕ) → value_from 0 (strip_sign bs) ≡ value_from 0 bs
unfolding value_from strip_sign
value_from-strip_sign [] = refl
value_from-strip_sign (b ∷ bs) = elim (Bool-cases (b == 0)) [
  | inl e ↦
      rw e
        (let z : 0 ≡ 0 * 256 + b = omega (arith, (==_iff b 0).0 e) in ap (λ n. value_from n bs) z)
  | inr e ↦ rw e refl
]

pub integer_of_lem : (bs : List ℕ) → integer_of bs ≡ value_from 0 bs
unfolding integer_of
integer_of_lem bs =
    big_int_from-zeros (64 - length (hex_of (strip_sign bs))) (hex_of (strip_sign bs))
    ∙ big_int_from-hex_of 0 (strip_sign bs)
    ∙ value_from-strip_sign bs

big_int_from-snoc :
    (n d : ℕ) (ds : List ℕ) → big_int_from n (ds ++ d ∷ []) ≡ big_int_from n ds * 16 + d
unfolding big_int_from
big_int_from-snoc n d [] = refl
big_int_from-snoc n d (e ∷ ds) = big_int_from-snoc (n * 16 + e) d ds

pub big_int_from-digits : (fuel n : ℕ) → n < 16 ^ fuel → big_int_from 0 (digits_within fuel n) ≡ n
unfolding digits_within big_int_from
big_int_from-digits zero n h = omega arith
big_int_from-digits (suc fuel) n h = elim (Bool-cases (n == 0)) [
  | inl e ↦ rw e (sym ((==_iff n 0).0 e))
  | inr e ↦
      rw (e, big_int_from-snoc 0 (n % 16) (digits_within fuel (n / 16)))
        (let below : n / 16 < 16 ^ fuel = grind arith in
          rw (big_int_from-digits fuel (n / 16) below) (omega arith))
]

pub length-digits_within : (fuel k n : ℕ) → n < 16 ^ k → length (digits_within fuel n) ≤ k
unfolding digits_within
length-digits_within zero k n h = omega arith
length-digits_within (suc fuel) zero n h = let e : n ≡ 0 = omega arith in rw e (omega arith)
length-digits_within (suc fuel) (suc k) n h = elim (Bool-cases (n == 0)) [
  | inl e ↦ rw e (omega arith)
  | inr e ↦
      rw (e, length-snoc (digits_within fuel (n / 16)) (n % 16))
        (let below : n / 16 < 16 ^ k = grind arith in
          let ih = length-digits_within fuel k (n / 16) below in omega arith)
]
