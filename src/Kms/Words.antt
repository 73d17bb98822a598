-- ===== src/Kms/Words.antt =====
-- A word of 64 hex digits stands for the number it is made of.
use carbon_contractors_com.Prelude.{
  ℕ, zero, suc, ◌+◌, ◌-◌, ◌*◌, ◌^◌, ◌≤◌, ◌<◌, ◌≡◌, refl, sym, ap, ◌∙◌, List, [], ◌∷◌, ◌++◌, map,
  ◌==◌, length, Bool-cases, inl, inr, ==_iff, arith,
}
use carbon_contractors_com.Kms.{
  big_int_from, replicate, pos, digit, minus, Hex, digits_within, max_digits, to_string,
  to_string_signed, word_of,
}
use carbon_contractors_com.Kms.Digits.{big_int_from-digits, length-digits_within}

-- The number that a text of hex digits stands for.
unfoldable pub number_from : ℕ → Hex → ℕ
number_from n [] = n
number_from n (digit d ∷ ds) = number_from (n * 16 + d) ds
number_from n (minus ∷ ds) = number_from n ds

number_from-map : (n : ℕ) (ds : List ℕ) → number_from n (map digit ds) ≡ big_int_from n ds
unfolding number_from big_int_from
number_from-map n [] = refl
number_from-map n (d ∷ ds) = number_from-map (n * 16 + d) ds

number_from-zeros :
    (k : ℕ) (ds : Hex) → number_from 0 (replicate k (digit 0) ++ ds) ≡ number_from 0 ds
unfolding number_from
number_from-zeros zero ds = refl
number_from-zeros (suc k) ds = number_from-zeros k ds

length-map : (ds : List ℕ) → length (map digit ds) ≡ length ds
length-map [] = refl
length-map (d ∷ ds) = ap (λ n. suc n) (length-map ds)

length-zeros : (k : ℕ) (ds : Hex) → length (replicate k (digit 0) ++ ds) ≡ k + length ds
length-zeros zero ds = omega arith
length-zeros (suc k) ds = omega (arith, length-zeros k ds)

number_from-to_string : (n : ℕ) → n < 2 ^ 256 → number_from 0 (to_string n) ≡ n
unfolding to_string number_from
number_from-to_string n h = elim (Bool-cases (n == 0)) [
  | inl e ↦ rw e (sym ((==_iff n 0).0 e))
  | inr e ↦ rw e (
      number_from-map 0 (digits_within max_digits n)
      ∙ big_int_from-digits max_digits n (omega arith))
]

length-to_string : (n : ℕ) → n < 2 ^ 256 → length (to_string n) ≤ 64
unfolding to_string
length-to_string n h = elim (Bool-cases (n == 0)) [
  | inl e ↦ rw e (omega arith)
  | inr e ↦ rw (e, length-map (digits_within max_digits n)) (length-digits_within max_digits 64 n h)
]

pub number_from-word_of : (n : ℕ) → n < 2 ^ 256 → number_from 0 (word_of (pos n)) ≡ n
unfolding word_of to_string_signed
number_from-word_of n h =
    number_from-zeros (64 - length (to_string n)) (to_string n) ∙ number_from-to_string n h

pub length-word_of : (n : ℕ) → n < 2 ^ 256 → length (word_of (pos n)) ≡ 64
unfolding word_of to_string_signed
length-word_of n h =
    let short = length-to_string n h in
    rw (length-zeros (64 - length (to_string n)) (to_string n)) (omega arith)
