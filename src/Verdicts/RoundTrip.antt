-- ===== src/Verdicts/RoundTrip.antt =====
-- A verdict that is serialised is read back, src/lib/contracts/verdict-json.ts.
use Prim.Native.Char.{code}
use carbon_contractors_com.Prelude.{
  ℕ, zero, suc, ◌+◌, ◌-◌, ◌*◌, ◌/◌, ◌%◌, ◌^◌, ◌<◌, ◌≡◌, refl, sym, ap, ◌∙◌, true, false, List, [],
  ◌∷◌, ◌++◌, map, some, same, ◌==◌, ==_iff, is_empty, every, All, All-snoc, Bool-cases, inl, inr,
  arith,
}
use carbon_contractors_com.Checker.Hashes.{codes}
use carbon_contractors_com.Verdicts.{SignedVerdict}
use carbon_contractors_com.Verdicts.Json.{
  digit_char, text_of, decimals_within, max_decimals, decimal_of, number_in, big_int, is_decimal,
  is_number_text, is_hash, serialize_verdict, object_of, parsed, parse_verdict_payload,
}

abbrev Digits : List ℕ → Type 0
Digits ds = All (λ d. d < 10) ds

code-digit_char : (d : ℕ) → d < 10 → code (digit_char d) ≡ 48 + d
unfolding digit_char
code-digit_char zero h = refl
code-digit_char (suc zero) h = refl
code-digit_char (suc (suc zero)) h = refl
code-digit_char (suc (suc (suc zero))) h = refl
code-digit_char (suc (suc (suc (suc zero)))) h = refl
code-digit_char (suc (suc (suc (suc (suc zero))))) h = refl
code-digit_char (suc (suc (suc (suc (suc (suc zero)))))) h = refl
code-digit_char (suc (suc (suc (suc (suc (suc (suc zero))))))) h = refl
code-digit_char (suc (suc (suc (suc (suc (suc (suc (suc zero)))))))) h = refl
code-digit_char (suc (suc (suc (suc (suc (suc (suc (suc (suc zero))))))))) h = refl
code-digit_char (suc (suc (suc (suc (suc (suc (suc (suc (suc (suc d)))))))))) h =
    elim (let no : ⊥ = omega arith in no) [ ]

codes-text_of : (ds : List ℕ) → Digits ds → codes (text_of ds) ≡ map (λ d. 48 + d) ds
unfolding codes text_of
codes-text_of [] h = refl
codes-text_of (d ∷ ds) (h, hs) = rw (code-digit_char d h, codes-text_of ds hs) refl

decimals-Digits : (fuel n : ℕ) → Digits (decimals_within fuel n)
unfolding decimals_within
decimals-Digits zero n = tt
decimals-Digits (suc fuel) n = elim (Bool-cases (n == 0)) [
  | inl e ↦ rw e tt
  | inr e ↦ rw e (
      All-snoc (λ d. d < 10) (decimals_within fuel (n / 10)) (n % 10)
        (decimals-Digits fuel (n / 10)) (omega arith))
]

-- The value of decimal digits.
unfoldable pub value_of : ℕ → List ℕ → ℕ
value_of n [] = n
value_of n (d ∷ ds) = value_of (n * 10 + d) ds

number_in-map : (n : ℕ) (ds : List ℕ) → number_in n (map (λ d. 48 + d) ds) ≡ value_of n ds
unfolding number_in value_of
number_in-map n [] = refl
number_in-map n (d ∷ ds) =
    let step : n * 10 + (48 + d - 48) ≡ n * 10 + d = omega arith in
    number_in-map (n * 10 + (48 + d - 48)) ds ∙ ap (λ m. value_of m ds) step

value_of-snoc : (n d : ℕ) (ds : List ℕ) → value_of n (ds ++ d ∷ []) ≡ value_of n ds * 10 + d
unfolding value_of
value_of-snoc n d [] = refl
value_of-snoc n d (e ∷ ds) = value_of-snoc (n * 10 + e) d ds

value_of-decimals : (fuel n : ℕ) → n < 10 ^ fuel → value_of 0 (decimals_within fuel n) ≡ n
unfolding decimals_within value_of
value_of-decimals zero n h = omega arith
value_of-decimals (suc fuel) n h = elim (Bool-cases (n == 0)) [
  | inl e ↦ rw e (sym ((==_iff n 0).0 e))
  | inr e ↦
      rw (e, value_of-snoc 0 (n % 10) (decimals_within fuel (n / 10)))
        (let below : n / 10 < 10 ^ fuel = grind arith in
          rw (value_of-decimals fuel (n / 10) below) (omega arith))
]

every-decimal : (ds : List ℕ) → Digits ds → every is_decimal (map (λ d. 48 + d) ds) ≡ true
every-decimal [] h = refl
every-decimal (d ∷ ds) (h, hs) = ground (arith, every-decimal ds hs)

-- Digits that stand for more than nothing are some.
some-digits : (ds : List ℕ) → (value_of 0 ds == 0) ≡ false → is_empty (map (λ d. 48 + d) ds) ≡ false
unfolding value_of
some-digits [] e = cc
some-digits (d ∷ ds) e = refl

big_int-decimal_of : (n : ℕ) → n < 10 ^ max_decimals → big_int (decimal_of n) ≡ n
unfolding big_int decimal_of value_of
big_int-decimal_of n h = elim (Bool-cases (n == 0)) [
  | inl e ↦
      rw (e, codes-text_of (0 ∷ []) (omega arith, tt), number_in-map 0 (0 ∷ []))
        (sym ((==_iff n 0).0 e))
  | inr e ↦
      rw
        (
          e,
          codes-text_of (decimals_within max_decimals n) (decimals-Digits max_decimals n),
          number_in-map 0 (decimals_within max_decimals n),
        )
        (value_of-decimals max_decimals n h)
]

decimal_of-is_number_text : (n : ℕ) → n < 10 ^ max_decimals → is_number_text (decimal_of n) ≡ true
unfolding is_number_text decimal_of
decimal_of-is_number_text n h = elim (Bool-cases (n == 0)) [
  | inl e ↦ rw (e, codes-text_of (0 ∷ []) (omega arith, tt)) refl
  | inr e ↦
      rw
        (
          e,
          codes-text_of (decimals_within max_decimals n) (decimals-Digits max_decimals n),
          every-decimal (decimals_within max_decimals n) (decimals-Digits max_decimals n),
          some-digits (decimals_within max_decimals n) (rw (value_of-decimals max_decimals n h) e),
        )
        refl
]

-- A verdict of bytes32 hashes and uint256 numbers survives the way to the dashboard: what is read of
-- the object that it was serialised to is that verdict.
pub parse_verdict_payload-serialize :
    (v : SignedVerdict)
    → is_hash v.task_id ≡ true
    → is_hash v.spec_hash ≡ true
    → is_hash v.evidence_hash ≡ true
    → is_hash v.checker_hash ≡ true
    → is_hash v.breakdown_hash ≡ true
    → v.expiry < 2 ^ 256
    → v.nonce < 2 ^ 256
    → parse_verdict_payload (some (object_of (serialize_verdict v))) ≡ parsed v
unfolding parse_verdict_payload object_of serialize_verdict same
parse_verdict_payload-serialize v task spec evidence checker breakdown expiry nonce =
    let expiry_fits : v.expiry < 10 ^ max_decimals = omega arith in
    let nonce_fits : v.nonce < 10 ^ max_decimals = omega arith in
    rw
      (
        task,
        spec,
        evidence,
        checker,
        breakdown,
        decimal_of-is_number_text v.expiry expiry_fits,
        decimal_of-is_number_text v.nonce nonce_fits,
        big_int-decimal_of v.expiry expiry_fits,
        big_int-decimal_of v.nonce nonce_fits,
      )
      refl
