-- ===== src/Verdicts/Json.antt =====
-- The wire shape of a verdict, src/lib/contracts/verdict-json.ts: its numbers are decimal texts, of up
-- to 78 digits as a uint256 has. An object is what its fields hold.
use Prim.Native.Char.{Char}
use carbon_contractors_com.Prelude.{
  ℕ, zero, suc, ◌+◌, ◌-◌, ◌*◌, ◌/◌, ◌%◌, Bool, false, not, ◌&&◌, ◌||◌, Option, none, some, List, [],
  ◌∷◌, ◌++◌, String, same, if◌then◌else◌, leb, ◌==◌, length, is_empty, every,
}
use carbon_contractors_com.Checker.Hashes.{codes}
use carbon_contractors_com.Verdicts.{SignedVerdict}

pub record SerializedVerdict : Type 0 where
  pub task_id : String
  pub spec_hash : String
  pub evidence_hash : String
  pub checker_hash : String
  pub passed : Bool
  pub breakdown_hash : String
  pub expiry : String
  pub nonce : String

-- ── `toString` and `BigInt` ──
unfoldable pub digit_char : ℕ → Char
digit_char zero = "0"
digit_char (suc zero) = "1"
digit_char (suc (suc zero)) = "2"
digit_char (suc (suc (suc zero))) = "3"
digit_char (suc (suc (suc (suc zero)))) = "4"
digit_char (suc (suc (suc (suc (suc zero))))) = "5"
digit_char (suc (suc (suc (suc (suc (suc zero)))))) = "6"
digit_char (suc (suc (suc (suc (suc (suc (suc zero))))))) = "7"
digit_char (suc (suc (suc (suc (suc (suc (suc (suc zero)))))))) = "8"
digit_char _ = "9"

unfoldable pub text_of : List ℕ → String
text_of [] = String.[]
text_of (d ∷ ds) = String.◌∷◌ (digit_char d) (text_of ds)

unfoldable pub decimals_within : (fuel : ℕ) → ℕ → List ℕ
decimals_within zero n = []
decimals_within (suc fuel) n =
    let rest = decimals_within fuel (n / 10) in if n == 0 then [] else rest ++ n % 10 ∷ []

abbrev pub max_decimals : ℕ
max_decimals = 78

unfoldable pub decimal_of : ℕ → String
decimal_of n = if n == 0 then text_of (0 ∷ []) else text_of (decimals_within max_decimals n)

unfoldable pub number_in : ℕ → List ℕ → ℕ
number_in n [] = n
number_in n (c ∷ cs) = number_in (n * 10 + (c - 48)) cs

unfoldable pub big_int : String → ℕ
big_int s = number_in 0 (codes s)

abbrev pub is_decimal : ℕ → Bool
is_decimal c = leb 48 c && leb c 57

-- /^\d+$/
unfoldable pub is_number_text : String → Bool
is_number_text s = not (is_empty (codes s)) && every is_decimal (codes s)

abbrev pub is_hex_code : ℕ → Bool
is_hex_code c = leb 48 c && leb c 57 || leb 97 c && leb c 102 || leb 65 c && leb c 70

abbrev pub is_hash_codes : List ℕ → Bool
is_hash_codes [] = false
is_hash_codes (z ∷ []) = false
is_hash_codes (z ∷ x ∷ cs) = z == 48 && x == 120 && length cs == 64 && every is_hex_code cs

-- /^0x[0-9a-fA-F]{64}$/
unfoldable pub is_hash : String → Bool
is_hash s = is_hash_codes (codes s)

-- ── The payload ──
pub data Json : Type 0 where
  text : String → Json
  boolean : Bool → Json
  other : Json

abbrev pub Object : Type 0
Object = String → Option Json

unfoldable pub serialize_verdict : SignedVerdict → SerializedVerdict
serialize_verdict v = record {
  task_id = v.task_id;
  spec_hash = v.spec_hash;
  evidence_hash = v.evidence_hash;
  checker_hash = v.checker_hash;
  passed = v.passed;
  breakdown_hash = v.breakdown_hash;
  expiry = decimal_of v.expiry;
  nonce = decimal_of v.nonce;
}

-- What JSON makes of it.
unfoldable pub object_of : SerializedVerdict → Object
object_of v field =
    if same field "taskId"
    then some (text v.task_id)
    else if same field "specHash"
    then some (text v.spec_hash)
    else if same field "evidenceHash"
    then some (text v.evidence_hash)
    else if same field "checkerHash"
    then some (text v.checker_hash)
    else if same field "passed"
    then some (boolean v.passed)
    else if same field "breakdownHash"
    then some (text v.breakdown_hash)
    else if same field "expiry"
    then some (text v.expiry)
    else if same field "nonce"
    then some (text v.nonce)
    else none

pub data PayloadFault : Type 0 where
  not_an_object : PayloadFault
  not_a_hash : String → PayloadFault
  not_a_boolean : PayloadFault
  not_a_number : String → PayloadFault

pub data Payload : Type 0 where
  parsed : SignedVerdict → Payload
  malformed : PayloadFault → Payload

abbrev pub holds_text : (String → Bool) → Option Json → Bool
holds_text p (some (text s)) = p s
holds_text p _ = false

abbrev pub text_in : Option Json → String
text_in (some (text s)) = s
text_in _ = ""

abbrev pub hash_fields : List String
hash_fields = "taskId" ∷ "specHash" ∷ "evidenceHash" ∷ "checkerHash" ∷ "breakdownHash" ∷ []

abbrev pub first_bad : Object → List String → Option String
first_bad o [] = none
first_bad o (f ∷ fs) =
    let rest = first_bad o fs in if holds_text is_hash (o f) then rest else some f

abbrev pub with_numbers : Object → Bool → Payload
with_numbers o passed =
    if not (holds_text is_number_text (o "expiry"))
    then malformed (not_a_number "expiry")
    else if not (holds_text is_number_text (o "nonce"))
    then malformed (not_a_number "nonce")
    else parsed (record {
      task_id = text_in (o "taskId");
      spec_hash = text_in (o "specHash");
      evidence_hash = text_in (o "evidenceHash");
      checker_hash = text_in (o "checkerHash");
      passed = passed;
      breakdown_hash = text_in (o "breakdownHash");
      expiry = big_int (text_in (o "expiry"));
      nonce = big_int (text_in (o "nonce"));
    })

abbrev pub with_passed : Object → Option Json → Payload
with_passed o (some (boolean b)) = with_numbers o b
with_passed o _ = malformed not_a_boolean

abbrev pub with_hashes : Object → Option String → Payload
with_hashes o (some field) = malformed (not_a_hash field)
with_hashes o none = with_passed o (o "passed")

unfoldable pub parse_verdict_payload : Option Object → Payload
parse_verdict_payload none = malformed not_an_object
parse_verdict_payload (some o) = with_hashes o (first_bad o hash_fields)
