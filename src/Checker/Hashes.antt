-- ===== src/Checker/Hashes.antt =====
-- Perceptual hashes: normalizeHex, hammingHex and maxSimilarity of src/lib/checker/evaluator.ts.
-- A hash is the list of its hex digits. A similarity is an exact fraction over the number of bits,
-- where the source has a double.
use Prim.Native.Char.{code}
use carbon_contractors_com.Prelude.{
  not, true, false, ℕ, zero, suc, ◌+◌, ◌-◌, ◌*◌, ◌/◌, ◌%◌, String, Bool, ◌&&◌, ◌||◌, Option, none,
  some, List, [], ◌∷◌, reverse, leb, ltb, ◌==◌, if◌then◌else◌, length, lower, is_empty,
}
use carbon_contractors_com.Checker.Evidence.{Threshold}

-- The white space of `String.prototype.trim`.
unfoldable pub is_space : ℕ → Bool
is_space n =
    leb 9 n && leb n 13
    || n == 32
    || n == 160
    || n == 5760
    || leb 8192 n && leb n 8202
    || n == 8232
    || n == 8233
    || n == 8239
    || n == 8287
    || n == 12288
    || n == 65279

unfoldable pub codes : String → List ℕ
codes String.[] = []
codes (String.◌∷◌ c s) = code c ∷ codes s

unfoldable pub trim_start : List ℕ → List ℕ
trim_start [] = []
trim_start (n ∷ ns) = let rest = trim_start ns in if is_space n then rest else n ∷ ns

unfoldable pub trim : List ℕ → List ℕ
trim ns = reverse (trim_start (reverse (trim_start ns)))

-- `replace(/^0x/, "")`.
unfoldable pub drop_prefix : List ℕ → List ℕ
drop_prefix [] = []
drop_prefix (m ∷ []) = m ∷ []
drop_prefix (m ∷ n ∷ ns) = if m == 48 && n == 120 then ns else m ∷ n ∷ ns

-- The value of a small hex digit.
unfoldable pub digit : ℕ → Option ℕ
digit n =
    if leb 48 n && leb n 57
    then some (n - 48)
    else if leb 97 n && leb n 102
    then some (n - 87)
    else none

unfoldable pub and_digits : Option ℕ → Option (List ℕ) → Option (List ℕ)
and_digits none ds = none
and_digits (some d) none = none
and_digits (some d) (some ds) = some (d ∷ ds)

unfoldable pub digits : List ℕ → Option (List ℕ)
unfolding and_digits
digits [] = some []
digits (n ∷ ns) = and_digits (digit n) (digits ns)

unfoldable pub normalize_hex : String → Option (List ℕ)
normalize_hex value =
    let bare = drop_prefix (trim (codes (lower value))) in
    if is_empty bare then none else digits bare

-- `^` and the loop that counts the bits, on n bits.
unfoldable pub xor : ℕ → ℕ → ℕ → ℕ
xor zero a b = 0
xor (suc n) a b = (a % 2 + b % 2) % 2 + 2 * xor n (a / 2) (b / 2)

unfoldable pub popcount : ℕ → ℕ → ℕ
popcount zero x = 0
popcount (suc n) x = x % 2 + popcount n (x / 2)

unfoldable pub distance_from : ℕ → List ℕ → List ℕ → ℕ
distance_from d [] bs = d
distance_from d (a ∷ more) [] = d
distance_from d (a ∷ more) (b ∷ bs) = distance_from (d + popcount 4 (xor 4 a b)) more bs

unfoldable pub hamming_hex : List ℕ → List ℕ → Option ℕ
hamming_hex a b = if length a == length b then some (distance_from 0 a b) else none

-- `matching` of `bits` bits agree: the similarity `matching / bits`.
pub record Similarity : Type 0 where
  pub matching : ℕ
  pub bits : ℕ

unfoldable pub is_above : Similarity → Similarity → Bool
is_above s t = ltb (t.matching * s.bits) (s.matching * t.bits)

unfoldable pub raise : Option Similarity → Similarity → Option Similarity
raise none s = some s
raise (some t) s = some (if is_above s t then s else t)

unfoldable pub similarity_at : ℕ → List ℕ → Similarity
similarity_at d reference = record {
  matching = length reference * 4 - d;
  bits = length reference * 4;
}

-- What the loop over the references does, from the highest similarity so far.
unfoldable pub highest_from : Option Similarity → List ℕ → List (List ℕ) → Option Similarity
unfolding raise
highest_from highest artifact [] = highest
highest_from highest artifact (reference ∷ references) = elim (hamming_hex reference artifact) [
  | none ↦ none
  | some d ↦ highest_from (raise highest (similarity_at d reference)) artifact references
]

unfoldable pub max_similarity : List ℕ → List (List ℕ) → Option Similarity
max_similarity artifact references = highest_from none artifact references

unfoldable pub is_too_similar : Threshold → Similarity → Bool
is_too_similar t s = not (leb (s.matching * t.denominator) (t.numerator * s.bits))

unfoldable pub with_reference : Option (List ℕ) → Option (List (List ℕ)) → Option (List (List ℕ))
with_reference none rest = none
with_reference (some ds) none = none
with_reference (some ds) (some rest) = some (ds ∷ rest)

-- The references, all of them hashes or none of them used.
unfoldable pub valid_references : List String → Option (List (List ℕ))
unfolding with_reference
valid_references [] = some []
valid_references (s ∷ source) = with_reference (normalize_hex s) (valid_references source)

-- `findIndex`, from a number on.
unfoldable pub bad_reference_index : ℕ → List String → ℕ
bad_reference_index n [] = n
bad_reference_index n (s ∷ source) = elim (normalize_hex s) [
  | none ↦ n
  | some ds ↦ bad_reference_index (suc n) source
]

unfoldable pub normalized : Option String → Option (List ℕ)
normalized none = none
normalized (some s) = normalize_hex s

unfoldable pub similarity_to : Option (List (List ℕ)) → Option (List ℕ) → Option Similarity
similarity_to none artifact = none
similarity_to (some references) none = none
similarity_to (some references) (some artifact) = max_similarity artifact references

unfoldable pub is_within_cap : Threshold → Option Similarity → Bool
is_within_cap t none = false
is_within_cap t (some s) = not (is_too_similar t s)

unfoldable pub is_above_cap : Threshold → Option Similarity → Bool
is_above_cap t none = false
is_above_cap t (some s) = is_too_similar t s

unfoldable pub is_uncomparable : Option Similarity → Bool
is_uncomparable none = true
is_uncomparable (some s) = false
