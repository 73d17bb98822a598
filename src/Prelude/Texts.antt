-- ===== src/Prelude/Texts.antt =====
-- Text: the comparison of strings, and `toLowerCase` on ASCII.
use Prim.Native.Nat.{ℕ}
use Prim.Native.Char.{Char, code}
use Prim.Native.String.{String}
use mathlib.Core.Path.{◌≡◌, refl, ap, ap₂}
use mathlib.Core.Logic.{◌↔◌, inl, inr}
use mathlib.Core.Bool.{Bool, true}
use mathlib.Core.Option.{Option, none, some}
use mathlib.Core.List.{List, [], ◌∷◌}
use native.Mathlib.Omega.{arith}
use text.Mathlib.Text.{◌==◌ as eq}
use text.Mathlib.TextEquality.{eq_iff}
use carbon_contractors_com.Prelude.Tests.{◌==◌, if◌then◌else◌, Option-cases}
use carbon_contractors_com.Prelude.Lists.{All}

-- `===` on strings.
unfoldable pub same : String → String → Bool
same s t = eq s t

pub same_iff : (s t : String) → (same s t ≡ true) ↔ (s ≡ t)
unfolding same
same_iff s t = eq_iff s t

pub same_refl : (s : String) → same s s ≡ true
same_refl s = (same_iff s s).1 refl

-- The capital letters with their small ones.
abbrev letters : List (ℕ × Char)
letters =
    (b'A', "a")
    ∷ (b'B', "b")
    ∷ (b'C', "c")
    ∷ (b'D', "d")
    ∷ (b'E', "e")
    ∷ (b'F', "f")
    ∷ (b'G', "g")
    ∷ (b'H', "h")
    ∷ (b'I', "i")
    ∷ (b'J', "j")
    ∷ (b'K', "k")
    ∷ (b'L', "l")
    ∷ (b'M', "m")
    ∷ (b'N', "n")
    ∷ (b'O', "o")
    ∷ (b'P', "p")
    ∷ (b'Q', "q")
    ∷ (b'R', "r")
    ∷ (b'S', "s")
    ∷ (b'T', "t")
    ∷ (b'U', "u")
    ∷ (b'V', "v")
    ∷ (b'W', "w")
    ∷ (b'X', "x")
    ∷ (b'Y', "y")
    ∷ (b'Z', "z")
    ∷ []

small : ℕ → List (ℕ × Char) → Option Char
small n [] = none
small n ((m, c) ∷ more) = let rest = small n more in if n == m then some c else rest

abbrev or_char : Option Char → Char → Char
or_char none c = c
or_char (some l) c = l

lower_char : Char → Char
lower_char c = or_char (small (code c) letters) c

-- `toLowerCase`, on the code points below 128; the others are left as they are.
unfoldable pub lower : String → String
unfolding lower_char small
lower String.[] = String.[]
lower (String.◌∷◌ c s) = String.◌∷◌ (lower_char c) (lower s)

small-All :
    (P : Char → Type 0) (n : ℕ) (t : List (ℕ × Char)) (l : Char)
    → All (λ p. P p.1) t
    → small n t ≡ some l
    → P l
unfolding small
small-All P n [] l h e = cc
small-All P n ((m, c) ∷ t) l (p, ps) e = ground (arith, small-All P n t l ps)

letters_fixed : All (λ p. lower_char p.1 ≡ p.1) letters
unfolding lower_char small
letters_fixed = (
  refl,
  (
    refl,
    (
      refl,
      (
        refl,
        (
          refl,
          (
            refl,
            (
              refl,
              (
                refl,
                (
                  refl,
                  (
                    refl,
                    (
                      refl,
                      (
                        refl,
                        (
                          refl,
                          (
                            refl,
                            (
                              refl,
                              (
                                refl,
                                (
                                  refl,
                                  (
                                    refl,
                                    (
                                      refl,
                                      (refl, (refl, (refl, (refl, (refl, (refl, (refl, tt))))))),
                                    ),
                                  ),
                                ),
                              ),
                            ),
                          ),
                        ),
                      ),
                    ),
                  ),
                ),
              ),
            ),
          ),
        ),
      ),
    ),
  ),
)

lower_char-none : (c : Char) → small (code c) letters ≡ none → lower_char c ≡ c
unfolding lower_char
lower_char-none c e = ap (λ o. or_char o c) e

lower_char-some : (c l : Char) → small (code c) letters ≡ some l → lower_char c ≡ l
unfolding lower_char
lower_char-some c l e = ap (λ o. or_char o c) e

lower_char_idem : (c : Char) → lower_char (lower_char c) ≡ lower_char c
lower_char_idem c = elim (Option-cases (small (code c) letters)) [
  | inl other ↦ ap lower_char (lower_char-none c other)
  | inr (l, found) ↦
      let e = lower_char-some c l found in
      let fixed = small-All (λ d. lower_char d ≡ d) (code c) letters l letters_fixed found in
      rw e fixed
]

pub lower_idem : (s : String) → lower (lower s) ≡ lower s
unfolding lower
lower_idem String.[] = refl
lower_idem (String.◌∷◌ c s) = ap₂ String.◌∷◌ (lower_char_idem c) (lower_idem s)
