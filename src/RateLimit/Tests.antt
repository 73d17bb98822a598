-- ===== src/RateLimit/Tests.antt =====
-- Two calls at the end of one window and two at the start of the next, a minute apart at most.
use carbon_contractors_com.Prelude.{
  ℕ, ◌≡◌, ◌≤◌, refl, List, [], ◌∷◌, String, some, none, if◌then◌else◌, same, arith, All, ◌-◌, ◌+◌,
}
use carbon_contractors_com.RateLimit.{Entries, granted, limit, limit_entry, set}
use carbon_contractors_com.RateLimit.Bounds.{IsBetween, count_of, granted-bounded}

abbrev calls : List (String × ℕ)
calls = ("a", 59000) ∷ ("a", 59500) ∷ ("b", 59600) ∷ ("a", 60500) ∷ ("a", 60600) ∷ ("a", 60700) ∷ []

-- The window of the key began at 0, and has counted nothing since.
abbrev before : Entries
before key = if same key "a" then some (record { count = 0; window_start = 0 }) else none

granted_test : granted 2 60000 "a" calls before ≡ 4
unfolding granted limit limit_entry set same
granted_test = refl

calls-IsBetween : All (IsBetween 2 60000 1000) calls
calls-IsBetween = ground arith

granted-bounded_example : granted 2 60000 "a" calls before ≤ 2 - count_of 2 60000 (before "a") + 2
granted-bounded_example =
    granted-bounded 2 60000 "a" 1000 calls before (omega arith) calls-IsBetween
