-- ===== src/RateLimit/Bounds.antt =====
-- How much the in-memory limiter lets through.
use carbon_contractors_com.Prelude.{
  sym, ℕ, ◌+◌, ◌-◌, ◌≡◌, ◌≤◌, ◌⊎◌, refl, Bool, true, false, Option, none, some, String, List, [],
  ◌∷◌, All, if◌then◌else◌, same, arith, Bool-cases, inl, inr, same_iff, same_refl,
}
use carbon_contractors_com.RateLimit.{
  RateLimitResult, WindowEntry, Entries, set, limit_entry, limit, granted,
}

module _ (max_requests window_ms : ℕ) where
  -- The calls all fall within one length of the window.
  abbrev pub IsBetween : ℕ → String × ℕ → Type 0
  IsBetween from (key, now) = (from ≤ now) × (now ≤ from + window_ms)

  abbrev granted_by : RateLimitResult → ℕ
  granted_by r = if r.success then 1 else 0

  abbrev pub count_of : Option WindowEntry → ℕ
  count_of none = 0
  count_of (some entry) = entry.count

  -- An entry that is as young as the calls is not renewed by them.
  abbrev IsYoung : ℕ → Option WindowEntry → Type 0
  IsYoung from none = ⊥
  IsYoung from (some entry) = from ≤ entry.window_start

  IsYoung-step :
      (from now : ℕ) (o : Option WindowEntry)
      → IsYoung from o
      → now ≤ from + window_ms
      → granted_by (limit_entry max_requests window_ms o now).0
            + (max_requests - (limit_entry max_requests window_ms o now).1.count)
          ≤ max_requests - count_of o
        × IsYoung from (some (limit_entry max_requests window_ms o now).1)
  unfolding limit_entry
  IsYoung-step from now none young b = elim young [ ]
  IsYoung-step from now (some entry) young b = ground arith

  -- Any other entry is renewed at most once.
  old_step :
      (from now : ℕ) (o : Option WindowEntry)
      → 1 ≤ max_requests
      → from ≤ now
      → ((granted_by (limit_entry max_requests window_ms o now).0
              + (max_requests - (limit_entry max_requests window_ms o now).1.count)
            ≤ max_requests - count_of o)
          ⊎ ((granted_by (limit_entry max_requests window_ms o now).0
                  + (max_requests - (limit_entry max_requests window_ms o now).1.count)
                ≤ max_requests)
              × IsYoung from (some (limit_entry max_requests window_ms o now).1)))
  unfolding limit_entry
  old_step from now none positive a = inr (ground arith)
  old_step from now (some entry) positive a = ground arith

  abbrev after_call : String → ℕ → Entries → Entries
  after_call k now entries = (limit max_requests window_ms k now entries).1

  set-same : (k : String) (e : WindowEntry) (entries : Entries) → set k e entries k ≡ some e
  unfolding set
  set-same k e entries = rw (same_refl k) refl

  set-other :
      (k key : String) (e : WindowEntry) (entries : Entries)
      → same k key ≡ false
      → set k e entries key ≡ entries key
  unfolding set
  set-other k key e entries h = elim (Bool-cases (same key k)) [
    | inl hit ↦ let hit' = (same_iff k key).1 (sym ((same_iff key k).0 hit)) in cc
    | inr miss ↦ rw miss refl
  ]

  if-add : (b : Bool) (n : ℕ) → (if b then n + 1 else n) ≡ (if b then 1 else 0) + n
  if-add b n = ground arith

  granted-hit :
      (key : String) (now : ℕ) (calls : List (String × ℕ)) (entries : Entries)
      → (granted max_requests window_ms key ((key, now) ∷ calls) entries
          ≡ granted_by (limit_entry max_requests window_ms (entries key) now).0
            + granted max_requests window_ms key calls (after_call key now entries))
        × (after_call key now entries key
            ≡ some (limit_entry max_requests window_ms (entries key) now).1)
  unfolding granted limit
  granted-hit key now calls entries = (rw (same_refl key) (if-add _ _), set-same _ _ _)

  granted-hit-at :
      (k key : String) (now : ℕ) (calls : List (String × ℕ)) (entries : Entries)
      → same k key ≡ true
      → (granted max_requests window_ms key ((k, now) ∷ calls) entries
          ≡ granted_by (limit_entry max_requests window_ms (entries key) now).0
            + granted max_requests window_ms key calls (after_call k now entries))
        × (after_call k now entries key
            ≡ some (limit_entry max_requests window_ms (entries key) now).1)
  granted-hit-at k key now calls entries hit =
      rw ((same_iff k key).0 hit) (granted-hit key now calls entries)

  granted-miss :
      (k key : String) (now : ℕ) (calls : List (String × ℕ)) (entries : Entries)
      → same k key ≡ false
      → (granted max_requests window_ms key ((k, now) ∷ calls) entries
          ≡ granted max_requests window_ms key calls (after_call k now entries))
        × (after_call k now entries key ≡ entries key)
  unfolding granted limit
  granted-miss k key now calls entries h = (rw h refl, set-other k key _ entries h)

  -- After a call for the key, its entry is the one that the call has left.
  hit_left :
      (k key : String) (now : ℕ) (entries : Entries)
      → after_call k now entries key ≡ some (limit_entry max_requests window_ms (entries key) now).1
      → max_requests - count_of (after_call k now entries key)
        ≡ max_requests - (limit_entry max_requests window_ms (entries key) now).1.count
  hit_left k key now entries new = rw new refl

  granted-young :
      (key : String) (from : ℕ) (calls : List (String × ℕ)) (entries : Entries)
      → All (IsBetween from) calls
      → IsYoung from (entries key)
      → granted max_requests window_ms key calls entries ≤ max_requests - count_of (entries key)
  granted-young key from [] entries bs young = unfold granted in omega arith
  granted-young key from ((k, now) ∷ calls) entries (b, bs) young = elim (Bool-cases (same k key)) [
    | inl hit ↦
        let (g, new) = granted-hit-at k key now calls entries hit in
        let (step, young') = IsYoung-step from now (entries key) young b.1 in
        let rest = granted-young key from calls (after_call k now entries) bs (rw new young') in
        omega (arith, g, step, rest, hit_left k key now entries new)
    | inr miss ↦
        let (g, kept) = granted-miss k key now calls entries miss in
        let rest = granted-young key from calls (after_call k now entries) bs (rw kept young) in
        rw (← kept, g) rest
  ]

  -- The calls all fall within one length of the window: of those for one key, whatever entries are
  -- there at the start and however the calls for other keys fall between, at most twice the limit
  -- are let through, less what the entry of the key has already counted.
  pub granted-bounded :
      (key : String) (from : ℕ) (calls : List (String × ℕ)) (entries : Entries)
      → 1 ≤ max_requests
      → All (IsBetween from) calls
      → granted max_requests window_ms key calls entries
        ≤ max_requests - count_of (entries key) + max_requests
  granted-bounded key from [] entries positive bs = unfold granted in omega arith
  granted-bounded key from ((k, now) ∷ calls) entries positive (b, bs) =
      elim (Bool-cases (same k key)) [
        | inl hit ↦
            let (g, new) = granted-hit-at k key now calls entries hit in
            let rest = granted-bounded key from calls (after_call k now entries) positive bs in
            let same_left = hit_left k key now entries new in
            elim (old_step from now (entries key) positive b.0) [
              | inl kept ↦ omega (arith, g, kept, rest, same_left)
              | inr (renewed, young) ↦ omega (
                arith,
                g,
                renewed,
                same_left,
                granted-young key from calls (after_call k now entries) bs (rw new young),
              )
            ]
        | inr miss ↦
            let (g, kept) = granted-miss k key now calls entries miss in
            let rest = granted-bounded key from calls (after_call k now entries) positive bs in
            rw (g, ← kept) rest
      ]
