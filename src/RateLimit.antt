-- ===== src/RateLimit.antt =====
-- Rate limiting (src/lib/ratelimit.ts): the in-memory limiter, and the reading of what Upstash
-- answers. Times are milliseconds; a limit is positive, so that no `remaining` is below 0.
pub mod Bounds
pub mod Tests
use carbon_contractors_com.Prelude.{
  ℕ, ◌+◌, ◌-◌, ◌/◌, ◌≡◌, Bool, true, false, Option, none, some, String, List, [], ◌∷◌,
  if◌then◌else◌, ltb, same,
}

pub record RateLimitResult : Type 0 where
  pub success : Bool
  pub remaining : ℕ
  pub retry_after_s : ℕ

pub record WindowEntry : Type 0 where
  pub count : ℕ
  pub window_start : ℕ

-- `Math.ceil(ms / 1000)`.
unfoldable pub ceil_seconds : ℕ → ℕ
ceil_seconds ms = (ms + 999) / 1000

-- A JavaScript `Map`.
abbrev pub Entries : Type 0
Entries = String → Option WindowEntry

unfoldable pub set : String → WindowEntry → Entries → Entries
set key entry entries k = if same k key then some entry else entries k

module _ (max_requests window_ms : ℕ) where
  abbrev pub open_window : ℕ → RateLimitResult × WindowEntry
  open_window now = (
    record { success = true; remaining = max_requests - 1; retry_after_s = 0 },
    record { count = 1; window_start = now },
  )

  -- A request in the window of an entry, whose count has been raised.
  abbrev pub within_window : ℕ → WindowEntry → RateLimitResult × WindowEntry
  within_window now entry = (
    if ltb max_requests entry.count
        then record {
          success = false;
          remaining = 0;
          retry_after_s = ceil_seconds (entry.window_start + window_ms - now);
        }
        else record { success = true; remaining = max_requests - entry.count; retry_after_s = 0 },
    entry,
  )

  -- What `limit` makes of the entry of its key.
  unfoldable pub limit_entry : Option WindowEntry → ℕ → RateLimitResult × WindowEntry
  limit_entry none now = open_window now
  limit_entry (some entry) now =
      if ltb window_ms (now - entry.window_start)
      then open_window now
      else within_window now (record entry { count = entry.count + 1 })

  -- `createInMemoryLimiter(…).limit`.
  unfoldable pub limit : String → ℕ → Entries → RateLimitResult × Entries
  limit key now entries =
      let (result, entry) = limit_entry (entries key) now in (result, set key entry entries)

  -- How many of the calls for a key, at the times given, are let through.
  unfoldable pub granted : String → List (String × ℕ) → Entries → ℕ
  granted key [] entries = 0
  granted key ((k, now) ∷ calls) entries =
      let (result, entries') = limit k now entries in
      let rest = granted key calls entries' in
      if same k key then (if result.success then rest + 1 else rest) else rest

-- What the pipeline of INCR and EXPIRE answers: the new count, if the body has one.
pub data UpstashReply : Type 0 where
  unreachable : UpstashReply
  not_ok : UpstashReply
  body : Option ℕ → UpstashReply

abbrev pub count_or_one : Option ℕ → ℕ
count_or_one none = 1
count_or_one (some n) = n

-- `createUpstashLimiter(…).limit`: it fails open.
unfoldable pub upstash_limit : (max_requests window_ms : ℕ) → UpstashReply → RateLimitResult
upstash_limit max_requests window_ms unreachable = record {
  success = true;
  remaining = max_requests;
  retry_after_s = 0;
}
upstash_limit max_requests window_ms not_ok = record {
  success = true;
  remaining = max_requests;
  retry_after_s = 0;
}
upstash_limit max_requests window_ms (body o) =
    if ltb max_requests (count_or_one o)
    then record { success = false; remaining = 0; retry_after_s = ceil_seconds window_ms }
    else record { success = true; remaining = max_requests - count_or_one o; retry_after_s = 0 }
