-- ===== src/Sanctions.antt =====
-- The screening of wallets against sanctions lists, src/lib/sanctions/index.ts: the bundled dataset,
-- the provider, and the cache of the process. The dataset is a parameter, and each call is given what
-- the provider would answer then. A call is taken to be over before the next one starts.
pub mod Flagged
pub mod Tests
use carbon_contractors_com.Prelude.{
  ℕ, ◌+◌, ◌*◌, Bool, true, false, not, ◌&&◌, Option, none, some, List, [], ◌∷◌, ◌++◌, String, same,
  lower, if◌then◌else◌, leb, ltb, length, first, any, update,
}
use carbon_contractors_com.Chain.{is_hex_address}

pub record SanctionScreen : Type 0 where
  pub sanctioned : Bool
  pub list : Option String
  pub reason : Option String

pub record DatasetEntry : Type 0 where
  pub list : String
  pub reason : String

pub record CacheEntry : Type 0 where
  pub key : String
  pub screen : SanctionScreen
  pub expires_at : ℕ

abbrev pub cache_ttl_ms : ℕ
cache_ttl_ms = 6 * 60 * 60 * 1000

abbrev pub cache_max_entries : ℕ
cache_max_entries = 10000

-- Lower case and of the shape of an address.
unfoldable pub normalize_wallet_address : String → Option String
normalize_wallet_address wallet =
    if is_hex_address (lower wallet) then some (lower wallet) else none

-- What the call of the provider comes to.
pub data ProviderReply : Type 0 where
  no_key : ProviderReply
  unreachable : ProviderReply
  not_ok : ProviderReply
  -- The body, if it is an object: its `sanctioned`, if that is a Boolean, and its `comment`, if a text.
  body : Option (Option Bool × Option String) → ProviderReply

abbrev pub clean : SanctionScreen
clean = record { sanctioned = false; list = none; reason = none }

unfoldable pub parse_provider_response :
    Option (Option Bool × Option String) → Option SanctionScreen
parse_provider_response none = none
parse_provider_response (some (none, comment)) = none
parse_provider_response (some (some true, comment)) =
    some (record { sanctioned = true; list = some "chainalysis"; reason = comment })
parse_provider_response (some (some false, comment)) = some clean

unfoldable pub screen_via_provider : ProviderReply → Option SanctionScreen
unfolding parse_provider_response
screen_via_provider no_key = none
screen_via_provider unreachable = none
screen_via_provider not_ok = none
screen_via_provider (body b) = parse_provider_response b

-- ── Map ──
abbrev pub has_key : String → CacheEntry → Bool
has_key key e = same e.key key

-- `Map.prototype.set`: in place, or at the end.
unfoldable pub set_entry : CacheEntry → List CacheEntry → List CacheEntry
set_entry e cache =
    if any (has_key e.key) cache then update (has_key e.key) (λ _. e) cache else cache ++ e ∷ []

unfoldable pub remember : String → SanctionScreen → ℕ → List CacheEntry → List CacheEntry
unfolding set_entry
remember key screen now cache =
    set_entry (record { key = key; screen = screen; expires_at = now + cache_ttl_ms }) cache

unfoldable pub fresh_screen : ℕ → Option CacheEntry → Option SanctionScreen
fresh_screen now none = none
fresh_screen now (some e) = if ltb now e.expires_at then some e.screen else none

unfoldable pub hit : DatasetEntry → SanctionScreen
hit e = record { sanctioned = true; list = some e.list; reason = some e.reason }

module _ (index : String → Option DatasetEntry) where
  abbrev pub with_provider :
      String → ℕ → List CacheEntry → Option SanctionScreen → SanctionScreen × List CacheEntry
  with_provider key now cache none = (clean, cache)
  with_provider key now cache (some screen) =
      (screen, remember key screen now (if leb cache_max_entries (length cache) then [] else cache))

  abbrev pub with_dataset :
      String
      → ℕ
      → ProviderReply
      → List CacheEntry
      → Option DatasetEntry
      → SanctionScreen × List CacheEntry
  with_dataset key now reply cache (some e) = (hit e, remember key (hit e) now cache)
  with_dataset key now reply cache none = with_provider key now cache (screen_via_provider reply)

  abbrev pub with_cached :
      String
      → ℕ
      → ProviderReply
      → List CacheEntry
      → Option SanctionScreen
      → SanctionScreen × List CacheEntry
  with_cached key now reply cache (some screen) = (screen, cache)
  with_cached key now reply cache none = with_dataset key now reply cache (index key)

  abbrev pub with_address :
      ℕ → ProviderReply → List CacheEntry → Option String → SanctionScreen × List CacheEntry
  with_address now reply cache none = (clean, cache)
  with_address now reply cache (some key) =
      with_cached key now reply cache (fresh_screen now (first (has_key key) cache))

  unfoldable pub is_wallet_sanctioned :
      String → ℕ → ProviderReply → List CacheEntry → SanctionScreen × List CacheEntry
  unfolding normalize_wallet_address
  is_wallet_sanctioned wallet now reply cache =
      with_address now reply cache (normalize_wallet_address wallet)
