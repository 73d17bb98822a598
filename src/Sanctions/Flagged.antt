-- ===== src/Sanctions/Flagged.antt =====
-- What every sequence of screenings keeps.
use carbon_contractors_com.Prelude.{
  ℕ, ◌+◌, ◌≡◌, refl, subst, Bool, true, false, Option, none, some, List, [], ◌∷◌, String, same,
  same_iff, lower, if◌then◌else◌, leb, ltb, length, first, any, update, All, All-snoc, Bool-cases,
  inl, inr, found_here, found_there,
}
use carbon_contractors_com.Chain.{is_hex_address}
use carbon_contractors_com.Sanctions.{
  SanctionScreen, DatasetEntry, CacheEntry, ProviderReply, screen_via_provider, has_key, set_entry,
  remember, fresh_screen, hit, with_provider, with_dataset, with_cached, is_wallet_sanctioned,
  cache_max_entries, cache_ttl_ms,
}

module _ (index : String → Option DatasetEntry) where
  -- What the dataset says is what is remembered.
  abbrev pub Agrees : Option DatasetEntry → SanctionScreen → Type 0
  Agrees none screen = Unit
  Agrees (some e) screen = screen ≡ hit e

  abbrev pub IsTrue : CacheEntry → Type 0
  IsTrue c = Agrees (index c.key) c.screen

  All-update :
      (key : String) (e : CacheEntry) (cache : List CacheEntry)
      → IsTrue e
      → All IsTrue cache
      → All IsTrue (update (has_key key) (λ _. e) cache)
  All-update key e [] h hs = tt
  All-update key e (c ∷ cache) h (k, ks) = (step (has_key key c) h k, All-update key e cache h ks)
    where
      step : (b : Bool) → IsTrue e → IsTrue c → IsTrue (if b then e else c)
      step true h k = h
      step false h k = k

  set_entry-All :
      (e : CacheEntry) (cache : List CacheEntry)
      → IsTrue e
      → All IsTrue cache
      → All IsTrue (set_entry e cache)
  unfolding set_entry
  set_entry-All e cache h hs = elim (Bool-cases (any (has_key e.key) cache)) [
    | inl old ↦ rw old (All-update e.key e cache h hs)
    | inr new ↦ rw new (All-snoc IsTrue cache e hs h)
  ]

  remember-All :
      (key : String) (screen : SanctionScreen) (now : ℕ) (cache : List CacheEntry)
      → Agrees (index key) screen
      → All IsTrue cache
      → All IsTrue (remember key screen now cache)
  unfolding remember
  remember-All key screen now cache h hs =
      set_entry-All (record { key = key; screen = screen; expires_at = now + cache_ttl_ms }) cache h
        hs

  first-IsTrue :
      (key : String) (cache : List CacheEntry) (c : CacheEntry)
      → All IsTrue cache
      → first (has_key key) cache ≡ some c
      → Agrees (index key) c.screen
  first-IsTrue key [] c hs e = cc
  first-IsTrue key (x ∷ cache) c (h, hs) e = elim (Bool-cases (same x.key key)) [
    | inl here ↦
        let same_entry : x ≡ c =
          found_here x c (first (has_key key) cache) (same x.key key) here e in
        let same_key : x.key ≡ key = (same_iff x.key key).0 here in rw (← same_entry, ← same_key) h
    | inr there ↦
        first-IsTrue key cache c hs
          (found_there x c (first (has_key key) cache) (same x.key key) there e)
  ]

  -- An answer agrees with the dataset and leaves a cache that does.
  abbrev pub Agreeing : String → SanctionScreen × List CacheEntry → Type 0
  Agreeing key (screen, cache) = Agrees (index key) screen × All IsTrue cache

  fresh-Agrees :
      (key : String) (now : ℕ) (cache : List CacheEntry) (o : Option CacheEntry)
      (screen : SanctionScreen)
      → first (has_key key) cache ≡ o
      → All IsTrue cache
      → fresh_screen now o ≡ some screen
      → Agrees (index key) screen
  unfolding fresh_screen
  fresh-Agrees key now cache none screen e hs f = cc
  fresh-Agrees key now cache (some c) screen e hs f = elim (Bool-cases (ltb now c.expires_at)) [
    | inl in_time ↦
        let same_screen : c.screen ≡ screen = fresh (ltb now c.expires_at) in_time f in
        rw (← same_screen) (first-IsTrue key cache c hs e)
    | inr late ↦ elim (stale (ltb now c.expires_at) late f) [ ]
  ]
    where
      fresh :
          (b : Bool)
          → b ≡ true
          → (if b then some c.screen else none) ≡ some screen
          → c.screen ≡ screen
      fresh true h f = cc
      fresh false h f = cc

      stale : (b : Bool) → b ≡ false → (if b then some c.screen else none) ≡ some screen → ⊥
      stale true h f = cc
      stale false h f = cc

  provider-Agreeing :
      (key : String) (now : ℕ) (cache : List CacheEntry) (o : Option SanctionScreen)
      → index key ≡ none
      → All IsTrue cache
      → Agreeing key (with_provider index key now cache o)
  provider-Agreeing key now cache none e hs = (rw e tt, hs)
  provider-Agreeing key now cache (some screen) e hs = (
    rw e tt,
    remember-All key screen now _ (rw e tt) (cleared (leb cache_max_entries (length cache))),
  )
    where
      cleared : (b : Bool) → All IsTrue (if b then [] else cache)
      cleared true = tt
      cleared false = hs

  dataset-Agreeing :
      (key : String) (now : ℕ) (reply : ProviderReply) (cache : List CacheEntry)
      (o : Option DatasetEntry)
      → index key ≡ o
      → All IsTrue cache
      → Agreeing key (with_dataset index key now reply cache o)
  dataset-Agreeing key now reply cache none e hs =
      provider-Agreeing key now cache (screen_via_provider reply) e hs
  dataset-Agreeing key now reply cache (some d) e hs =
      (rw e refl, remember-All key (hit d) now cache (rw e refl) hs)

  cached-Agreeing :
      (key : String) (now : ℕ) (reply : ProviderReply) (cache : List CacheEntry)
      (o : Option SanctionScreen)
      → fresh_screen now (first (has_key key) cache) ≡ o
      → All IsTrue cache
      → Agreeing key (with_cached index key now reply cache o)
  cached-Agreeing key now reply cache (some screen) e hs =
      (fresh-Agrees key now cache (first (has_key key) cache) screen refl hs e, hs)
  cached-Agreeing key now reply cache none e hs =
      dataset-Agreeing key now reply cache (index key) refl hs

  wallet-Agreeing :
      (wallet : String) (now : ℕ) (reply : ProviderReply) (cache : List CacheEntry)
      → is_hex_address (lower wallet) ≡ true
      → All IsTrue cache
      → Agreeing (lower wallet) (is_wallet_sanctioned index wallet now reply cache)
  unfolding is_wallet_sanctioned
  wallet-Agreeing wallet now reply cache shape hs = rw shape (
      cached-Agreeing (lower wallet) now reply cache
        (fresh_screen now (first (has_key (lower wallet)) cache)) refl hs)

  keeps-All :
      (wallet : String) (now : ℕ) (reply : ProviderReply) (cache : List CacheEntry)
      → All IsTrue cache
      → All IsTrue (is_wallet_sanctioned index wallet now reply cache).1
  unfolding is_wallet_sanctioned
  keeps-All wallet now reply cache hs = elim (Bool-cases (is_hex_address (lower wallet))) [
    | inl shape ↦ (wallet-Agreeing wallet now reply cache shape hs).1
    | inr other ↦ rw other hs
  ]

  -- The cache after some calls, at whatever times and whatever the provider answers.
  abbrev pub after : List (String × (ℕ × ProviderReply)) → List CacheEntry → List CacheEntry
  after [] cache = cache
  after ((wallet, (now, reply)) ∷ calls) cache =
      after calls (is_wallet_sanctioned index wallet now reply cache).1

  after-All :
      (calls : List (String × (ℕ × ProviderReply))) (cache : List CacheEntry)
      → All IsTrue cache
      → All IsTrue (after calls cache)
  after-All [] cache hs = hs
  after-All ((wallet, (now, reply)) ∷ calls) cache hs =
      after-All calls _ (keeps-All wallet now reply cache hs)

  -- After any calls of a new process, a wallet whose address is in the dataset, in whatever case it is
  -- written, is answered as sanctioned by the dataset's list for the dataset's reason, whatever the
  -- provider answers or has answered, and whether or not the cache has forgotten it.
  pub is_wallet_sanctioned-hit :
      (calls : List (String × (ℕ × ProviderReply))) (wallet : String) (now : ℕ)
      (reply : ProviderReply) (e : DatasetEntry)
      → is_hex_address (lower wallet) ≡ true
      → index (lower wallet) ≡ some e
      → (is_wallet_sanctioned index wallet now reply (after calls [])).0 ≡ hit e
  is_wallet_sanctioned-hit calls wallet now reply e shape listed =
      subst (λ o. Agrees o (is_wallet_sanctioned index wallet now reply (after calls [])).0) listed
        (wallet-Agreeing wallet now reply (after calls []) shape (after-All calls [] tt)).0
