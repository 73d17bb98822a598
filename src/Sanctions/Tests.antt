-- ===== src/Sanctions/Tests.antt =====
-- A listed wallet, screened before and after the provider has cleared it.
use carbon_contractors_com.Prelude.{
  ◌≡◌, refl, ℕ, String, Option, none, some, List, [], ◌∷◌, same, lower, if◌then◌else◌, false,
}
use carbon_contractors_com.Chain.{is_hex_address}
use carbon_contractors_com.Sanctions.{
  DatasetEntry, ProviderReply, body, unreachable, is_wallet_sanctioned, hit,
}
use carbon_contractors_com.Sanctions.Flagged.{after, is_wallet_sanctioned-hit}

abbrev listed : String
listed = "0x00000000000000000000000000000000000000ab"

abbrev index : String → Option DatasetEntry
index key =
    if same key listed then some (record { list = "OFAC SDN"; reason = "a designation" }) else none

abbrev calls : List (String × (ℕ × ProviderReply))
calls =
    ("0x0000000000000000000000000000000000000001", (5, body (some (some false, none))))
    ∷ (listed, (10, unreachable))
    ∷ ("not an address", (15, unreachable))
    ∷ []

is_wallet_sanctioned-hit_example :
    (is_wallet_sanctioned index "0x00000000000000000000000000000000000000AB" 90000000
      (body (some (some false, none)))
      (after index calls [])).0
    ≡ hit (record { list = "OFAC SDN"; reason = "a designation" })
unfolding is_hex_address lower same
is_wallet_sanctioned-hit_example =
    is_wallet_sanctioned-hit index calls "0x00000000000000000000000000000000000000AB" 90000000
      (body (some (some false, none))) (record { list = "OFAC SDN"; reason = "a designation" }) refl
      refl
