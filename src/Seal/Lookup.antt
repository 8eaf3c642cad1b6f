-- ===== src/Seal/Lookup.antt =====
-- sdk/kit/src/alt-loader.ts and sdk/kit/src/alt-config.ts: the address lookup tables of a
-- transaction, cached, merged and verified.
pub mod Laws
use phalnx.Base.{
  ℕ, ◌+◌, ◌-◌, Bool, true, false, List, [], ◌∷◌, ◌++◌, Option, none, some, String, str_eq, Result,
  ok, err, if◌then◌else◌, ltb, ◌==◌, length, has, add, lookup, insert, filter_by,
}
use phalnx.Network.{
  Network, devnet, mainnet_beta, usdc_mint_devnet, usdc_mint_mainnet, usdt_mint_devnet,
  usdt_mint_mainnet,
}
use phalnx.Seal.{LookupTables, SealError, alt_integrity, external}

pub record CacheEntry : Type 0 where
  pub tables : LookupTables
  pub expires_at : ℕ

pub record AltCache : Type 0 where
  pub cache : List (String × CacheEntry)
  pub ttl_ms : ℕ
  pub max_size : ℕ

abbrev or_default : Option ℕ → ℕ → ℕ
or_default none d = d
or_default (some n) d = n

unfoldable pub new_cache : Option ℕ → Option ℕ → AltCache
new_cache ttl_ms max_size = record {
  cache = [];
  ttl_ms = or_default ttl_ms 300000;
  max_size = or_default max_size 50;
}

-- `Object.assign(result, data)`.
unfoldable pub assign : LookupTables → LookupTables → LookupTables
assign result [] = result
assign result ((alt, addresses) ∷ more) = assign (insert alt addresses result) more

abbrev pub live : ℕ → Option CacheEntry → Option CacheEntry
live now none = none
live now (some entry) = if ltb now entry.expires_at then some entry else none

-- The first loop: what the cache knows of the tables, and the addresses it does not know.
unfoldable pub check_cache :
    ℕ → List (String × CacheEntry) → List String → LookupTables → LookupTables × List String
unfolding assign
check_cache now cache [] result = (result, [])
check_cache now cache (alt ∷ alts) result = elim (live now (lookup alt cache)) [
  | some entry ↦ check_cache now cache alts (assign result entry.tables)
  | none ↦ let (result', uncached) = check_cache now cache alts result in (result', alt ∷ uncached)
]

-- Each fetched table has an entry of its own.
unfoldable pub store : ℕ → LookupTables → List (String × CacheEntry) → List (String × CacheEntry)
store expires_at [] cache = cache
store expires_at ((alt, addresses) ∷ more) cache =
    store expires_at more
      (insert alt record { tables = (alt, addresses) ∷ []; expires_at = expires_at } cache)

-- The oldest entries go while the cache has more than `max_size`.
unfoldable pub evict : ℕ → List (String × CacheEntry) → List (String × CacheEntry)
evict max_size [] = []
evict max_size (entry ∷ entries) =
    let rest = evict max_size entries in
    if ltb max_size (length (entry ∷ entries)) then rest else entry ∷ entries

-- A fetch that fails leaves what the cache gave.
unfoldable pub with_fetched :
    ℕ → Result String LookupTables → LookupTables → AltCache → LookupTables × AltCache
unfolding assign store evict
with_fetched now (err message) result c = (result, c)
with_fetched now (ok fetched) result c = (
  assign result fetched,
  record c { cache = evict c.max_size (store (now + c.ttl_ms) fetched c.cache) },
)

module _ (fetch : List String → Result String LookupTables) where
  abbrev pub fetch_uncached : ℕ → LookupTables × List String → AltCache → LookupTables × AltCache
  fetch_uncached now (result, []) c = (result, c)
  fetch_uncached now (result, alt ∷ alts) c = with_fetched now (fetch (alt ∷ alts)) result c

  unfoldable pub resolve : ℕ → List String → AltCache → LookupTables × AltCache
  unfolding with_fetched check_cache
  resolve now alts c = fetch_uncached now (check_cache now c.cache alts []) c

abbrev found_table : String → Option CacheEntry → Option (List String)
found_table alt none = none
found_table alt (some entry) = lookup alt entry.tables

unfoldable pub get_cached_addresses : ℕ → String → AltCache → Option (List String)
get_cached_addresses now alt c = found_table alt (live now (lookup alt c.cache))

unfoldable pub invalidate : AltCache → AltCache
invalidate c = record c { cache = [] }

-- `seen` and `merged` hold the same addresses.
unfoldable pub merge_into : List String → List String → List String
merge_into merged [] = merged
merge_into merged (alt ∷ alts) = merge_into (add merged alt) alts

abbrev given : Option (List String) → List String
given none = []
given (some alts) = alts

unfoldable pub merge_alt_addresses : String → Option (List String) → List String
unfolding merge_into
merge_alt_addresses sigil_alt protocol_alts = merge_into (sigil_alt ∷ []) (given protocol_alts)

unfoldable pub missing : List String → List String → List String
missing addresses [] = []
missing addresses (expected ∷ more) =
    let rest = missing addresses more in if has addresses expected then rest else expected ∷ rest

abbrev pub verify_table : Option (List String) → List String → Result SealError (Unit {0})
verify_table none expected = ok tt
verify_table (some addresses) expected =
    if length (missing addresses expected) == 0
    then ok tt
    else err (alt_integrity (length (missing addresses expected)))

unfoldable pub verify_sigil_alt : LookupTables → String → List String → Result SealError (Unit {0})
unfolding missing
verify_sigil_alt resolved sigil_alt expected = verify_table (lookup sigil_alt resolved) expected

abbrev pub sigil_alt_devnet : String
sigil_alt_devnet = "BtRLCMVamw9c3R8UDwgYBCFur5YVkqACmakVh9xi2aTw"

-- The mainnet table is not deployed: its address is the placeholder.
abbrev sigil_alt_mainnet : String
sigil_alt_mainnet = "11111111111111111111111111111111"

abbrev alt_placeholder : String
alt_placeholder = "11111111111111111111111111111111"

unfoldable pub get_sigil_alt_address : Network → Result SealError String
get_sigil_alt_address devnet = ok sigil_alt_devnet
get_sigil_alt_address mainnet_beta =
    if str_eq sigil_alt_mainnet alt_placeholder
    then err (
        external
          "Mainnet Sigil ALT not yet deployed. Deploy the ALT and update SIGIL_ALT_MAINNET in alt-config.ts.")
    else ok sigil_alt_mainnet

abbrev pub protocol_treasury : String
protocol_treasury = "ASHie1dFTnDSnrHMPGmniJhMgfJVGPm3rAaEPnrtWDiT"

abbrev instructions_sysvar : String
instructions_sysvar = "Sysvar1nstructions1111111111111111111111111"

abbrev clock_sysvar : String
clock_sysvar = "SysvarC1ock11111111111111111111111111111111"

abbrev pub expected_alt_contents : Network → List String
expected_alt_contents devnet =
    usdc_mint_devnet ∷ usdt_mint_devnet ∷ protocol_treasury ∷ instructions_sysvar ∷ clock_sysvar
    ∷ "J2SCySRvXFFQc6DdbRqnnmEz7kmtEtpM2FP37fz9R4Vt"
    ∷ "81RyRPBpxR5QK6ZBtjNDBSknid1qMHsrCcWF6w5NHKD6" ∷ []
expected_alt_contents mainnet_beta =
    usdc_mint_mainnet ∷ usdt_mint_mainnet ∷ protocol_treasury ∷ instructions_sysvar ∷ clock_sysvar
    ∷ []
