-- ===== src/Shield/Compiled.antt =====
-- sdk/kit/src/shield.ts, _extractInstructionsFromCompiled: the instructions of a compiled transaction,
-- with the accounts that address lookup tables compress; and the cache of sdk/kit/src/alt-loader.ts
-- that the tables' addresses are read from.
pub mod Laws
use phalnx.Base.{
  ℕ, Bool, true, false, ◌||◌, List, [], ◌∷◌, ◌++◌, map, Option, none, some, String, leb, ◌==◌,
  if◌then◌else◌, length, get_elem?, lookup,
}
use phalnx.Inspector.{InspectableInstruction, undefined_address}

pub record CompiledInstruction : Type 0 where
  pub program_address_index : ℕ
  pub account_indices : List ℕ
  pub bytes : List ℕ

pub record AddressTableLookup : Type 0 where
  pub lookup_table_address : String
  pub writable_indexes : List ℕ
  pub readonly_indexes : List ℕ

pub record CompiledMessage : Type 0 where
  pub static_accounts : List String
  pub instructions : List CompiledInstruction
  pub address_table_lookups : List AddressTableLookup

-- An entry of the cache: the addresses of its tables, until it expires.
pub record CacheEntry : Type 0 where
  pub tables : List (String × List String)
  pub expires_at : ℕ

abbrev fresh_tables : Option CacheEntry → ℕ → String → Option (List String)
fresh_tables none now alt = none
fresh_tables (some entry) now alt =
    if leb entry.expires_at now then none else lookup alt entry.tables

unfoldable pub get_cached_addresses : List (String × CacheEntry) → ℕ → String → Option (List String)
get_cached_addresses cache now alt = fresh_tables (lookup alt cache) now alt

abbrev pub system_program : String
system_program = "11111111111111111111111111111111"

abbrev or_system : Option String → String
or_system none = system_program
or_system (some a) = a

-- An index past the table is the system program's address, with a warning.
abbrev pub resolve_alt_index : List String → ℕ → String
resolve_alt_index resolved idx = or_system (get_elem? resolved idx)

abbrev pub resolved_all : Option (List String) → List ℕ → List String
resolved_all none indexes = []
resolved_all (some resolved) indexes = map (resolve_alt_index resolved) indexes

-- A pass over all lookups, for their writable or their readonly indexes.
unfoldable pub pass :
    (AddressTableLookup → List ℕ)
    → (String → Option (List String))
    → List AddressTableLookup
    → List String
pass indexes cached [] = []
pass indexes cached (l ∷ ls) =
    resolved_all (cached l.lookup_table_address) (indexes l) ++ pass indexes cached ls

-- The static accounts, behind them the writable ones of all tables, then the readonly ones; with no cache, the static ones alone.
unfoldable pub account_table :
    Option (String → Option (List String)) → CompiledMessage → List String
account_table none msg = msg.static_accounts
account_table (some cached) msg =
    msg.static_accounts
    ++ (pass (λ l. l.writable_indexes) cached msg.address_table_lookups
        ++ pass (λ l. l.readonly_indexes) cached msg.address_table_lookups)

abbrev or_undefined : Option String → String
or_undefined none = undefined_address
or_undefined (some a) = a

-- `accountTable[index]`.
abbrev pub account_at : List String → ℕ → String
account_at table index = or_undefined (get_elem? table index)

abbrev pub resolve_instruction : List String → CompiledInstruction → InspectableInstruction
resolve_instruction table ix = record {
  program_address = account_at table ix.program_address_index;
  accounts = map (account_at table) ix.account_indices;
  bytes = ix.bytes;
}

-- `none` where the transaction has no compiled message.
unfoldable pub extract_instructions :
    Option (String → Option (List String)) → Option CompiledMessage → List InspectableInstruction
unfolding account_table
extract_instructions cache none = []
extract_instructions cache (some msg) =
    if length msg.static_accounts == 0 || length msg.instructions == 0
    then []
    else map (resolve_instruction (account_table cache msg)) msg.instructions
