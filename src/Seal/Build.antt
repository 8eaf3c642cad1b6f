-- ===== src/Seal/Build.antt =====
-- sdk/kit/src/seal.ts, seal(): its parameters and its result. What the RPC node, the caches, the key derivations,
-- the instruction builders and the compiler answer comes through `Services`.
pub mod Steps
pub mod Run
pub mod Current
pub mod Laws
pub mod Ends
pub mod Sandwich
use phalnx.Base.{ℕ, Bool, List, Option, String, Task}
use phalnx.Network.{Network}
use phalnx.X402.{ℤ}
use phalnx.Seal.{Instruction, VaultState, Blockhash, LookupTables, SealError}
use phalnx.Seal.Hooks.{SealHooks}
use phalnx.Seal.Plugins.{SigilPolicyPlugin}
use phalnx.Seal.Composer.{TransactionMessage}

-- The inputs of the two program instructions.
pub record ValidateInput : Type 0 where
  pub agent : String
  pub vault : String
  pub agent_spend_overlay : String
  pub vault_token_account : String
  pub token_mint : String
  pub protocol_treasury_token_account : Option String
  pub fee_destination_token_account : Option String
  pub output_stablecoin_account : Option String
  pub amount : ℕ
  pub target_protocol : String
  pub expected_policy_version : ℕ

pub record FinalizeInput : Type 0 where
  pub payer : String
  pub vault : String
  pub session : String
  pub session_rent_recipient : String
  pub agent_spend_overlay : String
  pub vault_token_account : String
  pub output_stablecoin_account : Option String

-- `account_data` answers the bytes of an account, `none` where there is none. What a failed call
-- throws is the message of its error.
pub record Services (World Transaction : Type 0) : Type 0 where
  pub now_ms : World → ℕ
  pub resolve_vault_state : String → String → Network → Task World SealError VaultState
  pub account_data : String → Task World String (Option (List ℕ))
  pub latest_blockhash : Task World SealError Blockhash
  pub resolve_tables : List String → World → LookupTables × World
  pub invalidate_tables : World → World
  pub derive_ata : String → String → String
  pub agent_overlay_pda : String → String
  pub session_pda : String → String → String → String
  pub constraints_pda : String → String
  pub validate_and_authorize : ValidateInput → Instruction
  pub finalize_session : FinalizeInput → Instruction
  pub set_compute_unit_limit : ℕ → Instruction
  pub set_compute_unit_price : ℕ → Instruction
  pub compile : TransactionMessage → Transaction
  pub wire : Transaction → String

-- SealParams. The RPC client and the signer stand in `Services`, but for the agent's address; a
-- missing correlation id is the fresh one that newCorrelationId makes.
pub record SealParams (World Transaction : Type 0) : Type 0 where
  pub vault : String
  pub agent : String
  pub instructions : List Instruction
  pub network : Network
  pub token_mint : String
  pub amount : ℤ
  pub target_protocol : Option String
  pub compute_units : Option ℕ
  pub priority_fee_micro_lamports : Option ℕ
  pub output_stablecoin_account : Option String
  pub blockhash : Option Blockhash
  pub protocol_alt_addresses : Option (List String)
  pub address_lookup_tables : Option LookupTables
  pub cached_state : Option VaultState
  pub max_cache_age_ms : Option ℕ
  pub additional_ata_replacements : List (String × String)
  pub hooks : Option (SealHooks World String Transaction)
  pub correlation_id : String
  pub plugins : List (SigilPolicyPlugin World)

pub data Warning : Type 0 where
  output_ata_missing output_ata_unchecked : String → Warning
  balance_unavailable : Warning

pub record VaultContext : Type 0 where
  pub vault_address : String
  pub vault_token_ata : String
  pub token_balance : ℕ
  pub known_recipients : List String

pub record SealResult (Transaction : Type 0) : Type 0 where
  pub transaction : Transaction
  pub is_spending : Bool
  pub warnings : List Warning
  pub tx_size_bytes : ℕ
  pub last_valid_block_height : ℕ
  pub vault_context : VaultContext

-- The accounts that step 7 derives, and the instructions it rewrites with them.
pub record Prepared : Type 0 where
  pub vault_token_account : String
  pub output_account : Option String
  pub treasury_account : Option String
  pub fee_account : Option String
  pub instructions : List Instruction
  pub warnings : List Warning
