-- ===== src/Seal.antt =====
-- sdk/kit/src/seal.ts, seal(): the instructions of an agent between the program's two, in one
-- transaction. Shared here are the types that its parts read. Addresses are texts; an amount is an
-- integer, since a caller may pass a negative one.
pub mod Hooks
pub mod Plugins
pub mod Rewrite
pub mod Gates
pub mod Composer
pub mod Lookup
pub mod Build
pub mod Genesis
pub mod Confirm
pub mod Drain
mod Tests
use phalnx.Base.{ℕ, Bool, true, false, List, [], ◌∷◌, map, Option, String, filter_by}
use phalnx.Network.{Network}
use phalnx.Budget.{AgentEntry, EffectiveBudget}
use phalnx.X402.{ℤ}

-- AccountRole of the Solana kit.
pub data AccountRole : Type 0 where
  readonly writable readonly_signer writable_signer : AccountRole

pub record AccountMeta : Type 0 where
  pub address : String
  pub role : AccountRole

pub record Instruction : Type 0 where
  pub program_address : String
  pub accounts : Option (List AccountMeta)
  pub bytes : Option (List ℕ)

pub data VaultStatus : Type 0 where
  active frozen closed : VaultStatus

-- The fields of the vault and of the policy that seal() reads.
pub record Vault : Type 0 where
  pub status : VaultStatus
  pub agents : List AgentEntry
  pub fee_destination : String

pub record Policy : Type 0 where
  pub protocol_mode : ℕ
  pub protocols : List String
  pub developer_fee_rate : ℕ
  pub policy_version : Option ℕ
  pub has_constraints : Bool

-- `resolvedAtTimestamp` is in seconds; the balances are those of the two stablecoins.
pub record VaultState : Type 0 where
  pub vault : Vault
  pub policy : Policy
  pub global_budget : EffectiveBudget
  pub agent_budget : Option EffectiveBudget
  pub max_transaction_usd : ℕ
  pub usdc : ℕ
  pub usdt : ℕ
  pub resolved_at_timestamp : ℕ

pub record Blockhash : Type 0 where
  pub blockhash : String
  pub last_valid_block_height : ℕ

-- AddressesByLookupTableAddress.
abbrev pub LookupTables : Type 0
LookupTables = List (String × List String)

pub data BlockedOperation : Type 0 where
  approve approve_checked transfer set_authority_or_close_account burn : BlockedOperation

-- What seal() throws, by its error code; `external` is an error of a service that it calls.
pub data SealError : Type 0 where
  hook_aborted : String → SealError
  vault_inactive agent_not_registered agent_paused agent_zero_capability : SealError
  plugin_rejected : String → String → SealError
  invalid_amount protocol_not_targeted : SealError
  spl_token_op_blocked : BlockedOperation → SealError
  protocol_not_allowed : String → SealError
  instruction_count : ℕ → SealError
  cap_exceeded : ℕ → ℕ → SealError
  ata_non_canonical : String → String → SealError
  invalid_params : String → SealError
  alt_integrity : ℕ → SealError
  tx_too_large : ℕ → SealError
  external : String → SealError

-- SealHookContext.
pub record SealHookContext : Type 0 where
  pub vault : String
  pub agent : String
  pub token_mint : String
  pub amount : ℤ
  pub network : Network
  pub correlation_id : String

-- ProtocolMeta of sdk/kit/src/types.ts.
pub record ProtocolMeta : Type 0 where
  pub name : String
  pub instruction_count_limited : Bool
  pub default_cu : ℕ

abbrev meta : String → Bool → ℕ → ProtocolMeta
meta name limited cu = record { name = name; instruction_count_limited = limited; default_cu = cu }

-- SUPPORTED_PROTOCOLS, by program address.
abbrev pub supported_protocols : List (String × ProtocolMeta)
supported_protocols =
    ("JUP6LkbZbjS1jKKwapdHNy74zcZ3tLUZoi5QNyVTaV4", meta "Jupiter" true 600000)
    ∷ ("FLASH6Lo6h3iasJKWDs2F8TkW2UKf3s15C8PMGuVfgBn", meta "Flash Trade" true 800000)
    ∷ ("JLend2fEim9xUFcaHsyGePEoBzFLvkjMi3MnPcSuCdu", meta "Jupiter Lend" true 400000)
    ∷ ("jup3YeL8QhtSx1e253b2FDvsMNC87fDrgQZivbrndc9", meta "Jupiter Earn" true 400000)
    ∷ ("jupr81YtYssSyPt8jbnGuiWon5f6x9TcDEFxYe3Bdzi", meta "Jupiter Borrow" true 400000)
    ∷ ("dRiftyHA39MWEi3m9aunc5MzRF1JYuBsbn6VPcn33UH", meta "Drift" false 800000)
    ∷ ("KLend2g3cP87ber8CzRaqeECGwNvLFM9acPVcRkRHvM", meta "Kamino" false 400000)
    ∷ []

-- RECOGNIZED_DEFI_PROGRAMS.
abbrev pub recognized_defi_programs : List String
recognized_defi_programs =
    map (λ entry. entry.0)
      (filter_by (λ entry. entry.1.instruction_count_limited) supported_protocols)
