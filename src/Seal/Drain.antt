-- ===== src/Seal/Drain.antt =====
-- sdk/kit/src/simulation.ts, detectDrainAttempt and detectDrainFromSealContext: the flags of a
-- simulation that moves the tokens of a vault.
pub mod Laws
use phalnx.Base.{
  ℕ, zero, suc, ◌+◌, ◌*◌, Bool, true, false, not, ◌&&◌, ◌||◌, List, [], ◌∷◌, ◌++◌, Option, none,
  some, String, str_eq, if◌then◌else◌, ltb, leb, has, find_by, filter_by, length,
}
use phalnx.X402.{ℤ, pos, negsuc}
use phalnx.Seal.Build.{VaultContext}

pub data RiskFlag : Type 0 where
  large_outflow unknown_recipient full_drain multi_output : RiskFlag

-- (The balances before and after, whose difference `delta` is, are not read.)
pub record BalanceDelta : Type 0 where
  pub account : String
  pub delta : ℤ

-- A percentage as a JavaScript number: its integer part, if it is finite.
pub data Percent : Type 0 where
  not_finite : Percent
  finite : ℤ → Percent

pub record DrainThresholds : Type 0 where
  pub warning_percent : Option Percent
  pub block_percent : Option Percent

abbrev pub default_warning_percent : ℕ
default_warning_percent = 50

abbrev pub default_block_percent : ℕ
default_block_percent = 95

-- `Math.floor(Math.max(0, Math.min(100, x)))`, with the default where `x` is missing or not finite.
unfoldable pub clamp_percent : ℕ → Option Percent → ℕ
clamp_percent d none = d
clamp_percent d (some not_finite) = d
clamp_percent d (some (finite (negsuc n))) = 0
clamp_percent d (some (finite (pos n))) = if ltb 100 n then 100 else n

pub record DrainInput : Type 0 where
  pub balance_deltas : List BalanceDelta
  pub vault_address : String
  pub total_vault_balance : ℕ
  pub known_recipients : Option (List String)

-- What left the account, 0 if nothing did.
abbrev pub outflow : Option BalanceDelta → ℕ
outflow none = 0
outflow (some d) = elim d.delta [ pos n ↦ 0 | negsuc n ↦ suc n ]

abbrev pub is_inflow : ℤ → Bool
is_inflow (pos n) = ltb 0 n
is_inflow (negsuc n) = false

abbrev pub flag : Bool → RiskFlag → List RiskFlag
flag true f = f ∷ []
flag false f = []

-- The outflow is at least this share of a balance that is not 0.
abbrev pub is_share : ℕ → ℕ → ℕ → Bool
is_share out balance percent = ltb 0 out && (ltb 0 balance && leb (balance * percent) (out * 100))

unfoldable pub outflow_flags : ℕ → ℕ → ℕ → ℕ → List RiskFlag
outflow_flags out balance warning block =
    flag (is_share out balance warning) large_outflow
    ++ flag (is_share out balance block) full_drain

abbrev is_known : Option (List String) → String → Bool
is_known none account = false
is_known (some known) account = has known account

-- The deltas that bring tokens to another account than the vault's, not a known one.
unfoldable pub unknown_inflows : DrainInput → List BalanceDelta
unknown_inflows input =
    filter_by
      (λ d.
        is_inflow d.delta
        && (not (str_eq d.account input.vault_address)
            && not (is_known input.known_recipients d.account)))
      input.balance_deltas

abbrev pub is_given : Option (List String) → Bool
is_given none = false
is_given (some known) = true

abbrev pub warning_of : Option DrainThresholds → ℕ
warning_of none = default_warning_percent
warning_of (some t) = clamp_percent default_warning_percent t.warning_percent

abbrev pub block_of : Option DrainThresholds → ℕ
block_of none = default_block_percent
block_of (some t) = clamp_percent default_block_percent t.block_percent

unfoldable pub detect_drain_attempt : DrainInput → Option DrainThresholds → List RiskFlag
unfolding clamp_percent outflow_flags unknown_inflows
detect_drain_attempt input thresholds =
    let vault_delta = find_by (λ d. str_eq d.account input.vault_address) input.balance_deltas in
    outflow_flags (outflow vault_delta) input.total_vault_balance (warning_of thresholds)
      (block_of thresholds)
    ++ (flag (is_given input.known_recipients && ltb 0 (length (unknown_inflows input)))
          unknown_recipient
        ++ flag (leb 2 (length (unknown_inflows input))) multi_output)

-- The vault's context of a sealed transaction.
unfoldable pub detect_drain_from_seal_context :
    List BalanceDelta → VaultContext → Option DrainThresholds → List RiskFlag
detect_drain_from_seal_context deltas context thresholds =
    detect_drain_attempt
      record {
        balance_deltas = deltas;
        vault_address = context.vault_address;
        total_vault_balance = context.token_balance;
        known_recipients = some context.known_recipients;
      }
      thresholds
