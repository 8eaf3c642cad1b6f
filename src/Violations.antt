-- ===== src/Violations.antt =====
-- sdk/kit/src/core/errors.ts, PolicyViolation: one constructor for each `rule`, with the values that
-- its message and details show. The texts of the messages and suggestions are left out.
use phalnx.Base.{ℕ, Bool, Option, String}

pub data PolicyViolation : Type 0 where
  -- The core engine's rules.
  protocol_not_allowed unknown_program token_not_allowed : String → PolicyViolation
  spending_cap : (limit attempted remaining : ℕ) → (token_mint : String) → PolicyViolation
  transaction_size : (limit attempted : ℕ) → PolicyViolation
  rate_limit : (count max_transactions : ℕ) → PolicyViolation
  -- The kit's rules.
  paused : PolicyViolation
  program_allowlist : String → PolicyViolation
  spend_limit : (mint : String) → (total limit : ℕ) → PolicyViolation
  custom : Option String → PolicyViolation
  on_chain_tx_size on_chain_vault_cap on_chain_agent_cap : (total cap : ℕ) → PolicyViolation
  velocity_ceiling : (total limit : ℕ) → PolicyViolation
  session_binding : (has_validate has_finalize : Bool) → PolicyViolation
  simulation : PolicyViolation
  -- The velocity tracker's rules.
  velocity_cooldown : (remaining_ms : ℕ) → PolicyViolation
  velocity_tx_per_minute velocity_tx_per_hour velocity_usd_per_hour :
      (total limit : ℕ) → PolicyViolation
  velocity_on_chain_cap : (spent cap : ℕ) → PolicyViolation
  velocity_rapid_fire : (count window_ms : ℕ) → PolicyViolation
