-- ===== src/Seal/Build/Steps.antt =====
-- sdk/kit/src/seal.ts, seal(): its steps, and the steps together.
use phalnx.Base.{
  ℕ, ◌+◌, ◌*◌, Bool, true, false, not, ◌&&◌, List, [], ◌∷◌, ◌++◌, Option, none, some, String,
  Result, ok, err, ◌>>=◌, Task, if◌then◌else◌, ltb,
}
use phalnx.Network.{
  Network, devnet, mainnet_beta, usdc_mint_devnet, usdc_mint_mainnet, usdt_mint_devnet,
  usdt_mint_mainnet, is_stablecoin_mint,
}
use phalnx.Budget.{AgentEntry}
use phalnx.Seal.{
  readonly, AccountMeta, Instruction, Policy, VaultState, SealError, hook_aborted, SealHookContext,
}
use phalnx.Seal.Hooks.{invoke_before_build}
use phalnx.Seal.Plugins.{PluginContext, run_plugins}
use phalnx.Seal.Rewrite.{ata_replacements, replace_agent_atas}
use phalnx.Seal.Gates.{Checked, check_operation}
use phalnx.Seal.Lookup.{protocol_treasury}
use phalnx.Seal.Build.{
  Services, SealParams, Warning, output_ata_missing, output_ata_unchecked, Prepared,
}

abbrev pub usdc_mint : Network → String
usdc_mint devnet = usdc_mint_devnet
usdc_mint mainnet_beta = usdc_mint_mainnet

abbrev pub usdt_mint : Network → String
usdt_mint devnet = usdt_mint_devnet
usdt_mint mainnet_beta = usdt_mint_mainnet

abbrev pub when {ℓ} : {A : Type ℓ} → Bool → A → Option A
when true a = some a
when false a = none

abbrev pub or_default {ℓ} : {A : Type ℓ} → Option A → A → A
or_default none d = d
or_default (some a) d = a

module _ {World Transaction : Type 0} (s : Services World Transaction) where
  abbrev pub context : SealParams World Transaction → SealHookContext
  context p = record {
    vault = p.vault;
    agent = p.agent;
    token_mint = p.token_mint;
    amount = p.amount;
    network = p.network;
    correlation_id = p.correlation_id;
  }

  abbrev aborted : Option String × World → Result SealError (Unit {0}) × World
  aborted (some reason, w) = (err (hook_aborted reason), w)
  aborted (none, w) = (ok tt, w)

  unfoldable pub before_build : SealParams World Transaction → Task World SealError (Unit {0})
  before_build p w = aborted (invoke_before_build p.hooks (context p) w)

  -- A cached state older than the maximal age is resolved again.
  unfoldable pub resolve_state : SealParams World Transaction → Task World SealError VaultState
  resolve_state p w =
      let resolved = s.resolve_vault_state p.vault p.agent p.network w in
      elim p.cached_state [
        | none ↦ resolved
        | some state ↦
            if ltb (or_default p.max_cache_age_ms 30000 + 1000 * state.resolved_at_timestamp)
              (s.now_ms w)
            then resolved
            else (ok state, w)
      ]

  abbrev pub plugin_context : SealParams World Transaction → VaultState → AgentEntry → PluginContext
  plugin_context p state entry = record {
    vault = p.vault;
    agent = p.agent;
    token_mint = p.token_mint;
    amount = p.amount;
    network = p.network;
    instructions = p.instructions;
    correlation_id = p.correlation_id;
    state = record {
      global_budget = state.global_budget;
      agent_budget = state.agent_budget;
      vault_status = state.vault.status;
      capability_tier = entry.capability;
      max_transaction_usd = state.max_transaction_usd;
      resolved_at_timestamp = state.resolved_at_timestamp;
    };
  }

  unfoldable pub check_plugins :
      SealParams World Transaction → VaultState → AgentEntry → Task World SealError (Unit {0})
  check_plugins p state entry = run_plugins p.plugins (plugin_context p state entry)

  unfoldable pub check_params :
      SealParams World Transaction → VaultState → AgentEntry → Result SealError Checked
  check_params p state entry =
      check_operation p.amount p.instructions p.target_protocol
        (is_stablecoin_mint p.token_mint p.network) p.output_stablecoin_account
        (s.derive_ata p.vault (usdc_mint p.network)) entry state

  abbrev existence : String → Result String (Option (List ℕ)) × World → List Warning × World
  existence ata (err message, w) = (output_ata_unchecked message ∷ [], w)
  existence ata (ok none, w) = (output_ata_missing ata ∷ [], w)
  existence ata (ok (some bytes), w) = ([], w)

  -- The check that the derived output account exists, and its warning.
  unfoldable pub check_existence :
      SealParams World Transaction → Bool → World → List Warning × World
  check_existence p needed w =
      let derived = s.derive_ata p.vault (usdc_mint p.network) in
      elim p.output_stablecoin_account [
        | some account ↦ ([], w)
        | none ↦ if needed then existence derived (s.account_data derived w) else ([], w)
      ]

  abbrev pub output_account : SealParams World Transaction → Bool → Option String
  output_account p needed = elim p.output_stablecoin_account [
    | some account ↦ some account
    | none ↦ when needed (s.derive_ata p.vault (usdc_mint p.network))
  ]

  abbrev with_instructions :
      SealParams World Transaction
      → VaultState
      → Checked
      → Option String
      → List Warning
      → List (String × String)
      → Prepared
  with_instructions p state c output warnings replacements = record {
    vault_token_account = s.derive_ata p.vault p.token_mint;
    output_account = output;
    treasury_account = when (ltb 0 c.amount) (s.derive_ata protocol_treasury p.token_mint);
    fee_account =
        when (ltb 0 c.amount && ltb 0 state.policy.developer_fee_rate)
          (s.derive_ata state.vault.fee_destination p.token_mint);
    instructions = replace_agent_atas c.instructions replacements;
    warnings = warnings;
  }

  -- Step 7: the token accounts, and the agent's accounts replaced by them.
  unfoldable pub prepare :
      SealParams World Transaction → VaultState → Checked → Task World SealError Prepared
  unfolding check_existence
  prepare p state c w =
      let needed = ltb 0 c.amount && not (is_stablecoin_mint p.token_mint p.network) in
      let (warnings, w1) = check_existence p needed w in
      let output = output_account p needed in
      (
        ata_replacements (s.derive_ata p.agent p.token_mint) (s.derive_ata p.vault p.token_mint)
              (when needed (s.derive_ata p.agent (usdc_mint p.network))) output
              p.additional_ata_replacements
            >>= λ replacements. ok (with_instructions p state c output warnings replacements),
        w1,
      )

  abbrev pub constraints_account : String → Policy → List AccountMeta
  constraints_account vault policy =
      if policy.has_constraints
      then record { address = s.constraints_pda vault; role = readonly } ∷ []
      else []

  abbrev pub with_accounts : Instruction → List AccountMeta → Instruction
  with_accounts ix [] = ix
  with_accounts ix (account ∷ more) = record ix {
    accounts = some (or_default ix.accounts [] ++ (account ∷ more));
  }

  -- Step 8: validate_and_authorize, with the constraints account where the policy has constraints.
  unfoldable pub validate_ix :
      SealParams World Transaction → VaultState → Checked → Prepared → Instruction
  validate_ix p state c prepared =
      with_accounts
        (s.validate_and_authorize record {
          agent = p.agent;
          vault = p.vault;
          agent_spend_overlay = s.agent_overlay_pda p.vault;
          vault_token_account = prepared.vault_token_account;
          token_mint = p.token_mint;
          protocol_treasury_token_account = prepared.treasury_account;
          fee_destination_token_account = prepared.fee_account;
          output_stablecoin_account = prepared.output_account;
          amount = c.amount;
          target_protocol = c.target_protocol;
          expected_policy_version = or_default state.policy.policy_version 0;
        })
        (constraints_account p.vault state.policy)

  unfoldable pub finalize_ix : SealParams World Transaction → Prepared → Instruction
  finalize_ix p prepared = s.finalize_session record {
    payer = p.agent;
    vault = p.vault;
    session = s.session_pda p.vault p.agent p.token_mint;
    session_rent_recipient = p.agent;
    agent_spend_overlay = s.agent_overlay_pda p.vault;
    vault_token_account = prepared.vault_token_account;
    output_stablecoin_account = prepared.output_account;
  }
