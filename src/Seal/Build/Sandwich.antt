-- ===== src/Seal/Build/Sandwich.antt =====
-- What the transaction of seal() holds: the caller's instructions, stripped and rewritten, between
-- the two of the program.
use phalnx.Base.{
  ◌⊎◌, ℕ, ◌≡◌, ◌≢◌, Bool, ◌&&◌, not, List, [], ◌∷◌, ◌++◌, Option, some, String, Result, ltb, lookup,
  All,
}
use phalnx.Network.{is_stablecoin_mint}
use phalnx.Seal.{Instruction, VaultState, SealError}
use phalnx.Seal.Rewrite.{ata_replacements, replace_agent_atas}
use phalnx.Seal.Gates.{strip, compute_budget_program, system_program, Checked}
use phalnx.Seal.Composer.{TransactionMessage, units, priority_fee}
use phalnx.Seal.Build.{Services, SealParams, SealResult, Prepared}
use phalnx.Seal.Build.Steps.{usdc_mint, when, output_account}
use phalnx.Seal.Build.Ends.{IsFee, IsUnits, IsValidate, IsFinalize}

-- Of neither the compute budget nor the system program.
abbrev pub IsDefi : String → Type 0
IsDefi program = (program ≢ compute_budget_program) × (program ≢ system_program)

-- The instructions, in order, without those of the compute budget and the system program.
pub data Stripped : List Instruction → List Instruction → Type 0 where
  none_left : Stripped [] []
  keeps :
      {ix : Instruction} {ixs kept : List Instruction}
      → IsDefi ix.program_address
      → Stripped ixs kept
      → Stripped (ix ∷ ixs) (ix ∷ kept)
  drops :
      {ix : Instruction} {ixs kept : List Instruction}
      → (ix.program_address ≡ compute_budget_program) ⊎ (ix.program_address ≡ system_program)
      → Stripped ixs kept
      → Stripped (ix ∷ ixs) kept

module _ {World Transaction : Type 0} (s : Services World Transaction)
    (p : SealParams World Transaction) where
  -- The output account is needed, and with it the agent's account for the stablecoin.
  abbrev agent_stablecoin : Checked → Option String
  agent_stablecoin c =
      when (ltb 0 c.amount && not (is_stablecoin_mint p.token_mint p.network))
        (s.derive_ata p.agent (usdc_mint p.network))

  abbrev needs_output : Checked → Bool
  needs_output c = ltb 0 c.amount && not (is_stablecoin_mint p.token_mint p.network)

  abbrev merge : VaultState → Checked → Result SealError (List (String × String))
  merge state c =
      ata_replacements (s.derive_ata p.agent p.token_mint) (s.derive_ata p.vault p.token_mint)
        (agent_stablecoin c) (output_account s p (needs_output c)) p.additional_ata_replacements

  abbrev budget_of : Prepared → List Instruction
  budget_of prepared =
      s.set_compute_unit_limit (
        units s.set_compute_unit_limit s.set_compute_unit_price p.compute_units
          prepared.instructions)
      ∷ priority_fee s.set_compute_unit_limit s.set_compute_unit_price p.priority_fee_micro_lamports

  -- What the transaction of seal() is: the program's two instructions around the caller's.
  pub record IsSandwich (result : SealResult Transaction) : Type 0 where
    pub message : TransactionMessage
    pub replacements : List (String × String)
    pub limit : ℕ
    pub fees : List Instruction
    pub validate : Instruction
    pub finalize : Instruction
    pub compiled : result.transaction ≡ s.compile message
    pub paid_by : message.fee_payer ≡ p.agent
    pub ordered :
        message.instructions
        ≡ (s.set_compute_unit_limit limit ∷ fees)
          ++ (validate ∷ replace_agent_atas (strip p.instructions) replacements ++ (finalize ∷ []))
    pub limited :
        IsUnits s p p.compute_units (replace_agent_atas (strip p.instructions) replacements) limit
    pub priced : IsFee s p p.priority_fee_micro_lamports fees
    pub validates : IsValidate s p validate
    pub finalizes : IsFinalize s p finalize
    pub stripped : Stripped p.instructions (strip p.instructions)
    pub filtered :
        All
          (λ ix. IsDefi ix.program_address)
          (replace_agent_atas (strip p.instructions) replacements)
    pub replaced :
        lookup (s.derive_ata p.agent p.token_mint) replacements
        ≡ some (s.derive_ata p.vault p.token_mint)
