-- ===== src/Seal/Build/Ends.antt =====
-- The instructions of seal() around those of the caller.
use phalnx.Base.{
  ℕ, zero, suc, none, ◌<◌, inl, inr, ◌⊎◌, ◌≡◌, refl, List, [], ◌∷◌, Option, some, arith,
}
use phalnx.X402.{pos}
use phalnx.Seal.{AccountMeta, Instruction, VaultState}
use phalnx.Seal.Gates.{target, strip, Checked}
use phalnx.Seal.Composer.{units, priority_fee, estimate_composed_cu}
use phalnx.Seal.Build.{ValidateInput, FinalizeInput, Services, SealParams, Prepared}
use phalnx.Seal.Build.Steps.{with_accounts, constraints_account, validate_ix, finalize_ix}

module _ {World Transaction : Type 0} (s : Services World Transaction)
    (p : SealParams World Transaction) where
  -- The fees: an instruction for the price where the caller gives one above 0.
  abbrev pub IsFee : Option ℕ → List Instruction → Type 0
  IsFee none fees = fees ≡ []
  IsFee (some price) fees =
      ((price ≡ 0) × (fees ≡ [])) ⊎ ((0 < price) × (fees ≡ s.set_compute_unit_price price ∷ []))

  abbrev pub IsUnits : Option ℕ → List Instruction → ℕ → Type 0
  IsUnits none instructions n = n ≡ estimate_composed_cu instructions
  IsUnits (some given) instructions n = n ≡ given

  pub priority_fee-IsFee :
      (price : Option ℕ)
      → IsFee price (priority_fee s.set_compute_unit_limit s.set_compute_unit_price price)
  priority_fee-IsFee none = refl
  priority_fee-IsFee (some zero) = inl (refl, refl)
  priority_fee-IsFee (some (suc n)) = inr (omega arith, ground arith)

  pub units-IsUnits :
      (given : Option ℕ) (instructions : List Instruction)
      → IsUnits given instructions
          (units s.set_compute_unit_limit s.set_compute_unit_price given instructions)
  units-IsUnits none instructions = refl
  units-IsUnits (some n) instructions = refl

  -- validate_and_authorize for the agent, the vault, the token, the amount and the protocol of the
  -- call; accounts may be added.
  abbrev pub IsValidate : Instruction → Type 0
  IsValidate ix =
      (input : ValidateInput) × (ix
        ≡ record (s.validate_and_authorize input) { accounts = ix.accounts })
      × (input.agent ≡ p.agent)
      × (input.vault ≡ p.vault)
      × (input.vault_token_account ≡ s.derive_ata p.vault p.token_mint)
      × (input.token_mint ≡ p.token_mint)
      × (p.amount ≡ pos input.amount)
      × (input.target_protocol ≡ target p.target_protocol (strip p.instructions))

  -- finalize_session for the session of the vault, the agent and the token.
  abbrev pub IsFinalize : Instruction → Type 0
  IsFinalize ix =
      (input : FinalizeInput) × (ix ≡ s.finalize_session input)
      × (input.payer ≡ p.agent)
      × (input.vault ≡ p.vault)
      × (input.vault_token_account ≡ s.derive_ata p.vault p.token_mint)
      × (input.session ≡ s.session_pda p.vault p.agent p.token_mint)

  with_accounts-rest :
      (ix : Instruction) (added : List AccountMeta)
      → with_accounts s ix added ≡ record ix { accounts = (with_accounts s ix added).accounts }
  with_accounts-rest ix [] = refl
  with_accounts-rest ix (account ∷ more) = refl

  pub validate_ix-IsValidate :
      (state : VaultState) (c : Checked) (prepared : Prepared)
      → prepared.vault_token_account ≡ s.derive_ata p.vault p.token_mint
      → p.amount ≡ pos c.amount
      → c.target_protocol ≡ target p.target_protocol (strip p.instructions)
      → IsValidate (validate_ix s p state c prepared)
  unfolding validate_ix
  validate_ix-IsValidate state c prepared account amount protocol = (
    _,
    with_accounts-rest _ (constraints_account s p.vault state.policy),
    refl,
    refl,
    account,
    refl,
    amount,
    protocol,
  )

  pub finalize_ix-IsFinalize :
      (prepared : Prepared)
      → prepared.vault_token_account ≡ s.derive_ata p.vault p.token_mint
      → IsFinalize (finalize_ix s p prepared)
  unfolding finalize_ix
  finalize_ix-IsFinalize prepared account = (_, refl, refl, refl, account, refl)
