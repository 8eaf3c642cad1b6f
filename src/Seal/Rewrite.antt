-- ===== src/Seal/Rewrite.antt =====
-- sdk/kit/src/seal.ts, replaceAgentAtas and the map of replacements that seal() builds: token
-- accounts of the agent's, replaced by the vault's.
pub mod Laws
use phalnx.Base.{
  ℕ, ◌≡◌, refl, Bool, true, false, not, ◌&&◌, List, [], ◌∷◌, map, Option, none, some, String,
  str_eq, Result, ok, err, ◌>>=◌, if◌then◌else◌, length, lookup, insert, All, arith, eq_iff,
  lookup-insert,
}
use phalnx.Seal.{
  AccountRole, readonly, writable, readonly_signer, writable_signer, AccountMeta, Instruction,
  SealError, invalid_params,
}

abbrev pub is_writable : AccountRole → Bool
is_writable readonly = false
is_writable writable = true
is_writable readonly_signer = false
is_writable writable_signer = true

-- (An address is not the empty text, so that a replacement found is truthy.)
abbrev pub with_replacement : AccountMeta → Option String → AccountMeta
with_replacement account none = account
with_replacement account (some replacement) =
    if is_writable account.role then record account { address = replacement } else account

unfoldable pub replace_account : List (String × String) → AccountMeta → AccountMeta
replace_account replacements account =
    with_replacement account (lookup account.address replacements)

abbrev replace_accounts :
    List (String × String) → Option (List AccountMeta) → Option (List AccountMeta)
replace_accounts replacements none = none
replace_accounts replacements (some accounts) = some (map (replace_account replacements) accounts)

unfoldable pub replace_instruction : List (String × String) → Instruction → Instruction
replace_instruction replacements ix = record ix {
  accounts = replace_accounts replacements ix.accounts;
}

unfoldable pub replace_agent_atas : List Instruction → List (String × String) → List Instruction
unfolding replace_instruction
replace_agent_atas instructions [] = instructions
replace_agent_atas instructions (r ∷ rs) = map (replace_instruction (r ∷ rs)) instructions

abbrev pub unless_present {ℓ} :
    {A : Type ℓ} → Option String → String → Result SealError A → Result SealError A
unless_present none key rest = rest
unless_present (some present) key rest = err (invalid_params key)

-- The loop over additionalAtaReplacements: a key that the map already has is an error.
unfoldable pub merge_replacements :
    List (String × String) → List (String × String) → Result SealError (List (String × String))
merge_replacements replacements [] = ok replacements
merge_replacements replacements ((agent_ata, vault_ata) ∷ more) =
    let merged = merge_replacements (insert agent_ata vault_ata replacements) more in
    unless_present (lookup agent_ata replacements) agent_ata merged

-- The agent's account for the token goes to the vault's, its stablecoin account to the output
-- account, where both are given.
abbrev pub with_stablecoin :
    List (String × String) → Option String → Option String → List (String × String)
with_stablecoin replacements (some agent_ata) (some output) = insert agent_ata output replacements
with_stablecoin replacements _ _ = replacements

unfoldable pub ata_replacements :
    String
    → String
    → Option String
    → Option String
    → List (String × String)
    → Result SealError (List (String × String))
unfolding merge_replacements
ata_replacements agent_ata vault_ata agent_stablecoin_ata output additional =
    merge_replacements (with_stablecoin ((agent_ata, vault_ata) ∷ []) agent_stablecoin_ata output)
      additional
