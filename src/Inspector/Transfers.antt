-- ===== src/Inspector/Transfers.antt =====
-- The layout of a token transfer, byte by byte.
use phalnx.Base.{
  ℕ, ◌+◌, ◌*◌, ◌<◌, ◌≡◌, ◌≢◌, ◌⊎◌, List, [], ◌∷◌, ◌++◌, Option, none, some, String, length,
}
use phalnx.Inspector.{
  InspectableInstruction, TokenTransferInfo, token_program_address, token_2022_program_address,
  undefined_address,
}

-- The number that bytes spell, the lowest first.
abbrev pub le_value : List ℕ → ℕ
le_value [] = 0
le_value (b ∷ bytes) = b + 256 * le_value bytes

abbrev pub IsTokenProgram : String → Type 0
IsTokenProgram p = (p ≡ token_program_address) ⊎ (p ≡ token_2022_program_address)

-- The mint of an account that a compiled transaction resolves.
abbrev pub IsMint : String → Option String → Type 0
IsMint mint found =
    ((mint ≡ undefined_address) × (found ≡ none))
    ⊎ ((mint ≢ undefined_address) × (found ≡ some mint))

-- Transfer: 3 and the amount's 8 bytes, of the accounts source, destination and authority.
-- TransferChecked: 12, the amount's 8 bytes and a byte of decimals, of the accounts source, mint,
-- destination and authority. More bytes and accounts may follow.
pub data IsTransfer (ix : InspectableInstruction) (t : TokenTransferInfo) : Type 0 where
  plain :
      (amount rest : List ℕ) (more : List String)
      → IsTokenProgram ix.program_address
      → ix.bytes ≡ 3 ∷ amount ++ rest
      → length amount ≡ 8
      → ix.accounts ≡ t.source ∷ t.destination ∷ t.authority ∷ more
      → t.mint ≡ none
      → t.amount ≡ le_value amount
      → IsTransfer ix t
  checked :
      (amount rest : List ℕ) (mint : String) (more : List String)
      → IsTokenProgram ix.program_address
      → ix.bytes ≡ 12 ∷ amount ++ rest
      → 0 < length rest
      → length amount ≡ 8
      → ix.accounts ≡ t.source ∷ mint ∷ t.destination ∷ t.authority ∷ more
      → IsMint mint t.mint
      → t.amount ≡ le_value amount
      → IsTransfer ix t

-- The transfers that the instructions make, in order.
pub data Transfers : List InspectableInstruction → List TokenTransferInfo → Type 0 where
  done : Transfers [] []
  makes :
      {ix : InspectableInstruction} {ixs : List InspectableInstruction} {t : TokenTransferInfo}
      {ts : List TokenTransferInfo}
      → IsTransfer ix t
      → Transfers ixs ts
      → Transfers (ix ∷ ixs) (t ∷ ts)
  makes_none :
      {ix : InspectableInstruction} {ixs : List InspectableInstruction}
      {ts : List TokenTransferInfo}
      → ((t : TokenTransferInfo) → ¬ IsTransfer ix t)
      → Transfers ixs ts
      → Transfers (ix ∷ ixs) ts
