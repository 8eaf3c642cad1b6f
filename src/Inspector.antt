-- ===== src/Inspector.antt =====
-- sdk/kit/src/inspector.ts, analyzeInstructions: what a list of instructions does to tokens.
-- A missing `accounts` or `data` is the empty array, which the code treats alike. (inspectConstraints
-- prints text and is left out.)
pub mod Transfers
pub mod Reading
pub mod Laws
pub mod Tests
use phalnx.Base.{
  ℕ, zero, suc, ◌+◌, ◌*◌, ◌^◌, Bool, true, false, ◌&&◌, ◌||◌, List, [], ◌∷◌, ◌++◌, Option, none,
  some, String, str_eq, ltb, leb, ◌==◌, if◌then◌else◌, get_or, length, add,
}

-- sdk/kit/src/types.ts.
abbrev pub token_program_address : String
token_program_address = "TokenkegQfeZyiNwAJbNbGKPFXCWuBvf9Ss623VQ5DA"

abbrev pub token_2022_program_address : String
token_2022_program_address = "TokenzQdBNbLqP5VEhdkAS6EPFLC1PHnBqCXEpPxuEb"

abbrev spl_transfer_discriminator : ℕ
spl_transfer_discriminator = 3

abbrev spl_approve_discriminator : ℕ
spl_approve_discriminator = 4

abbrev spl_revoke_discriminator : ℕ
spl_revoke_discriminator = 5

abbrev spl_set_authority_discriminator : ℕ
spl_set_authority_discriminator = 6

abbrev spl_close_account_discriminator : ℕ
spl_close_account_discriminator = 9

abbrev spl_transfer_checked_discriminator : ℕ
spl_transfer_checked_discriminator = 12

abbrev spl_approve_checked_discriminator : ℕ
spl_approve_checked_discriminator = 13

pub record InspectableInstruction : Type 0 where
  pub program_address : String
  pub accounts : List String
  pub bytes : List ℕ

-- `mint` is `none` for a plain Transfer.
pub record TokenTransferInfo : Type 0 where
  pub mint : Option String
  pub amount : ℕ
  pub source : String
  pub destination : String
  pub authority : String

pub data OperationType : Type 0 where
  approve set_authority close_account revoke : OperationType

pub record DangerousTokenOperation : Type 0 where
  pub type : OperationType
  pub account : String

pub record InstructionAnalysis : Type 0 where
  pub program_ids : List String
  pub token_transfers : List TokenTransferInfo
  pub estimated_value : ℕ
  pub dangerous_operations : List DangerousTokenOperation

-- `getBigUint64(offset, true)`: eight bytes, the lowest first.
unfoldable pub read_le : ℕ → ℕ → List ℕ → ℕ
read_le zero i bytes = 0
read_le (suc rounds) i bytes = get_or bytes i 0 + 256 * read_le rounds (i + 1) bytes

abbrev pub read_u64_le : List ℕ → ℕ → ℕ
unfolding read_le
read_u64_le bytes offset = read_le 8 offset bytes

-- Transfer: [disc][amount], accounts [source, destination, authority].
unfoldable pub plain_transfer : List ℕ → List String → Option TokenTransferInfo
plain_transfer bytes (source ∷ (destination ∷ (authority ∷ more))) =
    if ltb (length bytes) 9
    then none
    else some (record {
      mint = none;
      amount = read_le 8 1 bytes;
      source = source;
      destination = destination;
      authority = authority;
    })
plain_transfer bytes _ = none

-- What stands for JavaScript's `undefined`, the address of an account that a compiled transaction
-- does not resolve. It is no address.
abbrev pub undefined_address : String
undefined_address = "undefined"

abbrev pub defined : String → Option String
defined mint = if str_eq mint undefined_address then none else some mint

-- TransferChecked: [disc][amount][decimals], accounts [source, mint, destination, authority].
unfoldable pub checked_transfer : List ℕ → List String → Option TokenTransferInfo
checked_transfer bytes (source ∷ (mint ∷ (destination ∷ (authority ∷ more)))) =
    if ltb (length bytes) 10
    then none
    else some (record {
      mint = defined mint;
      amount = read_le 8 1 bytes;
      source = source;
      destination = destination;
      authority = authority;
    })
checked_transfer bytes _ = none

abbrev pub is_token_program : String → Bool
is_token_program p = str_eq p token_program_address || str_eq p token_2022_program_address

-- The transfer that an instruction makes, if it is one of a token program and long enough.
unfoldable pub transfer_of : InspectableInstruction → Option TokenTransferInfo
transfer_of ix =
    let disc = get_or ix.bytes 0 0 in
    if is_token_program ix.program_address && ltb 0 (length ix.bytes)
    then (if disc == spl_transfer_discriminator
        then plain_transfer ix.bytes ix.accounts
        else if disc == spl_transfer_checked_discriminator
        then checked_transfer ix.bytes ix.accounts
        else none)
    else none

unfoldable pub dangerous_type : ℕ → Option OperationType
dangerous_type disc =
    if disc == spl_approve_discriminator || disc == spl_approve_checked_discriminator
    then some approve
    else if disc == spl_set_authority_discriminator
    then some set_authority
    else if disc == spl_close_account_discriminator
    then some close_account
    else if disc == spl_revoke_discriminator
    then some revoke
    else none

abbrev on_account : Option OperationType → List String → Option DangerousTokenOperation
on_account none accounts = none
on_account (some t) [] = none
on_account (some t) (account ∷ more) = some (record { type = t; account = account })

unfoldable pub dangerous_of : InspectableInstruction → Option DangerousTokenOperation
unfolding dangerous_type
dangerous_of ix =
    if is_token_program ix.program_address && ltb 0 (length ix.bytes)
    then on_account (dangerous_type (get_or ix.bytes 0 0)) ix.accounts
    else none

abbrev push {ℓ} : {A : Type ℓ} → List A → Option A → List A
push xs none = xs
push xs (some x) = xs ++ x ∷ []

-- What a transfer adds to the value that leaves the signer.
abbrev pub outgoing_amount : String → Option TokenTransferInfo → ℕ
outgoing_amount signer none = 0
outgoing_amount signer (some t) = if str_eq t.authority signer then t.amount else 0

-- The body of the loop.
unfoldable pub analyze_instruction :
    String → InstructionAnalysis → InspectableInstruction → InstructionAnalysis
analyze_instruction signer acc ix = record {
  program_ids = add acc.program_ids ix.program_address;
  token_transfers = push acc.token_transfers (transfer_of ix);
  estimated_value = acc.estimated_value + outgoing_amount signer (transfer_of ix);
  dangerous_operations = push acc.dangerous_operations (dangerous_of ix);
}

unfoldable pub analyze_from :
    String → InstructionAnalysis → List InspectableInstruction → InstructionAnalysis
analyze_from signer acc [] = acc
analyze_from signer acc (ix ∷ ixs) = analyze_from signer (analyze_instruction signer acc ix) ixs

abbrev empty_analysis : InstructionAnalysis
empty_analysis = record {
  program_ids = [];
  token_transfers = [];
  estimated_value = 0;
  dangerous_operations = [];
}

unfoldable pub analyze_instructions : List InspectableInstruction → String → InstructionAnalysis
unfolding analyze_from analyze_instruction transfer_of dangerous_of plain_transfer checked_transfer
    read_le
analyze_instructions instructions signer = analyze_from signer empty_analysis instructions
