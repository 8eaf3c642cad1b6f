-- ===== src/Seal/Gates.antt =====
-- sdk/kit/src/seal.ts, the checks of seal() before it builds the transaction, steps 1 to 6, and
-- isProtocolAllowed of sdk/kit/src/protocol-resolver.ts.
pub mod Checks
pub mod Laws
use phalnx.Base.{
  ℕ, ◌+◌, ◌-◌, ◌*◌, ◌/◌, Bool, true, false, not, ◌&&◌, ◌||◌, List, [], ◌∷◌, Option, none, some,
  String, str_eq, Result, ok, err, ◌>>=◌, throw_if, guard, if◌then◌else◌, ltb, ◌==◌, has, find_by,
  filter_by, length,
}
use phalnx.Network.{Network, is_stablecoin_mint}
use phalnx.Budget.{AgentEntry, u64_max}
use phalnx.Inspector.{token_program_address, token_2022_program_address, is_token_program}
use phalnx.X402.{ℤ, pos, negsuc}
use phalnx.Seal.{
  Instruction, VaultStatus, active, frozen, closed, Vault, Policy, VaultState, BlockedOperation,
  approve, approve_checked, transfer, set_authority_or_close_account, burn, SealError,
  vault_inactive, agent_not_registered, agent_paused, agent_zero_capability, invalid_amount,
  protocol_not_targeted, spl_token_op_blocked, protocol_not_allowed, instruction_count,
  cap_exceeded, ata_non_canonical, recognized_defi_programs,
}

abbrev pub compute_budget_program : String
compute_budget_program = "ComputeBudget111111111111111111111111111111"

abbrev pub system_program : String
system_program = "11111111111111111111111111111111"

abbrev is_active : VaultStatus → Bool
is_active active = true
is_active frozen = false
is_active closed = false

abbrev pub registered : Option AgentEntry → Result SealError AgentEntry
registered none = err agent_not_registered
registered (some entry) = if entry.paused then err agent_paused else ok entry

-- The vault is active, and the agent is registered and not paused.
unfoldable pub find_agent : String → Vault → Result SealError AgentEntry
find_agent agent vault =
    if is_active vault.status
    then registered (find_by (λ entry. str_eq entry.pubkey agent) vault.agents)
    else err vault_inactive

unfoldable pub check_amount : ℤ → Result SealError ℕ
check_amount (negsuc n) = err invalid_amount
check_amount (pos n) = if ltb u64_max n then err invalid_amount else ok n

abbrev pub is_defi : Instruction → Bool
is_defi ix =
    not (str_eq ix.program_address compute_budget_program)
    && not (str_eq ix.program_address system_program)

unfoldable pub strip : List Instruction → List Instruction
strip instructions = filter_by is_defi instructions

-- The operation that the first byte asks the program for, if it is a blocked one.
unfoldable pub blocked_operation : String → ℕ → Option BlockedOperation
blocked_operation program disc =
    if disc == 4
    then some approve
    else if disc == 13
    then some approve_checked
    else if (disc == 3)
        || ((disc == 12) || (str_eq program token_2022_program_address && (disc == 26)))
    then some transfer
    else if (disc == 6) || (disc == 9)
    then some set_authority_or_close_account
    else if (disc == 8) || (disc == 15)
    then some burn
    else none

abbrev pub blocked_bytes : String → Option (List ℕ) → Option BlockedOperation
blocked_bytes program (some (disc ∷ bytes)) =
    if is_token_program program then blocked_operation program disc else none
blocked_bytes program _ = none

unfoldable pub blocked : Instruction → Option BlockedOperation
unfolding blocked_operation
blocked ix = blocked_bytes ix.program_address ix.bytes

abbrev refuse_blocked :
    Option BlockedOperation → Result SealError (Unit {0}) → Result SealError (Unit {0})
refuse_blocked none rest = rest
refuse_blocked (some operation) rest = err (spl_token_op_blocked operation)

unfoldable pub check_token_operations : List Instruction → Result SealError (Unit {0})
check_token_operations [] = ok tt
check_token_operations (ix ∷ instructions) =
    refuse_blocked (blocked ix) (check_token_operations instructions)

-- `params.targetProtocol ?? defiInstructions[0]?.programAddress`, which must not be empty.
abbrev pub target : Option String → List Instruction → String
target (some protocol) instructions = protocol
target none [] = ""
target none (ix ∷ instructions) = ix.program_address

unfoldable pub is_protocol_allowed : String → Policy → Bool
is_protocol_allowed program policy =
    if policy.protocol_mode == 0
    then true
    else if policy.protocol_mode == 1
    then has policy.protocols program
    else not (has policy.protocols program)

abbrev pub defi_count : List Instruction → ℕ
defi_count instructions =
    length (filter_by (λ ix. has recognized_defi_programs ix.program_address) instructions)

unfoldable pub check_count : Bool → ℕ → Result SealError (Unit {0})
check_count true count = if ltb 1 count then err (instruction_count count) else ok tt
check_count false count = if count == 1 then ok tt else err (instruction_count count)

abbrev pub fee_denominator : ℕ
fee_denominator = 1000000

abbrev pub protocol_fee_rate : ℕ
protocol_fee_rate = 200

abbrev pub ceil_fee : ℕ → ℕ → ℕ
ceil_fee amount rate = (amount * rate + fee_denominator - 1) / fee_denominator

abbrev pub total_with_fees : ℕ → ℕ → ℕ
total_with_fees amount developer_fee_rate =
    amount + ceil_fee amount protocol_fee_rate + ceil_fee amount developer_fee_rate

unfoldable pub check_headroom : ℕ → ℕ → ℕ → Result SealError (Unit {0})
check_headroom amount developer_fee_rate headroom =
    if ltb headroom (total_with_fees amount developer_fee_rate)
    then err (cap_exceeded (total_with_fees amount developer_fee_rate) headroom)
    else ok tt

-- The check of an output account that the caller names, against the vault's canonical one.
unfoldable pub check_output : Option String → String → Result SealError (Unit {0})
check_output none canonical = ok tt
check_output (some account) canonical =
    if str_eq account canonical then ok tt else err (ata_non_canonical canonical account)

-- An operation that spends: the number of recognized instructions, the headroom, and the output
-- account of a swap into a stablecoin.
unfoldable pub check_spending :
    Bool → ℕ → Option String → String → List Instruction → VaultState → Result SealError (Unit {0})
unfolding check_count check_headroom check_output
check_spending stablecoin amount output canonical instructions state =
    check_count stablecoin (defi_count instructions) >>= λ _.
    check_headroom amount state.policy.developer_fee_rate state.global_budget.remaining >>= λ _.
    if stablecoin then ok tt else check_output output canonical

-- What the checks after the plugins hand on.
pub record Checked : Type 0 where
  pub amount : ℕ
  pub instructions : List Instruction
  pub target_protocol : String

-- Steps 3 to 6: the instructions that remain and the protocol that the transaction is for.
-- `canonical` is the vault's own account for the stablecoin of the network.
unfoldable pub check_operation :
    ℤ
    → List Instruction
    → Option String
    → Bool
    → Option String
    → String
    → AgentEntry
    → VaultState
    → Result SealError Checked
unfolding check_amount strip check_token_operations is_protocol_allowed check_spending
check_operation amount instructions target_protocol stablecoin output canonical agent state =
    check_amount amount >>= λ n.
    let defi = strip instructions in
    let protocol = target target_protocol defi in
    check_token_operations defi >>= λ _.
    throw_if (str_eq protocol "") protocol_not_targeted >>= λ _.
    throw_if (agent.capability == 0) agent_zero_capability >>= λ _.
    guard (is_protocol_allowed protocol state.policy) (protocol_not_allowed protocol) >>= λ _.
    (if ltb 0 n then check_spending stablecoin n output canonical defi state else ok tt) >>= λ _.
    ok record { amount = n; instructions = defi; target_protocol = protocol }
