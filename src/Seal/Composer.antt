-- ===== src/Seal/Composer.antt =====
-- sdk/kit/src/composer.ts and estimateComposedCU of sdk/kit/src/priority-fees.ts: the message of a
-- sealed transaction, and its size. The instructions of the compute budget program, the compiler and
-- the wire format are the Solana kit's, and parameters.
use Prim.Native.String.{len, slice}
use phalnx.Base.{
  ℕ, ◌+◌, ◌-◌, ◌*◌, ◌/◌, Bool, true, false, ◌&&◌, List, [], ◌∷◌, ◌++◌, Option, none, some, String,
  str_eq, Result, ok, err, if◌then◌else◌, ltb, leb, length, lookup,
}
use phalnx.Seal.{
  Instruction, Blockhash, LookupTables, ProtocolMeta, supported_protocols, SealError, tx_too_large,
}

abbrev pub max_tx_size : ℕ
max_tx_size = 1232

abbrev pub cu_agent_transfer : ℕ
cu_agent_transfer = 200000

abbrev pub cu_jupiter_multi_hop : ℕ
cu_jupiter_multi_hop = 900000

abbrev pub cu_default_composed : ℕ
cu_default_composed = 800000

abbrev jupiter_program : String
jupiter_program = "JUP6LkbZbjS1jKKwapdHNy74zcZ3tLUZoi5QNyVTaV4"

abbrev pub has_program : String → List Instruction → Bool
has_program program [] = false
has_program program (ix ∷ instructions) =
    let rest = has_program program instructions in
    if str_eq ix.program_address program then true else rest

abbrev known_or : Option ProtocolMeta → ℕ → ℕ
known_or none rest = rest
known_or (some protocol) rest = protocol.default_cu

-- The estimate of the first instruction of a supported protocol.
unfoldable pub first_known_cu : List Instruction → ℕ
first_known_cu [] = cu_default_composed
first_known_cu (ix ∷ instructions) =
    known_or (lookup ix.program_address supported_protocols) (first_known_cu instructions)

unfoldable pub estimate_composed_cu : List Instruction → ℕ
unfolding first_known_cu
estimate_composed_cu [] = cu_agent_transfer
estimate_composed_cu (ix ∷ instructions) =
    if has_program jupiter_program (ix ∷ instructions) && ltb 2 (length (ix ∷ instructions))
    then cu_jupiter_multi_hop
    else first_known_cu (ix ∷ instructions)

-- ComposeTransactionParams.
pub record ComposeParams : Type 0 where
  pub fee_payer : String
  pub validate_ix : Instruction
  pub defi_instructions : List Instruction
  pub finalize_ix : Instruction
  pub blockhash : Blockhash
  pub compute_units : Option ℕ
  pub priority_fee_micro_lamports : Option ℕ
  pub address_lookup_tables : LookupTables

-- The message that is compiled. It is compressed if its lookup tables are not empty.
pub record TransactionMessage : Type 0 where
  pub fee_payer : String
  pub lifetime : Blockhash
  pub instructions : List Instruction
  pub lookup_tables : LookupTables

module _ (set_compute_unit_limit set_compute_unit_price : ℕ → Instruction) where
  abbrev pub units : Option ℕ → List Instruction → ℕ
  units none instructions = estimate_composed_cu instructions
  units (some given) instructions = given

  abbrev pub priority_fee : Option ℕ → List Instruction
  priority_fee none = []
  priority_fee (some fee) = if ltb 0 fee then set_compute_unit_price fee ∷ [] else []

  unfoldable pub compose_message : ComposeParams → TransactionMessage
  compose_message params = record {
    fee_payer = params.fee_payer;
    lifetime = params.blockhash;
    instructions =
        (set_compute_unit_limit (units params.compute_units params.defi_instructions)
          ∷ priority_fee params.priority_fee_micro_lamports)
        ++ (params.validate_ix ∷ params.defi_instructions ++ (params.finalize_ix ∷ []));
    lookup_tables = params.address_lookup_tables;
  }

-- `b64[i] === "="`.
abbrev pub is_padding : String → ℕ → Bool
is_padding text i = str_eq (slice text i (i + 1)) "="

-- (The length of a base64 text is a multiple of 4.)
unfoldable pub base64_byte_length : String → ℕ
base64_byte_length text =
    let n = len text in
    n / 4 * 3
    - ((if ltb 0 n && is_padding text (n - 1) then 1 else 0)
        + (if ltb 1 n && is_padding text (n - 2) then 1 else 0))

-- measureTransactionSize: the size, and whether it is within the limit.
unfoldable pub measure_size : String → ℕ × Bool
unfolding base64_byte_length
measure_size wire = (base64_byte_length wire, leb (base64_byte_length wire) max_tx_size)

-- validateTransactionSize.
unfoldable pub validate_size : String → Result SealError String
unfolding base64_byte_length
validate_size wire =
    if ltb max_tx_size (base64_byte_length wire)
    then err (tx_too_large (base64_byte_length wire))
    else ok wire
