-- ===== src/Shield/Signer/Tests.antt =====
-- A compiled transaction with two lookup tables, through the signer.
use phalnx.Base.{
  ℕ, ◌+◌, ◌≡◌, refl, Bool, true, false, List, [], ◌∷◌, Option, none, some, String, str_eq, ok, All,
  if◌then◌else◌,
}
use phalnx.Policies.{resolve_policies}
use phalnx.Shield.State.{initial, get_spend_in_window, get_transaction_count_in_window}
use phalnx.Shield.Context.{Context}
use phalnx.Shield.Compiled.{
  CompiledInstruction, CompiledMessage, AddressTableLookup, account_table, account_at,
  extract_instructions,
}
use phalnx.Shield.Compiled.Laws.{index_count, account_table-writable, account_table-readonly}
use phalnx.Shield.Signer.{
  ShieldedSignerOptions, hard, is_bound, matches_discriminator, check_transactions,
  sigil_program_address, validate_and_authorize_discriminator, finalize_session_discriminator,
}
use phalnx.Shield.Signer.Session.{IsBound, check_transactions-IsBound}

abbrev first_table : AddressTableLookup
first_table = record {
  lookup_table_address = "table1";
  writable_indexes = 1 ∷ [];
  readonly_indexes = 0 ∷ [];
}

abbrev second_table : AddressTableLookup
second_table = record {
  lookup_table_address = "table2";
  writable_indexes = 0 ∷ 2 ∷ [];
  readonly_indexes = 1 ∷ [];
}

abbrev tables : String → Option (List String)
tables alt =
    if str_eq alt "table1"
    then some ("a0" ∷ "a1" ∷ [])
    else if str_eq alt "table2"
    then some ("b0" ∷ "b1" ∷ "b2" ∷ [])
    else none

abbrev session_call : ℕ → List ℕ → CompiledInstruction
session_call index bytes = record {
  program_address_index = index;
  account_indices = 2 ∷ 3 ∷ [];
  bytes = bytes;
}

-- Validate, an instruction of another program, finalize.
abbrev message : CompiledMessage
message = record {
  static_accounts = "agent" ∷ sigil_program_address ∷ "11111111111111111111111111111111" ∷ [];
  instructions =
      session_call 1 validate_and_authorize_discriminator
      ∷ session_call 2 (2 ∷ [])
      ∷ session_call 1 finalize_session_discriminator
      ∷ [];
  address_table_lookups = first_table ∷ second_table ∷ [];
}

account_table-writable_example :
    account_at
      (account_table (some tables) message)
      (3 + (index_count (λ m. m.writable_indexes) tables (first_table ∷ []) + 1))
    ≡ "b2"
account_table-writable_example =
    account_table-writable tables message (first_table ∷ []) [] second_table
      ("b0" ∷ "b1" ∷ "b2" ∷ []) 1 2 "b2" refl (refl, tt) refl refl refl

account_table-readonly_example :
    account_at (account_table (some tables) message) (
      3
      + (index_count (λ m. m.writable_indexes) tables (first_table ∷ second_table ∷ [])
          + (index_count (λ m. m.readonly_indexes) tables (first_table ∷ []) + 0)))
    ≡ "b1"
account_table-readonly_example =
    account_table-readonly tables message (first_table ∷ []) [] second_table
      ("b0" ∷ "b1" ∷ "b2" ∷ []) 0 1 "b1" refl (refl, (refl, tt)) refl refl refl

abbrev options : ShieldedSignerOptions
options = record {
  velocity_thresholds = none;
  simulates = true;
  session_context = true;
  session_binding_severity = hard;
}

abbrev simulation_succeeds : Option CompiledMessage → Bool
simulation_succeeds msg = true

abbrev context : Context
context = record {
  resolved = resolve_policies none;
  state = initial;
  is_paused = false;
  sync_network = none;
}

abbrev messages : List (Option CompiledMessage)
messages = some message ∷ some message ∷ []

passes :
    (check_transactions (some tables) simulation_succeeds options "agent" 1000 messages context).0
    ≡ ok tt
unfolding check_transactions phalnx.Shield.Context.check phalnx.Shield.Context.evaluate
    phalnx.Shield.Evaluate.evaluate_instructions phalnx.Shield.Evaluate.violations_of
    phalnx.Shield.Evaluate.check_programs resolve_policies phalnx.Core.Policies.resolve_policies
    phalnx.Shield.Evaluate.check_spend_limits phalnx.Shield.Evaluate.check_spend_limit
    get_spend_in_window initial phalnx.Shield.Evaluate.tx_spend
    phalnx.Inspector.analyze_instructions extract_instructions
    phalnx.Shield.Evaluate.check_rate_limit get_transaction_count_in_window
    phalnx.Shield.Evaluate.check_custom phalnx.Core.Policies.default_max_spend
    phalnx.Core.Policies.default_rate_limit phalnx.Shield.Evaluate.check_on_chain
    phalnx.Shield.Signer.check_session_binding is_bound matches_discriminator
    phalnx.Shield.State.record_transaction phalnx.Shield.State.prune
    phalnx.Shield.Context.record_analysis phalnx.Shield.Context.record_outgoing
    phalnx.Shield.Signer.check_transaction phalnx.Shield.Signer.record_signed
passes = refl

check_transactions-IsBound_example : All IsBound messages
check_transactions-IsBound_example =
    check_transactions-IsBound (some tables) simulation_succeeds options "agent" 1000 messages
      context refl refl passes
