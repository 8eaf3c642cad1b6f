-- ===== src/Seal/Tests.antt =====
-- A sealed transaction, composed hooks, retries and polls on concrete worlds, and the theorems applied
-- to them. The world is a clock in milliseconds, and a transaction is its message.
use Prim.Native.String.{◌++◌ as joined}
use phalnx.Base.{
  ℕ, zero, suc, ◌+◌, ◌*◌, ◌≤◌, ◌<◌, ◌≡◌, ◌↔◌, ◌⊎◌, refl, Bool, true, false, List, [], ◌∷◌, Option,
  none, some, String, str_eq, Result, ok, err, Task, lookup, arith,
}
use phalnx.Network.{devnet}
use phalnx.X402.{pos, negsuc}
use phalnx.Seal.{
  readonly, writable, AccountMeta, Instruction, active, VaultState, SealError, SealHookContext,
  external,
}
use phalnx.Seal.Hooks.{SealHooks, invoke_before_build, compose_hooks, call_before_build}
use phalnx.Seal.Hooks.Laws.{invoke-compose_hooks}
use phalnx.Seal.Plugins.{SigilPolicyPlugin, allow}
use phalnx.Seal.Composer.{TransactionMessage}
use phalnx.Seal.Build.{Services, SealParams, SealResult, VaultContext}
use phalnx.Seal.Build.Run.{seal}
use phalnx.Seal.Build.Laws.{IsGated, seal-IsGated}
use phalnx.Seal.Genesis.{with_retry, assert_genesis_hash, expected_hash}
use phalnx.Seal.Genesis.Laws.{Answers, with_retry_iff, assert_genesis_hash-known}
use phalnx.Seal.Confirm.{ConfirmServices, SendOptions, processed, send_and_confirm}
use phalnx.Seal.Confirm.Laws.{Ended, send_and_confirm-Ended}
use phalnx.Seal.Drain.{
  BalanceDelta, DrainInput, detect_drain_attempt, detect_drain_from_seal_context, warning_of,
  block_of,
}
use phalnx.Seal.Drain.Laws.{
  raised, is_full, is_large, IsShare, vault_outflow, detect_drain_attempt_iff,
  detect_drain_from_seal_context-unseen,
}

abbrev program_ix : String → Instruction
program_ix name = record { program_address = name; accounts = none; bytes = none }

abbrev state : VaultState
state = record {
  vault = record {
    status = active;
    agents =
        record { pubkey = "agent"; capability = 2; spending_limit_usd = 0; paused = false } ∷ [];
    fee_destination = "fees";
  };
  policy = record {
    protocol_mode = 1;
    protocols = "JUP6LkbZbjS1jKKwapdHNy74zcZ3tLUZoi5QNyVTaV4" ∷ [];
    developer_fee_rate = 100;
    policy_version = some 3;
    has_constraints = true;
  };
  global_budget = record { spent_24h = 0; cap = 2000000; remaining = 2000000 };
  agent_budget = none;
  max_transaction_usd = 0;
  usdc = 5000000;
  usdt = 0;
  resolved_at_timestamp = 7;
}

abbrev services : Services ℕ TransactionMessage
services = record {
  now_ms = λ w. w;
  resolve_vault_state = λ vault agent network w. (ok state, suc w);
  account_data = λ address w. (ok none, suc w);
  latest_blockhash = λ w. (ok record { blockhash = "hash"; last_valid_block_height = 9 }, suc w);
  resolve_tables = λ alts w. ([], suc w);
  invalidate_tables = λ w. w;
  derive_ata = λ owner mint. joined owner mint;
  agent_overlay_pda = λ vault. joined vault "overlay";
  session_pda = λ vault agent mint. joined vault "session";
  constraints_pda = λ vault. joined vault "constraints";
  validate_and_authorize = λ input. program_ix "validate";
  finalize_session = λ input. program_ix "finalize";
  set_compute_unit_limit = λ units. program_ix "limit";
  set_compute_unit_price = λ fee. program_ix "price";
  compile = λ message. message;
  wire = λ transaction. "AAAA";
}

abbrev swap : Instruction
swap = record {
  program_address = "JUP6LkbZbjS1jKKwapdHNy74zcZ3tLUZoi5QNyVTaV4";
  accounts = some (
      record { address = joined "agent" "sol"; role = writable }
      ∷ record { address = "oracle"; role = readonly }
      ∷ []);
  bytes = some (1 ∷ []);
}

abbrev counting : SigilPolicyPlugin ℕ
counting = record { name = "counting"; check = λ ctx w. (ok allow, suc w) }

abbrev params : SealParams ℕ TransactionMessage
params = record {
  vault = "vault";
  agent = "agent";
  instructions = program_ix "11111111111111111111111111111111" ∷ swap ∷ [];
  network = devnet;
  token_mint = "sol";
  amount = pos 1000000;
  target_protocol = none;
  compute_units = none;
  priority_fee_micro_lamports = some 5;
  output_stablecoin_account = none;
  blockhash = none;
  protocol_alt_addresses = none;
  address_lookup_tables = none;
  cached_state = none;
  max_cache_age_ms = none;
  additional_ata_replacements = [];
  hooks = none;
  correlation_id = "id";
  plugins = counting ∷ [];
}

abbrev placeholder : SealResult TransactionMessage
placeholder = record {
  transaction = record {
    fee_payer = "";
    lifetime = record { blockhash = ""; last_valid_block_height = 0 };
    instructions = [];
    lookup_tables = [];
  };
  is_spending = false;
  warnings = [];
  tx_size_bytes = 0;
  last_valid_block_height = 0;
  vault_context = record {
    vault_address = "";
    vault_token_ata = "";
    token_balance = 0;
    known_recipients = [];
  };
}

abbrev sealed_of :
    Result SealError (SealResult TransactionMessage) × ℕ → SealResult TransactionMessage
sealed_of (err e, w) = placeholder
sealed_of (ok result, w) = result

abbrev sealed : SealResult TransactionMessage
sealed = sealed_of (seal services params 0)

seals : seal services params 0 ≡ (ok sealed, 6)
unfolding seal phalnx.Seal.Build.Steps.before_build phalnx.Seal.Hooks.invoke_before_build
    phalnx.Seal.Build.Steps.resolve_state phalnx.Seal.Gates.find_agent
    phalnx.Seal.Build.Steps.check_plugins phalnx.Seal.Plugins.run_plugins
    phalnx.Seal.Build.Steps.check_params phalnx.Seal.Gates.check_operation
    phalnx.Seal.Gates.check_amount phalnx.Seal.Gates.strip phalnx.Seal.Gates.check_token_operations
    phalnx.Seal.Gates.blocked phalnx.Seal.Gates.blocked_operation
    phalnx.Seal.Gates.is_protocol_allowed phalnx.Seal.Gates.check_spending
    phalnx.Seal.Gates.check_count phalnx.Seal.Gates.check_headroom phalnx.Seal.Gates.check_output
    phalnx.Seal.Build.Steps.prepare phalnx.Seal.Build.Steps.check_existence
    phalnx.Seal.Rewrite.ata_replacements phalnx.Seal.Rewrite.merge_replacements
    phalnx.Seal.Build.Run.resolve_lookup_tables phalnx.Seal.Lookup.get_sigil_alt_address
    phalnx.Seal.Lookup.verify_sigil_alt phalnx.Seal.Build.Run.finish
    phalnx.Seal.Composer.measure_size phalnx.Seal.Composer.base64_byte_length
    phalnx.Seal.Build.Run.drain_balance phalnx.Network.is_stablecoin_mint
    phalnx.Seal.Hooks.invoke_before_sign
seals = refl

seal-IsGated_example : IsGated services params sealed
seal-IsGated_example = seal-IsGated services params sealed 0 6 seals

abbrev hooks_with : (SealHookContext → Task ℕ String (Option String)) → SealHooks ℕ String String
hooks_with hook = record {
  on_before_build = some hook;
  on_before_sign = none;
  on_after_send = none;
  on_error = none;
  on_finalize = none;
}

abbrev hook_context : SealHookContext
hook_context = record {
  vault = "vault";
  agent = "agent";
  token_mint = "sol";
  amount = pos 1;
  network = devnet;
  correlation_id = "id";
}

-- The client's hook throws, and the hook of the call, which would abort, does not run.
abbrev throwing : SealHooks ℕ String String
throwing = hooks_with λ ctx w. (err "telemetry is down", suc w)

abbrev refusing : SealHooks ℕ String String
refusing = hooks_with λ ctx w. (ok (some "no consent"), suc w)

invoke-compose_hooks_example :
    invoke_before_build (compose_hooks (some throwing) (some refusing)) hook_context 0 ≡ (none, 1)
invoke-compose_hooks_example = invoke-compose_hooks throwing refusing hook_context 0

abbrev wait : ℕ → ℕ → ℕ
wait delay w = w + delay

abbrev genesis : Task ℕ String String
genesis w = elim (phalnx.Base.ltb w 100) [
  | true ↦ (err "no route", w)
  | false ↦ (ok (expected_hash devnet), w)
]

with_retry_iff_example :
    (with_retry wait genesis 2 0 0 ≡ (ok (expected_hash devnet), 200))
    ↔ Answers wait genesis (expected_hash devnet) 200 2 0 0
with_retry_iff_example = with_retry_iff wait genesis 2 0 0 200 (expected_hash devnet)

asserted :
    assert_genesis_hash wait genesis "rpc" devnet ([], 0)
    ≡ (ok tt, (("rpc", expected_hash devnet) ∷ [], 200))
unfolding assert_genesis_hash with_retry
asserted = refl

assert_genesis_hash-known_example :
    (((lookup {Value = String} "rpc" [] ≡ some (expected_hash devnet)) × (◌≡◌ {A = ℕ} 0 200))
      ⊎ ((lookup {Value = String} "rpc" [] ≡ none)
          × Answers wait genesis (expected_hash devnet) 200 2 0 0))
    × (lookup "rpc" (("rpc", expected_hash devnet) ∷ []) ≡ some (expected_hash devnet))
assert_genesis_hash-known_example =
    assert_genesis_hash-known wait genesis "rpc" devnet [] (("rpc", expected_hash devnet) ∷ []) 0
      200 asserted

-- A node that never knows the transaction.
abbrev silent : ConfirmServices ℕ
silent = record {
  send = λ transaction commitment w. (ok "signature", w);
  signature_status = λ signature w. (ok none, w);
  now_ms = λ w. w;
  sleep = λ delay w. w + delay + 1;
  random = λ w. 7 * w;
}

abbrev options : SendOptions
options = record { timeout_ms = some 50; poll_interval_ms = some 10; commitment = some processed }

silent-ticks : (delay w : ℕ) → w < w + delay + 1
silent-ticks delay w = omega arith

silent-forward : (signature : String) (w : ℕ) → w ≤ w
silent-forward signature w = omega arith

send_and_confirm-Ended_example : Ended silent (send_and_confirm silent "wire" options 5)
send_and_confirm-Ended_example =
    send_and_confirm-Ended silent silent-ticks silent-forward "wire" options 5

abbrev draining : List BalanceDelta
draining =
    record { account = "thief"; delta = pos 99 }
    ∷ record { account = "ata"; delta = negsuc 98 }
    ∷ []

abbrev drain_input : DrainInput
drain_input = record {
  balance_deltas = draining;
  vault_address = "ata";
  total_vault_balance = 100;
  known_recipients = none;
}

detect_drain_attempt_iff_example :
    ((raised is_full (detect_drain_attempt drain_input none) ≡ true)
      ↔ IsShare (vault_outflow drain_input) 100 (block_of none))
    × ((raised is_large (detect_drain_attempt drain_input none) ≡ true)
        ↔ IsShare (vault_outflow drain_input) 100 (warning_of none))
detect_drain_attempt_iff_example = detect_drain_attempt_iff drain_input none

-- 99 of the 100 tokens leave the vault's token account.
abbrev seal_context : VaultContext
seal_context = record {
  vault_address = "vault";
  vault_token_ata = "ata";
  token_balance = 100;
  known_recipients = "ata" ∷ [];
}

detect_drain_from_seal_context-unseen_example :
    (raised is_full (detect_drain_from_seal_context draining seal_context none) ≡ false)
    × (raised is_large (detect_drain_from_seal_context draining seal_context none) ≡ false)
detect_drain_from_seal_context-unseen_example =
    detect_drain_from_seal_context-unseen draining seal_context none (refl, (refl, tt))
