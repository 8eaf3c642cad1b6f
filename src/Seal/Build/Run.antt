-- ===== src/Seal/Build/Run.antt =====
-- sdk/kit/src/seal.ts, seal(): the transaction of step 10, and the steps together.
use phalnx.Base.{
  ℕ, List, [], ◌∷◌, ◌++◌, Option, none, some, String, str_eq, Result, ok, err, ◌>>=◌, Task, pure,
  lift, ◌>=>◌, if◌then◌else◌, ltb, add,
}
use phalnx.Network.{Network}
use phalnx.Budget.Resolve.{token_balance}
use phalnx.Seal.{VaultState, Blockhash, LookupTables, SealError, tx_too_large}
use phalnx.Seal.Hooks.{invoke_before_sign}
use phalnx.Seal.Gates.{find_agent, Checked}
use phalnx.Seal.Composer.{TransactionMessage, compose_message, measure_size}
use phalnx.Seal.Lookup.{
  get_sigil_alt_address, expected_alt_contents, merge_alt_addresses, verify_sigil_alt,
}
use phalnx.Seal.Build.{Services, SealParams, SealResult, Warning, balance_unavailable, Prepared}
use phalnx.Seal.Build.Steps.{
  usdc_mint, usdt_mint, context, before_build, resolve_state, check_plugins, check_params, prepare,
  validate_ix, finalize_ix,
}

module _ {World Transaction : Type 0} (s : Services World Transaction) where
  abbrev pub given_or : Option Blockhash → Task World SealError Blockhash
  given_or (some blockhash) = pure blockhash
  given_or none = s.latest_blockhash

  -- Once more after a table that does not verify, without the cached ones.
  abbrev verified :
      Network → String → List String → LookupTables × World → Result SealError LookupTables × World
  verified network sigil_alt alts (tables, w) =
      elim (verify_sigil_alt tables sigil_alt (expected_alt_contents network)) [
        | ok done ↦ (ok tables, w)
        | err mismatch ↦
            let (again, w1) = s.resolve_tables alts (s.invalidate_tables w) in
            (verify_sigil_alt again sigil_alt (expected_alt_contents network) >>= λ _. ok again, w1)
      ]

  -- The lookup tables of step 10, where the caller gives none.
  unfoldable pub resolve_lookup_tables :
      Network → Option (List String) → Task World SealError LookupTables
  resolve_lookup_tables network protocol_alts w = elim (get_sigil_alt_address network) [
    | err e ↦ (err e, w)
    | ok sigil_alt ↦
        let alts = merge_alt_addresses sigil_alt protocol_alts in
        verified network sigil_alt alts (s.resolve_tables alts w)
  ]

  abbrev pub tables_or :
      Option LookupTables → Network → Option (List String) → Task World SealError LookupTables
  tables_or (some tables) network protocol_alts = pure tables
  tables_or none network protocol_alts = resolve_lookup_tables network protocol_alts

  -- DRAIN_DETECTION_MIN_BALANCE.
  abbrev min_balance : ℕ
  min_balance = 1

  abbrev balance_answer : Result String (Option (List ℕ)) × World → (ℕ × List Warning) × World
  balance_answer (ok data', w) = ((token_balance data', []), w)
  balance_answer (err message, w) = ((min_balance, balance_unavailable ∷ []), w)

  -- The balance for the drain detection: that of a stablecoin is in the state.
  unfoldable pub drain_balance :
      SealParams World Transaction → VaultState → Prepared → World → (ℕ × List Warning) × World
  drain_balance p state prepared w =
      if str_eq p.token_mint (usdc_mint p.network)
      then ((state.usdc, []), w)
      else if str_eq p.token_mint (usdt_mint p.network)
      then ((state.usdt, []), w)
      else balance_answer (s.account_data prepared.vault_token_account w)

  abbrev recipients : List String → Option String → List String
  recipients known none = known
  recipients known (some account) = add known account

  -- The message of the transaction.
  unfoldable pub message_of :
      SealParams World Transaction
      → VaultState
      → Checked
      → Prepared
      → Blockhash
      → LookupTables
      → TransactionMessage
  message_of p state c prepared blockhash tables =
      compose_message s.set_compute_unit_limit s.set_compute_unit_price record {
        fee_payer = p.agent;
        validate_ix = validate_ix s p state c prepared;
        defi_instructions = prepared.instructions;
        finalize_ix = finalize_ix s p prepared;
        blockhash = blockhash;
        compute_units = p.compute_units;
        priority_fee_micro_lamports = p.priority_fee_micro_lamports;
        address_lookup_tables = tables;
      }

  -- The size check, the balance, and the hook before the signature.
  unfoldable pub finish :
      SealParams World Transaction
      → VaultState
      → Checked
      → Prepared
      → Blockhash
      → LookupTables
      → Task World SealError (SealResult Transaction)
  unfolding drain_balance
  finish p state c prepared blockhash tables w =
      let transaction = s.compile (message_of p state c prepared blockhash tables) in
      let (size, within) = measure_size (s.wire transaction) in
      let ((balance, warnings), w1) = drain_balance p state prepared w in
      let w2 = invoke_before_sign p.hooks (context s p) transaction w1 in
      if within
      then (
        ok record {
          transaction = transaction;
          is_spending = ltb 0 c.amount;
          warnings = prepared.warnings ++ warnings;
          tx_size_bytes = size;
          last_valid_block_height = blockhash.last_valid_block_height;
          vault_context = record {
            vault_address = p.vault;
            vault_token_ata = prepared.vault_token_account;
            token_balance = balance;
            known_recipients =
                recipients
                  (recipients (prepared.vault_token_account ∷ []) prepared.treasury_account)
                  prepared.fee_account;
          };
        },
        w2,
      )
      else (err (tx_too_large size), w)

  unfoldable pub seal : SealParams World Transaction → Task World SealError (SealResult Transaction)
  seal p = before_build s p >=> λ _. resolve_state s p >=> λ state.
      lift (find_agent p.agent state.vault) >=> λ entry. check_plugins s p state entry >=> λ _.
      lift (check_params s p state entry) >=> λ c. prepare s p state c >=> λ prepared.
      given_or p.blockhash >=> λ blockhash.
      tables_or p.address_lookup_tables p.network p.protocol_alt_addresses >=> λ tables.
      finish p state c prepared blockhash tables
