-- ===== src/Seal/Build/Laws.antt =====
-- What a sealed transaction went through, and what it holds.
use phalnx.Base.{
  ◌≤◌, ◌≡◌, sym, ap, ◌∙◌, false, Option, none, some, String, str_eq, eq_iff, ok, >=>-eq-ok,
  lift-eq-ok, if-eq-ok, leb→le, ltb, leb, In, find_by, find_by-eq-some, arith,
}
use phalnx.Network.{is_stablecoin_mint}
use phalnx.Budget.{AgentEntry}
use phalnx.Seal.{active, Vault, VaultState, Blockhash, LookupTables}
use phalnx.Seal.Plugins.Laws.{Allowed, run_plugins_iff}
use phalnx.Seal.Gates.{find_agent, registered, Checked}
use phalnx.Seal.Gates.Laws.{IsChecked, check_operation_iff}
use phalnx.Seal.Composer.{measure_size, base64_byte_length, max_tx_size}
use phalnx.Seal.Build.{Services, SealParams, SealResult, Prepared}
use phalnx.Seal.Build.Steps.{
  usdc_mint, plugin_context, before_build, resolve_state, check_plugins, check_params, prepare,
}
use phalnx.Seal.Build.Current.{IsCurrent, resolved-IsCurrent}
use phalnx.Seal.Build.Run.{given_or, tables_or, message_of, finish, seal}

-- An agent that may act: its entry in the vault, which is active, is not paused.
abbrev pub MayAct : String → Vault → AgentEntry → Type 0
MayAct agent vault entry =
    (vault.status ≡ active)
    × In entry vault.agents
    × (entry.pubkey ≡ agent)
    × (entry.paused ≡ false)

registered-eq-ok :
    (o : Option AgentEntry) (entry : AgentEntry)
    → registered o ≡ ok entry
    → (o ≡ some entry) × (entry.paused ≡ false)
registered-eq-ok none entry h = cc
registered-eq-ok (some e) entry h =
    let calm : e.paused ≡ false = ground (arith, h) in
    let same : e ≡ entry = ground (arith, h) in
    (ap (λ x. some x) same, ap (λ x. x.paused) (sym same) ∙ calm)

find_agent-found :
    (agent : String) (vault : Vault) (entry : AgentEntry)
    → find_agent agent vault ≡ ok entry
    → (vault.status ≡ active)
      × (registered (find_by (λ e. str_eq e.pubkey agent) vault.agents) ≡ ok entry)
unfolding find_agent
find_agent-found agent vault entry h = ground (arith, h)

find_agent-MayAct :
    (agent : String) (vault : Vault) (entry : AgentEntry)
    → find_agent agent vault ≡ ok entry
    → MayAct agent vault entry
find_agent-MayAct agent vault entry h =
    let (is_active, present) = find_agent-found agent vault entry h in
    let (o, calm) = registered-eq-ok _ entry present in
    let (inside, key) = find_by-eq-some (λ e. str_eq e.pubkey agent) vault.agents entry o in
    (is_active, inside, (eq_iff entry.pubkey agent).0 key, calm)

module _ {World Transaction : Type 0} (s : Services World Transaction)
    (p : SealParams World Transaction) where
  -- The answers of the steps of a call that succeeds, with the worlds between them.
  pub record Steps (result : SealResult Transaction) (w w' : World) : Type 0 where
    pub state : VaultState
    pub entry : AgentEntry
    pub checked : Checked
    pub prepared : Prepared
    pub blockhash : Blockhash
    pub tables : LookupTables
    pub w1 : World
    pub w2 : World
    pub w3 : World
    pub w4 : World
    pub w5 : World
    pub w6 : World
    pub not_aborted : before_build s p w ≡ (ok tt, w1)
    pub resolved : resolve_state s p w1 ≡ (ok state, w2)
    pub registered : find_agent p.agent state.vault ≡ ok entry
    pub plugged : check_plugins s p state entry w2 ≡ (ok tt, w3)
    pub passed : check_params s p state entry ≡ ok checked
    pub derived : prepare s p state checked w3 ≡ (ok prepared, w4)
    pub dated : given_or s p.blockhash w4 ≡ (ok blockhash, w5)
    pub looked_up :
        tables_or s p.address_lookup_tables p.network p.protocol_alt_addresses w5 ≡ (ok tables, w6)
    pub finished : finish s p state checked prepared blockhash tables w6 ≡ (ok result, w')

  pub seal-inverted :
      (result : SealResult Transaction) (w w' : World)
      → seal s p w ≡ (ok result, w')
      → Steps result w w'
  unfolding seal
  seal-inverted result w w' h =
      let (_, w1, h1, r1) = >=>-eq-ok (before_build s p) _ h in
      let (state, w2, h2, r2) = >=>-eq-ok (resolve_state s p) _ r1 in
      let (entry, h3, r3) = lift-eq-ok (find_agent p.agent state.vault) _ r2 in
      let (_, w3, h4, r4) = >=>-eq-ok (check_plugins s p state entry) _ r3 in
      let (c, h5, r5) = lift-eq-ok (check_params s p state entry) _ r4 in
      let (prepared, w4, h6, r6) = >=>-eq-ok (prepare s p state c) _ r5 in
      let (blockhash, w5, h7, r7) = >=>-eq-ok (given_or s p.blockhash) _ r6 in
      let (tables, w6, h8, r8) =
        >=>-eq-ok (tables_or s p.address_lookup_tables p.network p.protocol_alt_addresses) _ r7 in
      record {
        state = state;
        entry = entry;
        checked = c;
        prepared = prepared;
        blockhash = blockhash;
        tables = tables;
        w1 = w1;
        w2 = w2;
        w3 = w3;
        w4 = w4;
        w5 = w5;
        w6 = w6;
        not_aborted = h1;
        resolved = h2;
        registered = h3;
        plugged = h4;
        passed = h5;
        derived = h6;
        dated = h7;
        looked_up = h8;
        finished = r8;
      }

  plugins-Allowed :
      (state : VaultState) (entry : AgentEntry) (w w' : World)
      → check_plugins s p state entry w ≡ (ok tt, w')
      → Allowed (plugin_context s p state entry) p.plugins w w'
  unfolding check_plugins
  plugins-Allowed state entry w w' h =
      (run_plugins_iff (plugin_context s p state entry) p.plugins w w').0 h

  pub params-IsChecked :
      (state : VaultState) (entry : AgentEntry) (c : Checked)
      → check_params s p state entry ≡ ok c
      → IsChecked p.instructions p.target_protocol
          (is_stablecoin_mint p.token_mint p.network)
          p.output_stablecoin_account
          (s.derive_ata p.vault (usdc_mint p.network))
          entry
          state
          p.amount
          c
  unfolding check_params
  params-IsChecked state entry c h =
      (check_operation_iff p.instructions p.target_protocol
          (is_stablecoin_mint p.token_mint p.network) p.output_stablecoin_account
          (s.derive_ata p.vault (usdc_mint p.network)) entry state p.amount c).0
        h

  pub finish-answer :
      (state : VaultState) (c : Checked) (prepared : Prepared) (blockhash : Blockhash)
      (tables : LookupTables) (result : SealResult Transaction) (w w' : World)
      → finish s p state c prepared blockhash tables w ≡ (ok result, w')
      → (result.transaction ≡ s.compile (message_of s p state c prepared blockhash tables))
        × (result.is_spending ≡ ltb 0 c.amount)
        × (result.tx_size_bytes ≡ base64_byte_length (s.wire result.transaction))
        × (result.tx_size_bytes ≤ 1232)
  unfolding finish measure_size
  finish-answer state c prepared blockhash tables result w w' h =
      let (within, same) =
        if-eq-ok
          (leb
            (base64_byte_length
              (s.wire (s.compile (message_of s p state c prepared blockhash tables))))
            max_tx_size)
          _ result _ _ w w' h in
      (
        ap (λ r. r.transaction) (sym same),
        ap (λ r. r.is_spending) (sym same),
        ap (λ r. r.tx_size_bytes) (sym same)
            ∙ ap (λ r. base64_byte_length (s.wire r.transaction)) same,
        rw (ap (λ r. r.tx_size_bytes) (sym same)) (leb→le _ _ within),
      )

  -- What stands behind a transaction: the agent may act in a current state of the vault, the plugins
  -- allowed the operation with that state, and it passes the checks.
  abbrev pub IsGated : SealResult Transaction → Type 0
  IsGated result =
      (state : VaultState) × (entry : AgentEntry) × (checked : Checked) × (worlds : World × World
        × World)
      × IsCurrent s p state worlds.0 worlds.1
      × MayAct p.agent state.vault entry
      × Allowed (plugin_context s p state entry) p.plugins worlds.1 worlds.2
      × IsChecked p.instructions p.target_protocol (is_stablecoin_mint p.token_mint p.network)
          p.output_stablecoin_account (s.derive_ata p.vault (usdc_mint p.network)) entry state
          p.amount checked
      × (result.is_spending ≡ ltb 0 checked.amount)
      × (result.tx_size_bytes ≡ base64_byte_length (s.wire result.transaction))
      × (result.tx_size_bytes ≤ 1232)

  -- What seal() answers is a transaction whose wire format has at most 1232 bytes, with these behind
  -- it: a state of the vault, which the node answered or the caller cached and which is then no older
  -- than the maximal age, of 30 seconds if none is given; a vault that is active and has the agent,
  -- not paused; plugins that each allowed the operation; an operation that passes all checks on the
  -- amount, the instructions, the protocol, the capability, and, if it spends, the count, the fees
  -- and the output.
  pub seal-IsGated :
      (result : SealResult Transaction) (w w' : World)
      → seal s p w ≡ (ok result, w')
      → IsGated result
  seal-IsGated result w w' h =
      let st = seal-inverted result w w' h in
      let (_, spending, measured, size) =
        finish-answer st.state st.checked st.prepared st.blockhash st.tables result st.w6 w'
          st.finished in
      (
        st.state,
        st.entry,
        st.checked,
        (st.w1, st.w2, st.w3),
        resolved-IsCurrent s p st.state st.w1 st.w2 st.resolved,
        find_agent-MayAct p.agent st.state.vault st.entry st.registered,
        plugins-Allowed st.state st.entry st.w2 st.w3 st.plugged,
        params-IsChecked st.state st.entry st.checked st.passed,
        spending,
        measured,
        size,
      )
