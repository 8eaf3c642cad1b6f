-- ===== src/Budget/Resolve/Single.antt =====
-- resolveVaultBudget against resolveVaultState.
use phalnx.Base.{
  ℕ, ◌≡◌, ◌≢◌, refl, ◌∙◌, List, [], ◌∷◌, Option, none, some, String, str_eq, eq_iff, ok, ◌>>=◌, All,
  find_by, insert, arith, inl, inr, Bool-cases,
}
use phalnx.Budget.{AgentEntry, EffectiveBudget, AgentSpendOverlay}
use phalnx.Budget.Resolve.{
  Fetched, agent_budget_of, agent_budgets, add_agent, AgentBudgets, resolve_vault_state,
  resolve_vault_budget, single_budget,
}

-- No two agents share a key.
abbrev pub IsKeyed : List AgentEntry → Type 0
IsKeyed [] = Unit
IsKeyed (a ∷ as') = All (λ b. b.pubkey ≢ a.pubkey) as' × IsKeyed as'

module _ (encode : String → List ℕ) (overlay : Option AgentSpendOverlay) (agent : String)
    (now : ℕ) where
  -- Entries of other agents leave the agent's budget alone.
  agent_budgets_other :
      (entries : List AgentEntry) (acc : AgentBudgets)
      → All (λ b. b.pubkey ≢ agent) entries
      → (agent_budgets encode overlay agent now entries acc).0 ≡ acc.0
  unfolding agent_budgets add_agent
  agent_budgets_other [] acc h = refl
  agent_budgets_other (e ∷ es) (mine, all_budgets) (differs, h) =
      agent_budgets_other es (add_agent encode overlay agent now e (mine, all_budgets)) h
      ∙ ground (arith, (eq_iff e.pubkey agent).0)

  agent_budgets-single :
      (entries : List AgentEntry) (all_budgets : List (String × EffectiveBudget))
      → IsKeyed entries
      → (agent_budgets encode overlay agent now entries (none, all_budgets)).0
        ≡ single_budget encode overlay agent now (find_by (λ a. str_eq a.pubkey agent) entries)
  unfolding agent_budgets add_agent single_budget
  agent_budgets-single [] all_budgets h = refl
  agent_budgets-single (e ∷ es) all_budgets (others, h) =
      let b = agent_budget_of encode overlay e.pubkey e.spending_limit_usd now in
      elim (Bool-cases (str_eq e.pubkey agent)) [
        | inl same ↦
            let e_agent : e.pubkey ≡ agent = (eq_iff e.pubkey agent).0 same in
            agent_budgets_other es (add_agent encode overlay agent now e (none, all_budgets))
              (rw e_agent at others)
            ∙ ground (arith, e_agent)
        | inr other ↦ ground (
          arith,
          agent_budgets-single es all_budgets h,
          agent_budgets-single es (insert e.pubkey b all_budgets) h,
        )
      ]

-- With no two agents of the same key, the cheaper resolver returns the global and the agent's
-- budget of the full one, and fails where that fails.
pub resolve_vault_budget-eq :
    (encode : String → List ℕ) (fetched : Fetched) (agent : String) (now : ℕ)
    (agents : List AgentEntry)
    → fetched.vault ≡ some agents
    → IsKeyed agents
    → resolve_vault_budget encode fetched agent now ≡ (
        resolve_vault_state encode fetched agent now >>= λ s.
        ok (record { global_budget = s.global_budget; agent_budget = s.agent_budget }))
unfolding resolve_vault_budget resolve_vault_state
resolve_vault_budget-eq encode fetched agent now agents found keyed =
    ground (arith, agent_budgets-single encode fetched.overlay agent now agents [] keyed)
