-- ===== src/Budget/Resolve/Laws.antt =====
-- The budgets that resolveVaultState computes, and those of resolveVaultBudget.
use phalnx.Base.{
  ℕ, ◌-◌, ◌≡◌, refl, List, [], ◌∷◌, Option, none, String, ok, All, lookup, insert, arith, inl, inr,
  Option-cases, lookup-insert,
}
use phalnx.Budget.{AgentEntry, EffectiveBudget, AgentSpendOverlay}
use phalnx.Budget.Resolve.{
  Fetched, ResolvedVaultState, agent_budget_of, agent_budgets, add_agent, AgentBudgets,
  resolve_vault_state,
}

-- What is left is the cap less what was spent, and 0 once the cap is reached.
abbrev pub IsBudget : EffectiveBudget → Type 0
IsBudget b = b.remaining ≡ b.cap - b.spent_24h

module _ (encode : String → List ℕ) where
  agent_budget_of-IsBudget :
      (overlay : Option AgentSpendOverlay) (agent : String) (cap now : ℕ)
      → IsBudget (agent_budget_of encode overlay agent cap now)
  unfolding agent_budget_of
  agent_budget_of-IsBudget overlay agent cap now = ground arith

  -- The loop's invariant: the agent's budget is the one that the map holds, and all are budgets.
  abbrev IsGood : String → AgentBudgets → Type 0
  IsGood agent acc = (acc.0 ≡ lookup agent acc.1) × All (λ b. IsBudget b.1) acc.1

  insert-All :
      (k : String) (b : EffectiveBudget) (m : List (String × EffectiveBudget))
      → IsBudget b
      → All (λ e. IsBudget e.1) m
      → All (λ e. IsBudget e.1) (insert k b m)
  insert-All k b [] h all = (h, tt)
  insert-All k b ((j, c) ∷ m) h (here, rest) = ground (arith, insert-All k b m h rest)

  add_agent-IsGood :
      (overlay : Option AgentSpendOverlay) (agent : String) (now : ℕ) (e : AgentEntry)
      (acc : AgentBudgets)
      → IsGood agent acc
      → IsGood agent (add_agent encode overlay agent now e acc)
  unfolding add_agent
  add_agent-IsGood overlay agent now e (mine, all_budgets) (h, all) =
      let b = agent_budget_of encode overlay e.pubkey e.spending_limit_usd now in
      ground (
        arith,
        lookup-insert e.pubkey agent b all_budgets,
        insert-All e.pubkey b all_budgets
            (agent_budget_of-IsBudget overlay e.pubkey e.spending_limit_usd now) all,
      )

  agent_budgets-IsGood :
      (overlay : Option AgentSpendOverlay) (agent : String) (now : ℕ) (entries : List AgentEntry)
      (acc : AgentBudgets)
      → IsGood agent acc
      → IsGood agent (agent_budgets encode overlay agent now entries acc)
  unfolding agent_budgets
  agent_budgets-IsGood overlay agent now [] acc h = h
  agent_budgets-IsGood overlay agent now (e ∷ es) acc h =
      agent_budgets-IsGood overlay agent now es (add_agent encode overlay agent now e acc)
        (add_agent-IsGood overlay agent now e acc h)

-- Where the full resolver succeeds, the agent's own budget is the entry of the map of all agents'
-- budgets, and the global budget and every budget of the map leave the cap less what was spent.
pub resolve_vault_state_agent :
    (encode : String → List ℕ) (fetched : Fetched) (agent : String) (now : ℕ)
    {s : ResolvedVaultState}
    → resolve_vault_state encode fetched agent now ≡ ok s
    → (s.agent_budget ≡ lookup agent s.all_agent_budgets)
      × IsBudget s.global_budget
      × All (λ b. IsBudget b.1) s.all_agent_budgets
unfolding resolve_vault_state
resolve_vault_state_agent encode fetched agent now {s} e = elim (Option-cases fetched.vault) [
  | inl missing ↦ ground arith
  | inr (agents, found) ↦
      let good =
        agent_budgets-IsGood encode fetched.overlay agent now agents (none, []) (refl, tt) in
      ground (arith, good)
]
