-- ===== src/Core/Engine/Laws.antt =====
-- The engine keeps the spending caps and the rate limit.
use phalnx.Base.{
  ℕ, ◌+◌, ◌≤◌, ◌<◌, ◌≡◌, refl, ◌∙◌, ◌==◌, List, [], ◌∷◌, if◌then◌else◌, sum_by, All, Option, none,
  some, ok, arith, inl, inr, Bool-cases, append-eq-nil,
}
use phalnx.Core.Policies.{
  SpendLimit, TokenTransfer, TransactionAnalysis, ResolvedPolicies, RateLimit,
}
use phalnx.Core.State.{
  ShieldState, get_spend_in_window, get_transaction_count_in_window, record_spend,
  record_transaction,
}
use phalnx.Core.State.Laws.{
  get_spend_in_window-record_spend-le, get_transaction_count-record_transaction-le,
}
use phalnx.Core.Engine.{
  evaluate_policy, enforce_policy, check_programs, record_analysis, record_transfers,
  check_spending_caps, check_spending_cap, check_rate_limit, check_transaction_size, spend_of,
  window_of, is_outgoing, mint_key,
}

module _ (limit : SpendLimit) (now : ℕ) where
  spent : ShieldState → ℕ
  spent s = get_spend_in_window limit.mint (window_of limit) now s

  record_transfers-le :
      (ts : List TokenTransfer) (s : ShieldState)
      → spent (record_transfers now ts s) ≤ spent s + sum_by (spend_of limit.mint) ts
  unfolding record_transfers spent
  record_transfers-le [] s = omega arith
  record_transfers-le (t ∷ ts) s = elim (Bool-cases (is_outgoing t.direction)) [
    | inl out ↦ ground (
      arith,
      out,
      record_transfers-le ts (record_spend (mint_key t.mint) t.amount now s),
      get_spend_in_window-record_spend-le (mint_key t.mint) limit.mint t.amount now now
          (window_of limit) s,
    )
    | inr other ↦ ground (arith, other, record_transfers-le ts s)
  ]

  cap_kept :
      (ts : List TokenTransfer) (s : ShieldState)
      → check_spending_cap ts s now limit ≡ []
      → spent s ≤ limit.amount
      → spent (record_transfers now ts s) ≤ limit.amount
  unfolding check_spending_cap spent
  cap_kept ts s h before = ground (arith, record_transfers-le ts s)

caps_kept :
    (limits : List SpendLimit) (now : ℕ) (ts : List TokenTransfer) (s : ShieldState)
    → check_spending_caps ts s now limits ≡ []
    → All (λ l. get_spend_in_window l.mint (window_of l) now s ≤ l.amount) limits
    → All
        (λ l. get_spend_in_window l.mint (window_of l) now (record_transfers now ts s) ≤ l.amount)
        limits
unfolding check_spending_caps spent
caps_kept [] now ts s h before = tt
caps_kept (l ∷ limits) now ts s h (b, bs) =
    let (here, rest) = append-eq-nil (check_spending_cap ts s now l) _ h in
    (cap_kept l now ts s here b, caps_kept limits now ts s rest bs)

-- Counting the transaction leaves the spends alone.
caps_after_count :
    (limits : List SpendLimit) (now : ℕ) (s : ShieldState)
    → All (λ l. get_spend_in_window l.mint (window_of l) now s ≤ l.amount) limits
    → All
        (λ l. get_spend_in_window l.mint (window_of l) now (record_transaction now s) ≤ l.amount)
        limits
unfolding get_spend_in_window record_transaction
caps_after_count [] now s h = tt
caps_after_count (l ∷ limits) now s (h, hs) = (h, caps_after_count limits now s hs)

count_of_spend :
    (window_ms now : ℕ) (t : TokenTransfer) (s : ShieldState)
    → get_transaction_count_in_window window_ms now
        (if is_outgoing t.direction then record_spend (mint_key t.mint) t.amount now s else s)
      ≡ get_transaction_count_in_window window_ms now s
unfolding get_transaction_count_in_window record_spend
count_of_spend window_ms now t s = elim (Bool-cases (is_outgoing t.direction)) [
  | inl out ↦ rw out refl
  | inr other ↦ rw other refl
]

count_of_transfers :
    (window_ms now : ℕ) (ts : List TokenTransfer) (s : ShieldState)
    → get_transaction_count_in_window window_ms now (record_transfers now ts s)
      ≡ get_transaction_count_in_window window_ms now s
unfolding record_transfers
count_of_transfers window_ms now [] s = refl
count_of_transfers window_ms now (t ∷ ts) s =
    count_of_transfers window_ms now ts
      (if is_outgoing t.direction then record_spend (mint_key t.mint) t.amount now s else s)
    ∙ count_of_spend window_ms now t s

rate_room :
    (r : RateLimit) (s : ShieldState) (now : ℕ)
    → check_rate_limit r s now ≡ []
    → get_transaction_count_in_window r.window_ms now s < r.max_transactions
unfolding check_rate_limit
rate_room r s now h = ground arith

-- The size limit: the value itself where none is set.
abbrev pub size_bound : Option ℕ → ℕ → ℕ
size_bound none value = value
size_bound (some size) value = if size == 0 then value else size

size_kept :
    (value : ℕ) (size : Option ℕ)
    → check_transaction_size value size ≡ []
    → value ≤ size_bound size value
unfolding check_transaction_size
size_kept value none h = omega arith
size_kept value (some size) h = ground arith

enforce_policy-eq-ok :
    (analysis : TransactionAnalysis) (policies : ResolvedPolicies) (state : ShieldState) (now : ℕ)
    → enforce_policy analysis policies state now ≡ ok tt
    → evaluate_policy analysis policies state now ≡ []
unfolding enforce_policy
enforce_policy-eq-ok analysis policies state now e = ground arith

-- A transaction that the engine lets through and records leaves every spending cap kept that was
-- kept before, the number of transactions in the rate window within its limit, and, where a size
-- limit other than 0 is set, has no greater value.
pub enforce_policy-record_analysis :
    (analysis : TransactionAnalysis) (policies : ResolvedPolicies) (state : ShieldState) (now : ℕ)
    → enforce_policy analysis policies state now ≡ ok tt
    → All (λ l. get_spend_in_window l.mint (window_of l) now state ≤ l.amount) policies.spend_limits
    → All
        (λ l.
          get_spend_in_window l.mint (window_of l) now (record_analysis analysis now state)
          ≤ l.amount)
        policies.spend_limits
      × (get_transaction_count_in_window policies.rate_limit.window_ms now
            (record_analysis analysis now state)
          ≤ policies.rate_limit.max_transactions)
      × (analysis.estimated_value_lamports
          ≤ size_bound policies.max_transaction_size analysis.estimated_value_lamports)
unfolding evaluate_policy record_analysis
enforce_policy-record_analysis analysis policies state now e before =
    let silent = enforce_policy-eq-ok analysis policies state now e in
    let (_, tail₁) = append-eq-nil (check_programs analysis.program_ids policies) _ silent in
    let (_, tail₂) = append-eq-nil _ _ tail₁ in
    let (caps, tail₃) = append-eq-nil _ _ tail₂ in
    let (size, rate) = append-eq-nil _ _ tail₃ in
    let ts = analysis.transfers in
    let s' = record_transfers now ts state in
    (
      caps_after_count policies.spend_limits now s'
          (caps_kept policies.spend_limits now ts state caps before),
      omega (
        arith,
        rate_room policies.rate_limit state now rate,
        count_of_transfers policies.rate_limit.window_ms now ts state,
        get_transaction_count-record_transaction-le now now policies.rate_limit.window_ms s',
      ),
      size_kept analysis.estimated_value_lamports policies.max_transaction_size size,
    )
