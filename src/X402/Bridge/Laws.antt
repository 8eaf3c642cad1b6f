-- ===== src/X402/Bridge/Laws.antt =====
-- What the evaluation of a payment ensures, and what it does not see.
use phalnx.Base.{
  map, if◌then◌else◌, ℕ, ◌+◌, ◌≤◌, ◌≡◌, ◌↔◌, refl, false, List, [], ◌∷◌, ◌++◌, Option, none, some,
  String, Result, ok, err, ◌>>=◌, arith,
}
use phalnx.X402.{negsuc, PaymentRequirements, X402Config, ℤ, pos}
use phalnx.Core.Policies.{or_default, day_ms}
use phalnx.Inspector.{analyze_instructions}
use phalnx.Shield.State.{get_total_spend_in_window, record_spend}
use phalnx.Shield.State.Laws.{
  get_total_spend-record_spend-le, get_total_spend-record_transaction-le,
}
use phalnx.Shield.Context.{Context}
use phalnx.Inspector.{analyze_instructions}
use phalnx.Violations.{PolicyViolation}
use phalnx.Shield.Evaluate.{violations_of, evaluate_instructions}
use phalnx.Shield.Evaluate.Laws.{violations_of_iff, IsApproved}
use phalnx.Shield.Context.{check, evaluate, is_empty}
use phalnx.X402.Bridge.{
  parsed, found, sum_exceeds, exceeds, above_cumulative, above_per_request, denied,
  synthetic_instruction, check_cumulative, check_per_request, check_shield, evaluate_x402_payment,
  record_x402_spend,
}

module _ (big_int : String → Option ℤ) where
  cumulative_below :
      (limit : Option ℕ) (max window_ms now n : ℕ) (c : Context) (amount : String)
      → limit ≡ some max
      → big_int amount ≡ some (pos n)
      → check_cumulative big_int limit window_ms c now amount ≡ ok []
      → get_total_spend_in_window window_ms now c.state + n ≤ max
  unfolding check_cumulative
  cumulative_below none max window_ms now n c amount is reads h = cc
  cumulative_below (some m) max window_ms now n c amount is reads h = ground (arith, is, reads, h)

all_empty {ℓ κ} :
    {E : Type ℓ} {A : Type κ} (m n : Result E (List A)) (l : List A)
    → ((m >>= λ a. n >>= λ b. ok (a ++ (b ++ l))) ≡ ok []) ↔ ((m ≡ ok []) × (n ≡ ok []) × (l ≡ []))
all_empty (err e) n l = ground arith
all_empty (ok a) (err e) l = ground arith
all_empty (ok []) (ok []) l = ground arith
all_empty (ok []) (ok (b ∷ bs)) l = ground arith
all_empty (ok (a ∷ as')) (ok b) l = ground arith

-- With a cumulative limit, the amount is an integer and the window's total, with it, within the limit.
abbrev pub WithinCumulative : Option ℕ → Option ℤ → ℕ → Type 0
WithinCumulative none amount total = Unit
WithinCumulative (some limit) none total = ⊥
WithinCumulative (some limit) (some (pos n)) total = total + n ≤ limit
WithinCumulative (some limit) (some (negsuc n)) total = total ≤ limit + n + 1

abbrev pub WithinPayment : Option ℕ → Option ℤ → Type 0
WithinPayment none amount = Unit
WithinPayment (some ceiling) none = ⊥
WithinPayment (some ceiling) (some (pos n)) = n ≤ ceiling
WithinPayment (some ceiling) (some (negsuc n)) = Unit

-- With a signer, the shield's policies allow the instruction that stands for the payment.
abbrev pub ShieldAllows : Option String → PaymentRequirements → Context → ℕ → Type 0
ShieldAllows none selected c now = Unit
ShieldAllows (some signer) selected c now =
    IsApproved (analyze_instructions (synthetic_instruction selected signer ∷ []) signer) signer
      c.resolved c.state c.sync_network now

module _ (big_int : String → Option ℤ) where
  cumulative_cases :
      (limit total : ℕ) (amount : Option ℤ)
      → ((parsed big_int amount >>= λ n.
            ok (found big_int (sum_exceeds total n limit) above_cumulative))
          ≡ ok [])
        ↔ WithinCumulative (some limit) amount total
  cumulative_cases limit total none = ground arith
  cumulative_cases limit total (some (pos n)) = ground arith
  cumulative_cases limit total (some (negsuc n)) = ground arith

  check_cumulative_iff :
      (limit : Option ℕ) (window_ms now : ℕ) (c : Context) (amount : String)
      → (check_cumulative big_int limit window_ms c now amount ≡ ok [])
        ↔ WithinCumulative limit (big_int amount) (get_total_spend_in_window window_ms now c.state)
  unfolding check_cumulative
  check_cumulative_iff none window_ms now c amount = (λ h. tt, λ h. refl)
  check_cumulative_iff (some limit) window_ms now c amount =
      cumulative_cases limit (get_total_spend_in_window window_ms now c.state) (big_int amount)

  payment_cases :
      (ceiling : ℕ) (amount : Option ℤ)
      → ((parsed big_int amount >>= λ n. ok (found big_int (exceeds n ceiling) above_per_request))
          ≡ ok [])
        ↔ WithinPayment (some ceiling) amount
  payment_cases ceiling none = ground arith
  payment_cases ceiling (some (pos n)) = ground arith
  payment_cases ceiling (some (negsuc n)) = ground arith

  check_per_request_iff :
      (ceiling : Option ℕ) (amount : String)
      → (check_per_request big_int ceiling amount ≡ ok []) ↔ WithinPayment ceiling (big_int amount)
  unfolding check_per_request
  check_per_request_iff none amount = (λ h. tt, λ h. refl)
  check_per_request_iff (some ceiling) amount = payment_cases ceiling (big_int amount)

  shield_cases :
      (found : List PolicyViolation)
      → ((if is_empty found then [] else map denied found) ≡ []) ↔ (found ≡ [])
  shield_cases [] = ground arith
  shield_cases (v ∷ vs) = ground arith

  check_shield_iff :
      (signer : Option String) (selected : PaymentRequirements) (c : Context) (now : ℕ)
      → c.is_paused ≡ false
      → (check_shield big_int signer selected c now ≡ []) ↔ ShieldAllows signer selected c now
  unfolding check_shield check evaluate evaluate_instructions
  check_shield_iff none selected c now running = (λ h. tt, λ h. refl)
  check_shield_iff (some signer) selected c now running =
      let analysis = analyze_instructions (synthetic_instruction selected signer ∷ []) signer in
      let found = violations_of analysis signer c.resolved c.state c.sync_network now in
      let cases = shield_cases found in
      let decides = violations_of_iff analysis signer c.resolved c.state c.sync_network now in
      (
        λ h. decides.0 (cases.0 (ground (arith, running, h))),
        λ a. ground (arith, running, cases.1 (decides.1 a)),
      )

module _ (big_int : String → Option ℤ) (selected : PaymentRequirements) (c : Context)
    (config : X402Config) (signer : Option String) (now : ℕ) where
  each_check_iff : (evaluate_x402_payment big_int selected c config signer now ≡ ok []) ↔ (
      (c.is_paused ≡ false)
      × (check_cumulative big_int config.max_cumulative_spend
            (or_default config.cumulative_window_ms day_ms)
            c
            now
            selected.amount
          ≡ ok [])
      × (check_per_request big_int config.max_payment_per_request selected.amount ≡ ok [])
      × (check_shield big_int signer selected c now ≡ []))
  unfolding evaluate_x402_payment
  each_check_iff =
      let each =
        all_empty
          (check_cumulative big_int config.max_cumulative_spend
            (or_default config.cumulative_window_ms day_ms) c now selected.amount)
          (check_per_request big_int config.max_payment_per_request selected.amount)
          (check_shield big_int signer selected c now) in
      ground (arith, each.0, each.1)

  -- The evaluation of a payment finds nothing exactly if the context is not paused, the total of the
  -- cumulative window with the payment is within the cumulative limit, the amount is within the
  -- ceiling for each payment, and the shield's policies allow the instruction that stands for the
  -- payment. Where a limit is set, the amount must be an integer; where no signer is given, the
  -- shield's policies do not matter.
  pub evaluate_x402_payment_iff :
      (evaluate_x402_payment big_int selected c config signer now ≡ ok []) ↔ (
        (c.is_paused ≡ false)
        × WithinCumulative config.max_cumulative_spend
            (big_int selected.amount)
            (get_total_spend_in_window (or_default config.cumulative_window_ms day_ms) now c.state)
        × WithinPayment config.max_payment_per_request (big_int selected.amount)
        × ShieldAllows signer selected c now)
  evaluate_x402_payment_iff =
      let w = or_default config.cumulative_window_ms day_ms in
      let cumulative =
        check_cumulative_iff big_int config.max_cumulative_spend w now c selected.amount in
      let payment = check_per_request_iff big_int config.max_payment_per_request selected.amount in
      (
        λ h.
            let (running, t, p, allows) = each_check_iff.0 h in
            (
              running,
              cumulative.0 t,
              payment.0 p,
              (check_shield_iff big_int signer selected c now running).0 allows,
            ),
        λ (running, t, p, allows). each_check_iff.1 (
          running,
          cumulative.1 t,
          payment.1 p,
          (check_shield_iff big_int signer selected c now running).1 allows,
        ),
      )

  -- A payment that the evaluation finds nothing against, under a cumulative limit, leaves the total of
  -- the limit's window within the limit when it is recorded at the time of the evaluation.
  pub record_x402_spend-within :
      (max n : ℕ)
      → config.max_cumulative_spend ≡ some max
      → big_int selected.amount ≡ some (pos n)
      → evaluate_x402_payment big_int selected c config signer now ≡ ok []
      → get_total_spend_in_window
          (or_default config.cumulative_window_ms day_ms)
          now
          (record_x402_spend selected.asset n now c).state
        ≤ max
  unfolding record_x402_spend
  record_x402_spend-within max n limited reads passed =
      let w = or_default config.cumulative_window_ms day_ms in
      let spent = record_spend selected.asset n now c.state in
      omega (
        arith,
        cumulative_below big_int config.max_cumulative_spend max w now n c selected.amount limited
            reads (each_check_iff.0 passed).1,
        get_total_spend-record_transaction-le "" "" 0 now now w spent,
        get_total_spend-record_spend-le selected.asset "" n now now w c.state,
      )
