-- ===== src/X402/Selector/Laws.antt =====
-- What selectPaymentOption selects is eligible.
use phalnx.Base.{
  ◌≡◌, sym, ap, ◌∙◌, true, List, [], ◌∷◌, Option, none, some, ok, ok-eq, In, find_by,
  find_by-eq-some, filter_by,
}
use phalnx.X402.{PaymentRequirements, X402Config}
use phalnx.X402.Selector.{
  is_eligible, is_payable, answer, select_payment_option, select_payment_option-eq,
}

answered :
    (o : Option PaymentRequirements) (payable : List PaymentRequirements)
    (selected : PaymentRequirements)
    → answer o payable ≡ ok selected
    → o ≡ some selected
answered none [] selected h = cc
answered none (x ∷ xs) selected h = cc
answered (some x) payable selected h = ap (λ y. some y) (ok-eq h)

-- What is selected is one of the options, on Solana, in an allowed token and to an allowed destination.
pub select_payment_option-eligible :
    (config : X402Config) (accepts : List PaymentRequirements) (selected : PaymentRequirements)
    → select_payment_option config accepts ≡ ok selected
    → In selected accepts × (is_eligible config selected ≡ true)
select_payment_option-eligible config accepts selected h =
    find_by-eq-some (is_eligible config) accepts selected (
      answered (find_by (is_eligible config) accepts) (filter_by (is_payable config) accepts)
        selected (sym (select_payment_option-eq config accepts) ∙ h))
