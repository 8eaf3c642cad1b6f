-- ===== src/X402/Selector.antt =====
-- sdk/kit/src/x402/payment-selector.ts, selectPaymentOption.
pub mod Laws
use phalnx.Base.{
  ◌≡◌, refl, Bool, true, false, not, ◌&&◌, List, [], ◌∷◌, ◌++◌, Option, none, some, String, Result,
  ok, err, if◌then◌else◌, has, find_by, filter_by, arith,
}
use text.Mathlib.Text.{starts_with}
use phalnx.X402.{PaymentRequirements, X402Config}

-- X402DestinationBlockedError with the destination of the first option, and X402UnsupportedError.
pub data SelectionError : Type 0 where
  destination_blocked : String → SelectionError
  unsupported : SelectionError

-- `!allowed || allowed.has(a)`.
abbrev pub is_allowed : Option (List String) → String → Bool
is_allowed none a = true
is_allowed (some allowed) a = has allowed a

abbrev pub is_solana : PaymentRequirements → Bool
is_solana option = starts_with option.network "solana:"

abbrev conclude : List PaymentRequirements → Bool → Result SelectionError PaymentRequirements
conclude [] blocked = err unsupported
conclude (o ∷ os) false = err unsupported
conclude (o ∷ os) true = err (destination_blocked o.pay_to)

-- The loop, with `solanaOptions` and `hasBlockedDestination`.
unfoldable pub select_from :
    X402Config
    → List PaymentRequirements
    → Bool
    → List PaymentRequirements
    → Result SelectionError PaymentRequirements
select_from config solana_options blocked [] = conclude solana_options blocked
select_from config solana_options blocked (option ∷ options) =
    let skipped = select_from config solana_options blocked options in
    let refused = select_from config (solana_options ++ option ∷ []) true options in
    if not (is_solana option)
    then skipped
    else if not (is_allowed config.allowed_tokens option.asset)
    then skipped
    else if not (is_allowed config.allowed_destinations option.pay_to)
    then refused
    else ok option

unfoldable pub select_payment_option :
    X402Config → List PaymentRequirements → Result SelectionError PaymentRequirements
select_payment_option config accepts = select_from config [] false accepts

-- An option on Solana in an allowed token.
abbrev pub is_payable : X402Config → PaymentRequirements → Bool
is_payable config o = is_solana o && is_allowed config.allowed_tokens o.asset

-- An option that also pays an allowed destination.
abbrev pub is_eligible : X402Config → PaymentRequirements → Bool
is_eligible config o = is_payable config o && is_allowed config.allowed_destinations o.pay_to

-- What the selection should answer: the first eligible option, else the block of the first payable
-- one, if there is one.
abbrev pub answer :
    Option PaymentRequirements
    → List PaymentRequirements
    → Result SelectionError PaymentRequirements
answer (some o) payable = ok o
answer none [] = err unsupported
answer none (o ∷ os) = err (destination_blocked o.pay_to)

select_from-later :
    (config : X402Config) (o : PaymentRequirements) (os options : List PaymentRequirements)
    → select_from config (o ∷ os) true options
      ≡ answer (find_by (is_eligible config) options) (o ∷ os)
unfolding select_from
select_from-later config o os [] = refl
select_from-later config o os (option ∷ options) = ground (
  arith,
  select_from-later config o os options,
  select_from-later config o (os ++ option ∷ []) options,
)

-- The first option that is on Solana, in an allowed token and to an allowed destination is selected;
-- if there is none, the error names the destination of the first option that is on Solana and in an
-- allowed token, or says that there is no such option.
pub select_payment_option-eq :
    (config : X402Config) (accepts : List PaymentRequirements)
    → select_payment_option config accepts
      ≡ answer (find_by (is_eligible config) accepts) (filter_by (is_payable config) accepts)
unfolding select_payment_option select_from
select_payment_option-eq config [] = refl
select_payment_option-eq config (option ∷ options) =
    ground
      (arith, select_payment_option-eq config options, select_from-later config option [] options)
