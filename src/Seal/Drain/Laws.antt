-- ===== src/Seal/Drain/Laws.antt =====
-- When an outflow is flagged, and that the context of a sealed transaction flags none.
use phalnx.Base.{
  ℕ, ◌*◌, ◌≤◌, ◌<◌, ◌≡◌, ◌↔◌, refl, ◌∙◌, Bool, true, false, ◌||◌, List, [], ◌∷◌, ◌++◌, Option,
  String, str_eq, find_by, All, arith,
}
use phalnx.Seal.Build.{VaultContext}
use phalnx.Seal.Drain.{
  RiskFlag, large_outflow, unknown_recipient, full_drain, multi_output, BalanceDelta,
  DrainThresholds, DrainInput, outflow, is_share, outflow_flags, flag, warning_of, block_of,
  detect_drain_attempt, detect_drain_from_seal_context,
}

abbrev pub is_full : RiskFlag → Bool
is_full large_outflow = false
is_full unknown_recipient = false
is_full full_drain = true
is_full multi_output = false

abbrev pub is_large : RiskFlag → Bool
is_large large_outflow = true
is_large unknown_recipient = false
is_large full_drain = false
is_large multi_output = false

-- A flag of this kind is raised.
abbrev pub raised : (RiskFlag → Bool) → List RiskFlag → Bool
raised kind [] = false
raised kind (f ∷ flags) = kind f || raised kind flags

abbrev pub vault_outflow : DrainInput → ℕ
vault_outflow input =
    outflow (find_by (λ d. str_eq d.account input.vault_address) input.balance_deltas)

flags-full :
    (a b c d : Bool)
    → raised is_full (
        (flag a large_outflow ++ flag b full_drain)
        ++ (flag c unknown_recipient ++ flag d multi_output))
      ≡ b
flags-full a b c d = ground arith

flags-large :
    (a b c d : Bool)
    → raised is_large (
        (flag a large_outflow ++ flag b full_drain)
        ++ (flag c unknown_recipient ++ flag d multi_output))
      ≡ a
flags-large a b c d = ground arith

raised-full :
    (input : DrainInput) (thresholds : Option DrainThresholds)
    → raised is_full (detect_drain_attempt input thresholds)
      ≡ is_share (vault_outflow input) input.total_vault_balance (block_of thresholds)
unfolding detect_drain_attempt outflow_flags
raised-full input thresholds =
    flags-full (is_share (vault_outflow input) input.total_vault_balance (warning_of thresholds))
      (is_share (vault_outflow input) input.total_vault_balance (block_of thresholds)) _ _

raised-large :
    (input : DrainInput) (thresholds : Option DrainThresholds)
    → raised is_large (detect_drain_attempt input thresholds)
      ≡ is_share (vault_outflow input) input.total_vault_balance (warning_of thresholds)
unfolding detect_drain_attempt outflow_flags
raised-large input thresholds =
    flags-large (is_share (vault_outflow input) input.total_vault_balance (warning_of thresholds))
      (is_share (vault_outflow input) input.total_vault_balance (block_of thresholds)) _ _

-- What left the vault's account is this share of the balance or more, and neither is 0.
abbrev pub IsShare : ℕ → ℕ → ℕ → Type 0
IsShare out balance percent = (0 < out) × (0 < balance) × (balance * percent ≤ out * 100)

is_share_iff :
    (out balance percent : ℕ) → (is_share out balance percent ≡ true) ↔ IsShare out balance percent
is_share_iff out balance percent = ground arith

-- A simulation is flagged as a full drain exactly if the delta of the vault's account, the first in
-- the list, takes out at least the blocking share of a balance that is not 0, and as a large outflow
-- exactly if it takes out at least the warning share.
pub detect_drain_attempt_iff :
    (input : DrainInput) (thresholds : Option DrainThresholds)
    → ((raised is_full (detect_drain_attempt input thresholds) ≡ true)
        ↔ IsShare (vault_outflow input) input.total_vault_balance (block_of thresholds))
      × ((raised is_large (detect_drain_attempt input thresholds) ≡ true)
          ↔ IsShare (vault_outflow input) input.total_vault_balance (warning_of thresholds))
detect_drain_attempt_iff input thresholds = (
  rw (raised-full input thresholds)
      (is_share_iff (vault_outflow input) input.total_vault_balance (block_of thresholds)),
  rw (raised-large input thresholds)
      (is_share_iff (vault_outflow input) input.total_vault_balance (warning_of thresholds)),
)

none-found :
    (address : String) (deltas : List BalanceDelta)
    → All (λ d. str_eq d.account address ≡ false) deltas
    → outflow (find_by (λ d. str_eq d.account address) deltas) ≡ 0
none-found address [] h = refl
none-found address (d ∷ deltas) (first, rest) = rw first (none-found address deltas rest)

-- Of a simulation that changes no balance under the vault's own address, the context of a sealed
-- transaction raises neither flag of an outflow, however much leaves its token account.
pub detect_drain_from_seal_context-unseen :
    (deltas : List BalanceDelta) (context : VaultContext) (thresholds : Option DrainThresholds)
    → All (λ d. str_eq d.account context.vault_address ≡ false) deltas
    → (raised is_full (detect_drain_from_seal_context deltas context thresholds) ≡ false)
      × (raised is_large (detect_drain_from_seal_context deltas context thresholds) ≡ false)
unfolding detect_drain_from_seal_context
detect_drain_from_seal_context-unseen deltas context thresholds h =
    let unmoved = none-found context.vault_address deltas h in
    (raised-full _ thresholds ∙ rw unmoved refl, raised-large _ thresholds ∙ rw unmoved refl)
