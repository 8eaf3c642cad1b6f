-- ===== src/Policies.antt =====
-- sdk/kit/src/policies.ts: the kit's policies, the core's with a custom check behind them. Addresses
-- are strings here as in the core, so the conversions between the two forms are the identity.
use phalnx.Base.{not, List, [], ◌∷◌, Option, none, some, String, if◌then◌else◌}
use phalnx.Core.Policies
use phalnx.Core.Policies.{TransactionAnalysis, PolicyCheckResult, SpendLimit}
use phalnx.Network.{Network, is_stablecoin_mint}

pub record ShieldPolicies : Type 0 where
  pub core : Policies.ShieldPolicies
  pub open core use *
  pub custom_check : Option (TransactionAnalysis → PolicyCheckResult)

pub record ResolvedPolicies : Type 0 where
  pub core : Policies.ResolvedPolicies
  pub open core use *
  pub custom_check : Option (TransactionAnalysis → PolicyCheckResult)

unfoldable pub resolve_policies : Option ShieldPolicies → ResolvedPolicies
resolve_policies none = record { core = Policies.resolve_policies none; custom_check = none }
resolve_policies (some input) = record {
  core = Policies.resolve_policies (some input.core);
  custom_check = input.custom_check;
}

-- The mints that a warning is given for.
unfoldable pub validate_spend_limit_mints : List SpendLimit → Network → List String
validate_spend_limit_mints [] network = []
validate_spend_limit_mints (limit ∷ limits) network =
    let rest = validate_spend_limit_mints limits network in
    if not (is_stablecoin_mint limit.mint network) then limit.mint ∷ rest else rest
