-- ===== src/Seal/Gates/Checks.antt =====
-- When each of the checks of seal() passes.
use phalnx.Inspector.{token_program_address, token_2022_program_address}
use phalnx.Base.{
  ◌≢◌, ℕ, ◌≤◌, ◌<◌, ◌≡◌, ◌↔◌, ◌⊎◌, refl, Bool, true, false, List, [], ◌∷◌, Option, none, some,
  String, eq_iff, Result, ok, err, ◌>>=◌, throw_if, guard, if◌then◌else◌, ltb, has, All, arith,
}
use phalnx.Seal.{Instruction, Policy, VaultState, SealError}
use phalnx.Seal.Gates.{
  blocked_bytes, blocked_operation, blocked, check_token_operations, is_protocol_allowed,
  defi_count, check_count, total_with_fees, check_headroom, check_output, check_spending,
}

-- No mode but 0 and 1 is named by the program: every other one is a denylist.
abbrev pub IsAllowed : String → Policy → Type 0
IsAllowed program policy =
    (policy.protocol_mode ≡ 0)
    ⊎ (((policy.protocol_mode ≡ 1) × (has policy.protocols program ≡ true))
        ⊎ ((1 < policy.protocol_mode) × (has policy.protocols program ≡ false)))

pub is_protocol_allowed_iff :
    (program : String) (policy : Policy)
    → (is_protocol_allowed program policy ≡ true) ↔ IsAllowed program policy
unfolding is_protocol_allowed
is_protocol_allowed_iff program policy = ground arith

-- Bytes that ask a token program for no transfer, approval, change of an authority, closing of an
-- account or burn: none of the instructions 3, 4, 6, 8, 9, 12, 13 and 15, and of Token-2022 not 26.
abbrev pub IsHarmlessBytes : String → Option (List ℕ) → Type 0
IsHarmlessBytes program none = Unit
IsHarmlessBytes program (some []) = Unit
IsHarmlessBytes program (some (disc ∷ bytes)) =
    ((program ≢ token_program_address) × (program ≢ token_2022_program_address))
    ⊎ (All (λ d. disc ≢ d) (3 ∷ 4 ∷ 6 ∷ 8 ∷ 9 ∷ 12 ∷ 13 ∷ 15 ∷ [])
        × ((program ≢ token_2022_program_address) ⊎ (disc ≢ 26)))

abbrev pub IsHarmless : Instruction → Type 0
IsHarmless ix = IsHarmlessBytes ix.program_address ix.bytes

blocked_bytes_iff :
    (program : String) (bytes : Option (List ℕ))
    → (blocked_bytes program bytes ≡ none) ↔ IsHarmlessBytes program bytes
unfolding blocked_operation
blocked_bytes_iff program none = (λ h. tt, λ h. refl)
blocked_bytes_iff program (some []) = (λ h. tt, λ h. refl)
blocked_bytes_iff program (some (disc ∷ bytes)) =
    ground (arith, eq_iff program token_program_address, eq_iff program token_2022_program_address)

blocked_iff : (ix : Instruction) → (blocked ix ≡ none) ↔ IsHarmless ix
unfolding blocked
blocked_iff ix = blocked_bytes_iff ix.program_address ix.bytes

-- A stablecoin allows one recognized instruction at most, any other token exactly one.
abbrev pub IsCount : Bool → ℕ → Type 0
IsCount true count = count ≤ 1
IsCount false count = count ≡ 1

-- Of a token that is no stablecoin, the output account is left to seal() or the canonical one.
abbrev pub IsOutput : Bool → Option String → String → Type 0
IsOutput true output canonical = Unit
IsOutput false none canonical = Unit
IsOutput false (some account) canonical = account ≡ canonical

abbrev pub MaySpend : Bool → ℕ → Option String → String → List Instruction → VaultState → Type 0
MaySpend stablecoin amount output canonical instructions state =
    IsCount stablecoin (defi_count instructions)
    × ((total_with_fees amount state.policy.developer_fee_rate ≤ state.global_budget.remaining)
        × IsOutput stablecoin output canonical)

pub check_headroom_iff :
    (amount rate headroom : ℕ)
    → (check_headroom amount rate headroom ≡ ok tt) ↔ (total_with_fees amount rate ≤ headroom)
unfolding check_headroom
check_headroom_iff amount rate headroom = ground arith

pub check_count_iff :
    (stablecoin : Bool) (count : ℕ)
    → (check_count stablecoin count ≡ ok tt) ↔ IsCount stablecoin count
unfolding check_count
check_count_iff true count = ground arith
check_count_iff false count = ground arith

pub check_output_iff :
    (output : Option String) (canonical : String)
    → (check_output output canonical ≡ ok tt) ↔ IsOutput false output canonical
unfolding check_output
check_output_iff none canonical = ground arith
check_output_iff (some account) canonical = ground (arith, eq_iff account canonical)

-- One check after the other.
pub then_iff {ℓ ℓ' κ} :
    {P : Type ℓ} {Q : Type ℓ'} {A : Type κ} (a : Result SealError (Unit {0}))
    (b : Result SealError A) (c : A)
    → (a ≡ ok tt) ↔ P
    → (b ≡ ok c) ↔ Q
    → ((a >>= λ _. b) ≡ ok c) ↔ (P × Q)
then_iff (err e) b c p q = (λ h. cc, λ h. cc (p.1 h.0))
then_iff (ok tt) b c p q = (λ h. (p.0 refl, q.0 h), λ h. q.1 h.1)

pub check_spending_iff :
    (stablecoin : Bool) (amount : ℕ) (output : Option String) (canonical : String)
    (instructions : List Instruction) (state : VaultState)
    → (check_spending stablecoin amount output canonical instructions state ≡ ok tt)
      ↔ MaySpend stablecoin amount output canonical instructions state
unfolding check_spending
check_spending_iff true amount output canonical instructions state =
    then_iff _ _ tt (check_count_iff true (defi_count instructions)) (
      then_iff _ _ tt
        (check_headroom_iff amount state.policy.developer_fee_rate state.global_budget.remaining)
        (ground arith))
check_spending_iff false amount output canonical instructions state =
    then_iff _ _ tt (check_count_iff false (defi_count instructions)) (
      then_iff _ _ tt
        (check_headroom_iff amount state.policy.developer_fee_rate state.global_budget.remaining)
        (check_output_iff output canonical))

pub check_token_operations_iff :
    (instructions : List Instruction)
    → (check_token_operations instructions ≡ ok tt) ↔ All IsHarmless instructions
unfolding check_token_operations
check_token_operations_iff [] = ground arith
check_token_operations_iff (ix ∷ instructions) =
    ground (arith, check_token_operations_iff instructions, blocked_iff ix)

-- An operation of amount 0 spends nothing.
abbrev pub IsSpending : Bool → ℕ → Option String → String → List Instruction → VaultState → Type 0
IsSpending stablecoin amount output canonical instructions state =
    (amount ≡ 0) ⊎ MaySpend stablecoin amount output canonical instructions state

pub spends_iff :
    (stablecoin : Bool) (amount : ℕ) (output : Option String) (canonical : String)
    (instructions : List Instruction) (state : VaultState)
    → ((if ltb 0 amount
          then check_spending stablecoin amount output canonical instructions state
          else ok tt)
        ≡ ok tt)
      ↔ IsSpending stablecoin amount output canonical instructions state
spends_iff stablecoin amount output canonical instructions state =
    ground (arith, check_spending_iff stablecoin amount output canonical instructions state)

pub iff_trans {ℓ ℓ' ℓ''} : {P : Type ℓ} {Q : Type ℓ'} {R : Type ℓ''} → P ↔ Q → Q ↔ R → P ↔ R
iff_trans pq qr = (λ p. qr.0 (pq.0 p), λ r. pq.1 (qr.1 r))

pub throw_if_iff :
    (test : Bool) (error : SealError) → (throw_if test error ≡ ok tt) ↔ (test ≡ false)
throw_if_iff true error = ground arith
throw_if_iff false error = ground arith

pub guard_iff : (test : Bool) (error : SealError) → (guard test error ≡ ok tt) ↔ (test ≡ true)
guard_iff true error = ground arith
guard_iff false error = ground arith
