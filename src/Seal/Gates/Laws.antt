-- ===== src/Seal/Gates/Laws.antt =====
-- What an operation that passes the checks of seal() has, check by check and all together.
use phalnx.Base.{
  ℕ, ◌≤◌, ◌<◌, ◌≡◌, ◌≢◌, ◌↔◌, refl, sym, ap, ◌∙◌, Bool, false, List, Option, String, str_eq, eq_iff,
  Result, ok, err, >>=-eq-ok, ltb, ◌==◌, All, arith,
}
use phalnx.Budget.{AgentEntry, u64_max}
use phalnx.X402.{ℤ, pos, negsuc}
use phalnx.Seal.{Instruction, VaultState, SealError}
use phalnx.Seal.Gates.{check_amount, strip, target, is_protocol_allowed, Checked, check_operation}
use phalnx.Seal.Gates.Checks.{
  IsHarmless, IsAllowed, is_protocol_allowed_iff, then_iff, check_token_operations_iff, IsSpending,
  spends_iff, iff_trans, throw_if_iff, guard_iff,
}

abbrev value_or : Checked → Result SealError Checked → Checked
value_or c (err e) = c
value_or c (ok value) = value

abbrev answer : Checked → Result SealError Checked
answer c = ok c

answer_iff : (a c : Checked) → (answer a ≡ ok c) ↔ (a ≡ c)
answer_iff a c = (λ h. ap (value_or a) h, λ h. ap answer h)

pos-eq : {m n : ℕ} → pos m ≡ pos n → m ≡ n
pos-eq h = ground (arith, h)

within-u64 : (m n : ℕ) → check_amount (pos m) ≡ ok n → ltb u64_max m ≡ false
unfolding check_amount
within-u64 m n h = ground (arith, h)

module _ (instructions : List Instruction) (target_protocol : Option String) (stablecoin : Bool)
    (output : Option String) (canonical : String) (agent : AgentEntry) (state : VaultState) where
  -- What the answer of the checks on the amount `amount` is, and what it has.
  abbrev pub IsChecked : ℤ → Checked → Type 0
  IsChecked amount c =
      (amount ≡ pos c.amount)
      × (c.amount ≤ u64_max)
      × (c.instructions ≡ strip instructions)
      × (c.target_protocol ≡ target target_protocol (strip instructions))
      × All IsHarmless c.instructions
      × (c.target_protocol ≢ "")
      × (0 < agent.capability)
      × IsAllowed c.target_protocol state.policy
      × IsSpending stablecoin c.amount output canonical c.instructions state

  abbrev checked : ℕ → Checked
  checked n = record {
    amount = n;
    instructions = strip instructions;
    target_protocol = target target_protocol (strip instructions);
  }

  checks_iff :
      (n : ℕ) (c : Checked)
      → ltb u64_max n ≡ false
      → (check_operation
            (pos n)
            instructions
            target_protocol
            stablecoin
            output
            canonical
            agent
            state
          ≡ ok c)
        ↔ (All IsHarmless (strip instructions)
            × ((str_eq (target target_protocol (strip instructions)) "" ≡ false)
                × (((agent.capability == 0) ≡ false)
                    × (IsAllowed (target target_protocol (strip instructions)) state.policy
                        × (IsSpending stablecoin n output canonical (strip instructions) state
                            × (checked n ≡ c))))))
  unfolding check_operation check_amount
  checks_iff n c h = rw h (
      then_iff _ _ c (check_token_operations_iff (strip instructions)) (
        then_iff _ _ c (throw_if_iff (str_eq (target target_protocol (strip instructions)) "") _) (
          then_iff _ _ c (throw_if_iff (agent.capability == 0) _) (
            then_iff _ _ c
              (iff_trans
                (guard_iff
                  (is_protocol_allowed (target target_protocol (strip instructions)) state.policy)
                  _)
                (is_protocol_allowed_iff (target target_protocol (strip instructions))
                  state.policy))
              (then_iff _ _ c (spends_iff stablecoin n output canonical (strip instructions) state)
                (answer_iff (checked n) c))))))

  fields-eq :
      (m : ℕ) (c : Checked)
      → m ≡ c.amount
      → c.instructions ≡ strip instructions
      → c.target_protocol ≡ target target_protocol (strip instructions)
      → checked m ≡ c
  fields-eq m c n i t =
      λ k. record { amount = n k; instructions = sym i k; target_protocol = sym t k }

  passes :
      (m : ℕ)
      → m ≤ u64_max
      → All IsHarmless (strip instructions)
      → target target_protocol (strip instructions) ≢ ""
      → 0 < agent.capability
      → IsAllowed (target target_protocol (strip instructions)) state.policy
      → IsSpending stablecoin m output canonical (strip instructions) state
      → check_operation (pos m) instructions target_protocol stablecoin output canonical agent state
        ≡ ok (checked m)
  passes m bound free named capable permitted spending =
      let below : ltb u64_max m ≡ false = ground (arith, bound) in
      let name : str_eq (target target_protocol (strip instructions)) "" ≡ false =
        ground (arith, named, eq_iff (target target_protocol (strip instructions)) "") in
      let able : (agent.capability == 0) ≡ false = ground (arith, capable) in
      (checks_iff m (checked m) below).1 (free, (name, (able, (permitted, (spending, refl)))))

  negative-error :
      (m : ℕ) (c : Checked)
      → check_operation
          (negsuc m)
          instructions
          target_protocol
          stablecoin
          output
          canonical
          agent
          state
        ≡ ok c
      → IsChecked (negsuc m) c
  unfolding check_operation check_amount
  negative-error m c h = cc

  amount-bound :
      (m : ℕ) (c : Checked)
      → check_operation (pos m) instructions target_protocol stablecoin output canonical agent state
        ≡ ok c
      → ltb u64_max m ≡ false
  unfolding check_operation
  amount-bound m c h =
      let (n, read, rest) = >>=-eq-ok (check_amount (pos m)) _ h in within-u64 m n read

  -- The checks after the plugins answer exactly for an amount from 0 to the largest u64, with the
  -- instructions that are neither of the compute budget nor of the system program, none of which asks
  -- a token program for a blocked operation, for a target protocol that is named and allowed, an agent
  -- with a capability, and, if the amount is not 0, within the count of recognized instructions, with
  -- the fees within the budget that remains, and with no other output account than the canonical one.
  pub check_operation_iff :
      (amount : ℤ) (c : Checked)
      → (check_operation amount instructions target_protocol stablecoin output canonical agent state
          ≡ ok c)
        ↔ IsChecked amount c
  check_operation_iff (negsuc m) c = (negative-error m c, λ h. cc h.0)
  check_operation_iff (pos m) c = (
    λ h.
        let below = amount-bound m c h in
        let (free, (named, (capable, (permitted, (spending, e))))) = (checks_iff m c below).0 h in
        rw (sym e) (
          refl,
          ground (arith, below),
          refl,
          refl,
          free,
          (λ empty. ground (arith, named, (eq_iff _ _).1 empty)),
          ground (arith, capable),
          permitted,
          spending,
        ),
    λ (e, bound, i, t, free, named, capable, permitted, spending).
        let e' : checked m ≡ c = fields-eq m c (pos-eq e) i t in
        rw (sym e') (
          passes m (rw (pos-eq e) bound) (rw (sym i) free) (λ empty. named (t ∙ empty)) capable
            (rw (sym t) permitted) (rw (pos-eq e) (rw (sym i) spending))),
  )
