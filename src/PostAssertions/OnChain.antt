-- ===== src/PostAssertions/OnChain.antt =====
-- programs/sigil/src/state/post_assertions.rs, validate_entries, and its enumeration types: the check
-- that the on-chain program makes of the entries that an owner stores.
use phalnx.Base.{
  ℕ, ◌≤◌, Bool, not, ◌&&◌, List, [], ◌∷◌, String, Result, ok, ◌>>◌, guard, ltb, leb, ◌==◌,
  if◌then◌else◌, length,
}
use phalnx.PostAssertions.{
  max_post_assertion_entries, max_constraint_value_len, max_u8, max_u16, max_u32, lte_enabled,
  has_reserved_bits,
}

pub record ChainEntry : Type 0 where
  pub target_account : String
  pub offset : ℕ
  pub value_len : ℕ
  pub operator : ℕ
  pub expected_value : List ℕ
  pub assertion_mode : ℕ
  pub cross_field_offset_b : ℕ
  pub cross_field_multiplier_bps : ℕ
  pub cross_field_flags : ℕ

-- The fields fit their machine types.
pub record IsTyped (e : ChainEntry) : Type 0 where
  pub offset : e.offset ≤ max_u16
  pub value_len : e.value_len ≤ max_u8
  pub operator : e.operator ≤ max_u8
  pub assertion_mode : e.assertion_mode ≤ max_u8
  pub cross_field_offset_b : e.cross_field_offset_b ≤ max_u16
  pub cross_field_multiplier_bps : e.cross_field_multiplier_bps ≤ max_u32
  pub cross_field_flags : e.cross_field_flags ≤ max_u8

pub data ConstraintError : Type 0 where
  invalid_constraint_config invalid_constraint_operator : ConstraintError

-- `ConstraintOperator::try_from(v).is_ok()`, of the operators 0 to 6.
abbrev is_operator : ℕ → Bool
is_operator v = leb v 6

-- `AssertionMode::try_from(v).is_ok()`, of the modes 0 to 3.
abbrev is_assertion_mode : ℕ → Bool
is_assertion_mode v = leb v 3

unfoldable pub validate_entry : ChainEntry → Result ConstraintError (Unit {0})
validate_entry e =
    let enabled =
      guard (leb e.value_len 8) invalid_constraint_config
      >> guard (e.assertion_mode == 0) invalid_constraint_config
      >> guard (ltb 0 e.cross_field_multiplier_bps) invalid_constraint_config
      >> guard (not (has_reserved_bits e.cross_field_flags)) invalid_constraint_config in
    let disabled =
      guard (e.cross_field_offset_b == 0 && e.cross_field_multiplier_bps == 0)
        invalid_constraint_config in
    guard (ltb 0 e.value_len && leb e.value_len max_constraint_value_len) invalid_constraint_config
    >> guard (leb e.value_len (length e.expected_value)) invalid_constraint_config
    >> guard (is_operator e.operator) invalid_constraint_operator
    >> guard (is_assertion_mode e.assertion_mode) invalid_constraint_config
    >> (if leb 1 e.assertion_mode && leb e.assertion_mode 3
        then guard (leb e.value_len 8) invalid_constraint_config
        else ok tt)
    >> (if lte_enabled e.cross_field_flags then enabled else disabled)

unfoldable pub validate_each : List ChainEntry → Result ConstraintError (Unit {0})
validate_each [] = ok tt
validate_each (e ∷ es) = validate_entry e >> validate_each es

unfoldable pub validate_entries : List ChainEntry → Result ConstraintError (Unit {0})
validate_entries entries =
    guard (not (length entries == 0) && leb (length entries) max_post_assertion_entries)
      invalid_constraint_config
    >> validate_each entries
