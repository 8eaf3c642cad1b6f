-- ===== src/PostAssertions.antt =====
-- sdk/kit/src/dashboard/post-assertion-validation.ts, the validator of post-execution assertions,
-- and sdk/kit/src/post-assertions/cross-field-lte.ts, the builder of a leverage cap.
-- Errors are their codes, without their texts.
pub mod OnChain
pub mod Laws
mod Tests
use phalnx.Base.{
  ℕ, ◌+◌, ◌/◌, ◌%◌, ◌≤◌, Bool, true, false, not, ◌&&◌, ◌||◌, List, [], ◌∷◌, Option, none, some,
  String, str_eq, Result, ok, err, ◌>>=◌, ◌>>◌, throw_if, ltb, leb, ◌==◌, if◌then◌else◌, length,
}

-- A JavaScript value in a field of type `number`: a non-negative integer, or anything else.
pub data Number : Type 0 where
  natural : ℕ → Number
  not_natural : Number

-- sdk/kit/src/generated/types/postAssertionEntry.ts.
pub record PostAssertionEntry : Type 0 where
  pub target_account : String
  pub offset : Number
  pub value_len : Number
  pub operator : Number
  pub expected_value : List ℕ
  pub assertion_mode : Number
  pub cross_field_offset_b : Number
  pub cross_field_multiplier_bps : Number
  pub cross_field_flags : Number

abbrev pub max_post_assertion_entries : ℕ
max_post_assertion_entries = 4

abbrev pub max_constraint_value_len : ℕ
max_constraint_value_len = 32

abbrev pub max_operator_value : ℕ
max_operator_value = 6

abbrev pub max_assertion_mode_value : ℕ
max_assertion_mode_value = 3

abbrev pub cross_field_max_value_len : ℕ
cross_field_max_value_len = 8

abbrev pub delta_max_value_len : ℕ
delta_max_value_len = 8

abbrev pub max_u8 : ℕ
max_u8 = 255

abbrev pub max_u16 : ℕ
max_u16 = 65535

abbrev pub max_u32 : ℕ
max_u32 = 4294967295

-- (`entries_not_an_array` is for values that are no list.)
pub data PostAssertionValidationCode : Type 0 where
  entries_contain_null entry_count_out_of_range value_len_out_of_range : PostAssertionValidationCode
  expected_value_too_short operator_out_of_range : PostAssertionValidationCode
  assertion_mode_out_of_range offset_out_of_range : PostAssertionValidationCode
  cross_field_offset_b_out_of_range : PostAssertionValidationCode
  cross_field_multiplier_bps_out_of_range : PostAssertionValidationCode
  cross_field_flags_out_of_range delta_mode_value_len_too_large : PostAssertionValidationCode
  cross_field_value_len_too_large cross_field_requires_absolute_mode : PostAssertionValidationCode
  cross_field_multiplier_must_be_positive cross_field_unknown_flags : PostAssertionValidationCode
  cross_field_disabled_fields_must_be_zero : PostAssertionValidationCode

pub record PostAssertionValidationError : Type 0 where
  pub validation_code : PostAssertionValidationCode
  pub entry_index : Option ℕ

abbrev Checked : Type 0
Checked = Result PostAssertionValidationError (Unit {0})

abbrev fails : PostAssertionValidationCode → ℕ → PostAssertionValidationError
fails code index = record { validation_code = code; entry_index = some index }

-- The number that passes the check is what the later checks read.
unfoldable pub require_uint_in_range :
    Number → ℕ → PostAssertionValidationCode → ℕ → Result PostAssertionValidationError ℕ
require_uint_in_range not_natural max code index = err (fails code index)
require_uint_in_range (natural n) max code index =
    if ltb max n then err (fails code index) else ok n

-- `flags & 0x01`, and `flags & 0xfe` of a byte.
abbrev pub lte_enabled : ℕ → Bool
lte_enabled flags = not (flags % 2 == 0)

abbrev pub has_reserved_bits : ℕ → Bool
has_reserved_bits flags = not (flags / 2 == 0)

-- The checks of the cross-field part: enabled, then disabled.
unfoldable pub check_cross_field : ℕ → ℕ → ℕ → ℕ → ℕ → ℕ → Checked
check_cross_field value_len mode offset_b multiplier flags index =
    if lte_enabled flags
    then (throw_if (ltb cross_field_max_value_len value_len)
          (fails cross_field_value_len_too_large index)
        >> throw_if (not (mode == 0)) (fails cross_field_requires_absolute_mode index)
        >> throw_if (multiplier == 0) (fails cross_field_multiplier_must_be_positive index)
        >> throw_if (has_reserved_bits flags) (fails cross_field_unknown_flags index))
    else throw_if (not (offset_b == 0) || not (multiplier == 0))
        (fails cross_field_disabled_fields_must_be_zero index)

-- The checks that relate the fields to each other.
unfoldable pub check_lengths : ℕ → ℕ → ℕ → ℕ → Checked
check_lengths value_len mode bytes index =
    throw_if (value_len == 0) (fails value_len_out_of_range index)
    >> throw_if (ltb bytes value_len) (fails expected_value_too_short index)
    >> throw_if (leb 1 mode && leb mode 3 && ltb delta_max_value_len value_len)
        (fails delta_mode_value_len_too_large index)

unfoldable pub validate_single_entry : PostAssertionEntry → ℕ → Checked
validate_single_entry e index =
    require_uint_in_range e.offset max_u16 offset_out_of_range index >>= λ offset.
    require_uint_in_range e.value_len max_constraint_value_len value_len_out_of_range index
    >>= λ value_len.
        require_uint_in_range e.operator max_operator_value operator_out_of_range index
        >>= λ operator.
            require_uint_in_range e.assertion_mode max_assertion_mode_value
              assertion_mode_out_of_range index
            >>= λ mode.
                require_uint_in_range e.cross_field_offset_b max_u16
                  cross_field_offset_b_out_of_range index
                >>= λ offset_b.
                    require_uint_in_range e.cross_field_multiplier_bps max_u32
                      cross_field_multiplier_bps_out_of_range index
                    >>= λ multiplier.
                        require_uint_in_range e.cross_field_flags max_u8
                          cross_field_flags_out_of_range index
                        >>= λ flags.
                            check_lengths value_len mode (length e.expected_value) index
                            >> check_cross_field value_len mode offset_b multiplier flags index

-- An entry that is null is `none`.
unfoldable pub validate_from : List (Option PostAssertionEntry) → ℕ → Checked
validate_from [] index = ok tt
validate_from (none ∷ es) index = err (fails entries_contain_null index)
validate_from (some e ∷ es) index = validate_single_entry e index >> validate_from es (index + 1)

unfoldable pub validate_post_assertion_entries : List (Option PostAssertionEntry) → Checked
validate_post_assertion_entries entries =
    throw_if (length entries == 0 || ltb max_post_assertion_entries (length entries))
      (record { validation_code = entry_count_out_of_range; entry_index = none })
    >> validate_from entries 0

abbrev pub jupiter_perps_program_address : String
jupiter_perps_program_address = "PERPHjGBqRHArX4DySjwM6UJHiR3sWAatqfdBS2qQJu"

pub record LeverageCapLteOpts : Type 0 where
  pub target_account : String
  pub target_account_owner_program : String
  pub field_a_offset : Number
  pub field_b_offset : Number
  pub max_bps : Number

pub data LeverageCapError : Type 0 where
  jupiter_perps_unsupported : LeverageCapError
  range_error : LeverageCapError

unfoldable pub require_integer_in_range : Number → ℕ → ℕ → Result LeverageCapError ℕ
require_integer_in_range not_natural low high = err range_error
require_integer_in_range (natural n) low high =
    if ltb n low || ltb high n then err range_error else ok n

-- `new Uint8Array(8)`.
abbrev eight_zeros : List ℕ
eight_zeros = 0 ∷ 0 ∷ 0 ∷ 0 ∷ 0 ∷ 0 ∷ 0 ∷ 0 ∷ []

unfoldable pub leverage_cap_lte_bps :
    LeverageCapLteOpts → Result LeverageCapError PostAssertionEntry
leverage_cap_lte_bps opts =
    throw_if (str_eq opts.target_account_owner_program jupiter_perps_program_address)
      jupiter_perps_unsupported
    >> require_integer_in_range opts.field_a_offset 0 max_u16
    >>= λ a. require_integer_in_range opts.field_b_offset 0 max_u16 >>= λ b.
        throw_if (a == b) range_error >>= λ _.
        require_integer_in_range opts.max_bps 1 max_u32 >>= λ bps. ok (record {
          target_account = opts.target_account;
          offset = natural a;
          value_len = natural 8;
          operator = natural 3;
          expected_value = eight_zeros;
          assertion_mode = natural 0;
          cross_field_offset_b = natural b;
          cross_field_multiplier_bps = natural bps;
          cross_field_flags = natural 1;
        })
