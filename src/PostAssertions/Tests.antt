-- ===== src/PostAssertions/Tests.antt =====
-- Concrete entries: a leverage cap, and a batch.
use phalnx.Base.{ℕ, ◌≤◌, ◌≡◌, ◌≢◌, ◌↔◌, refl, false, List, [], ◌∷◌, str_eq, ok, arith}
use phalnx.PostAssertions.{
  validate_post_assertion_entries, leverage_cap_lte_bps, jupiter_perps_program_address,
}
use phalnx.PostAssertions.OnChain.{ChainEntry, IsTyped, validate_entries}
use phalnx.PostAssertions.Laws.{
  as_client, as_batch, cap_entry, cap_opts, validate_post_assertion_entries_iff,
  leverage_cap_lte_bps_iff,
}

abbrev plain_entry : ChainEntry
plain_entry = record {
  target_account = "position";
  offset = 8;
  value_len = 2;
  operator = 2;
  expected_value = 1 ∷ 0 ∷ [];
  assertion_mode = 1;
  cross_field_offset_b = 0;
  cross_field_multiplier_bps = 0;
  cross_field_flags = 0;
}

abbrev offset_a : ℕ
offset_a = 140

abbrev batch : List ChainEntry
batch = plain_entry ∷ cap_entry "position" 140 172 100000 ∷ []

plain-IsTyped : IsTyped plain_entry
plain-IsTyped = record {
  offset = omega arith;
  value_len = omega arith;
  operator = omega arith;
  assertion_mode = omega arith;
  cross_field_offset_b = omega arith;
  cross_field_multiplier_bps = omega arith;
  cross_field_flags = omega arith;
}

cap-IsTyped : IsTyped (cap_entry "position" 140 172 100000)
cap-IsTyped = record {
  offset = omega arith;
  value_len = omega arith;
  operator = omega arith;
  assertion_mode = omega arith;
  cross_field_offset_b = omega arith;
  cross_field_multiplier_bps = omega arith;
  cross_field_flags = omega arith;
}

accepted : validate_entries batch ≡ ok tt
unfolding validate_entries phalnx.PostAssertions.OnChain.validate_each
    phalnx.PostAssertions.OnChain.validate_entry
accepted = refl

validate_post_assertion_entries_iff_example :
    (validate_post_assertion_entries (as_batch batch) ≡ ok tt) ↔ (validate_entries batch ≡ ok tt)
validate_post_assertion_entries_iff_example =
    validate_post_assertion_entries_iff batch (plain-IsTyped, (cap-IsTyped, tt))

leverage_cap_lte_bps_iff_example :
    ((leverage_cap_lte_bps (cap_opts "position" "flash" 140 172 100000)
        ≡ ok (as_client (cap_entry "position" 140 172 100000)))
      × (validate_entries (cap_entry "position" 140 172 100000 ∷ []) ≡ ok tt))
    ↔ ((str_eq "flash" jupiter_perps_program_address ≡ false)
        × (140 ≤ 65535)
        × (172 ≤ 65535)
        × (offset_a ≢ 172)
        × (1 ≤ 100000)
        × (100000 ≤ 4294967295))
leverage_cap_lte_bps_iff_example = leverage_cap_lte_bps_iff "position" "flash" 140 172 100000
