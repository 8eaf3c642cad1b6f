-- ===== src/PostAssertions/Laws.antt =====
-- The client's validator agrees with the program's, and the leverage cap passes both.
use phalnx.Base.{
  ℕ, ◌+◌, ◌≤◌, ◌<◌, ◌≡◌, ◌≢◌, ◌↔◌, ◌⊎◌, refl, Bool, true, false, not, ◌&&◌, ◌||◌, List, [], ◌∷◌,
  map, Option, some, String, str_eq, Result, ok, err, ◌>>◌, throw_if, guard, ltb, leb, ◌==◌, length,
  All, arith,
}
use phalnx.PostAssertions.{
  natural, PostAssertionEntry, lte_enabled, has_reserved_bits, require_uint_in_range,
  check_cross_field, check_lengths, validate_single_entry, validate_from,
  validate_post_assertion_entries, LeverageCapLteOpts, require_integer_in_range,
  leverage_cap_lte_bps, jupiter_perps_program_address,
}
use phalnx.PostAssertions.OnChain.{
  ChainEntry, IsTyped, validate_entry, validate_each, validate_entries,
}

-- The entry as the client holds it.
abbrev pub as_client : ChainEntry → PostAssertionEntry
as_client e = record {
  target_account = e.target_account;
  offset = natural e.offset;
  value_len = natural e.value_len;
  operator = natural e.operator;
  expected_value = e.expected_value;
  assertion_mode = natural e.assertion_mode;
  cross_field_offset_b = natural e.cross_field_offset_b;
  cross_field_multiplier_bps = natural e.cross_field_multiplier_bps;
  cross_field_flags = natural e.cross_field_flags;
}

-- The rules for the cross-field part of an entry.
abbrev pub CrossFieldRules : ChainEntry → Bool → Type 0
CrossFieldRules e true =
    (e.value_len ≤ 8)
    × (e.assertion_mode ≡ 0)
    × (0 < e.cross_field_multiplier_bps)
    × (has_reserved_bits e.cross_field_flags ≡ false)
CrossFieldRules e false = (e.cross_field_offset_b ≡ 0) × (e.cross_field_multiplier_bps ≡ 0)

-- The rules for an entry, whoever checks them.
pub record IsValid (e : ChainEntry) : Type 0 where
  pub is_some : 0 < e.value_len
  pub value_len : e.value_len ≤ 32
  pub expected : e.value_len ≤ length e.expected_value
  pub operator : e.operator ≤ 6
  pub mode : e.assertion_mode ≤ 3
  pub delta : (e.assertion_mode ≡ 0) ⊎ (e.value_len ≤ 8)
  pub cross_field : CrossFieldRules e (lte_enabled e.cross_field_flags)

delta_rule :
    (mode len : ℕ)
    → mode ≤ 3
    → ((leb 1 mode && leb mode 3 && ltb 8 len) ≡ false) ↔ ((mode ≡ 0) ⊎ (len ≤ 8))
delta_rule mode len h = ground arith

validate_entry-IsValid : (e : ChainEntry) → validate_entry e ≡ ok tt → IsValid e
unfolding validate_entry
validate_entry-IsValid e h = record {
  is_some = ground (arith, h);
  value_len = ground (arith, h);
  expected = ground (arith, h);
  operator = ground (arith, h);
  mode = ground (arith, h);
  delta = ground (arith, h);
  cross_field = ground (arith, h);
}

validate_entry-passes : (e : ChainEntry) → IsValid e → validate_entry e ≡ ok tt
unfolding validate_entry
validate_entry-passes e v =
    ground (arith, v.is_some, v.value_len, v.expected, v.operator, v.mode, v.delta, v.cross_field)

validate_single_entry-IsValid :
    (e : ChainEntry) (i : ℕ) → validate_single_entry (as_client e) i ≡ ok tt → IsValid e
unfolding validate_single_entry require_uint_in_range check_lengths check_cross_field
validate_single_entry-IsValid e i h = record {
  is_some = ground (arith, h);
  value_len = ground (arith, h);
  expected = ground (arith, h);
  operator = ground (arith, h);
  mode = ground (arith, h);
  delta = ground (arith, h);
  cross_field = ground (arith, h);
}

validate_single_entry-passes :
    (e : ChainEntry) (i : ℕ) → IsTyped e → IsValid e → validate_single_entry (as_client e) i ≡ ok tt
unfolding validate_single_entry require_uint_in_range check_lengths check_cross_field
validate_single_entry-passes e i t v = ground (
  arith, t.offset, t.cross_field_offset_b, t.cross_field_multiplier_bps, t.cross_field_flags,
  v.is_some, v.value_len, v.expected, v.operator, v.mode, v.delta, v.cross_field,
)

>>-eq-ok {ℓ κ} :
    {E : Type ℓ} {F : Type κ} (m n : Result E (Unit {0})) (p q : Result F (Unit {0}))
    → (m ≡ ok tt) ↔ (p ≡ ok tt)
    → (n ≡ ok tt) ↔ (q ≡ ok tt)
    → ((m >> n) ≡ ok tt) ↔ ((p >> q) ≡ ok tt)
>>-eq-ok (ok u) n (ok v) q h k = k
>>-eq-ok (ok u) n (err f) q h k = ground (arith, h.0 refl)
>>-eq-ok (err e) n (ok v) q h k = ground (arith, h.1 refl)
>>-eq-ok (err e) n (err f) q h k = (λ r. cc, λ r. cc)

single_agrees :
    (e : ChainEntry) (i : ℕ)
    → IsTyped e
    → (validate_single_entry (as_client e) i ≡ ok tt) ↔ (validate_entry e ≡ ok tt)
single_agrees e i t = (
  λ h. validate_entry-passes e (validate_single_entry-IsValid e i h),
  λ h. validate_single_entry-passes e i t (validate_entry-IsValid e h),
)

-- The batch as the client holds it.
abbrev pub as_batch : List ChainEntry → List (Option PostAssertionEntry)
as_batch es = map (λ e. some (as_client e)) es

each_agrees :
    (es : List ChainEntry) (i : ℕ)
    → All IsTyped es
    → (validate_from (as_batch es) i ≡ ok tt) ↔ (validate_each es ≡ ok tt)
unfolding validate_from validate_each
each_agrees [] i t = (λ h. refl, λ h. refl)
each_agrees (e ∷ es) i (t, ts) =
    >>-eq-ok (validate_single_entry (as_client e) i) (validate_from (as_batch es) (i + 1))
      (validate_entry e) (validate_each es) (single_agrees e i t) (each_agrees es (i + 1) ts)

length-as_batch : (es : List ChainEntry) → length (as_batch es) ≡ length es
length-as_batch [] = refl
length-as_batch (e ∷ es) = omega (arith, length-as_batch es)

count_agrees {ℓ κ} :
    {E : Type ℓ} {F : Type κ} (e : E) (f : F) (n m : ℕ)
    → n ≡ m
    → (throw_if (n == 0 || ltb 4 n) e ≡ ok tt) ↔ (guard (not (m == 0) && leb m 4) f ≡ ok tt)
count_agrees e f n m same = ground (arith, same)

-- The client's validator accepts a batch of entries, whose fields fit their machine types, exactly if
-- the program accepts it.
pub validate_post_assertion_entries_iff :
    (es : List ChainEntry)
    → All IsTyped es
    → (validate_post_assertion_entries (as_batch es) ≡ ok tt) ↔ (validate_entries es ≡ ok tt)
unfolding validate_post_assertion_entries validate_entries
validate_post_assertion_entries_iff es typed =
    >>-eq-ok _ (validate_from (as_batch es) 0) _ (validate_each es)
      (count_agrees _ _ (length (as_batch es)) (length es) (length-as_batch es))
      (each_agrees es 0 typed)

-- The entry of a leverage cap, as the program reads it.
abbrev pub cap_entry : String → ℕ → ℕ → ℕ → ChainEntry
cap_entry target a b bps = record {
  target_account = target;
  offset = a;
  value_len = 8;
  operator = 3;
  expected_value = 0 ∷ 0 ∷ 0 ∷ 0 ∷ 0 ∷ 0 ∷ 0 ∷ 0 ∷ [];
  assertion_mode = 0;
  cross_field_offset_b = b;
  cross_field_multiplier_bps = bps;
  cross_field_flags = 1;
}

abbrev pub cap_opts : String → String → ℕ → ℕ → ℕ → LeverageCapLteOpts
cap_opts target owner a b bps = record {
  target_account = target;
  target_account_owner_program = owner;
  field_a_offset = natural a;
  field_b_offset = natural b;
  max_bps = natural bps;
}

cap_entry-valid :
    (target : String) (a b bps : ℕ)
    → 1 ≤ bps
    → validate_entries (cap_entry target a b bps ∷ []) ≡ ok tt
unfolding validate_entries validate_each validate_entry
cap_entry-valid target a b bps h = ground (arith, h)

-- The builder of a leverage cap returns its entry, which the program accepts, exactly if the owner is
-- not the Jupiter Perpetuals program, the two offsets differ and fit 16 bits, and the cap is positive
-- and fits 32 bits.
pub leverage_cap_lte_bps_iff :
    (target owner : String) (a b bps : ℕ)
    → ((leverage_cap_lte_bps (cap_opts target owner a b bps)
          ≡ ok (as_client (cap_entry target a b bps)))
        × (validate_entries (cap_entry target a b bps ∷ []) ≡ ok tt))
      ↔ ((str_eq owner jupiter_perps_program_address ≡ false)
          × (a ≤ 65535)
          × (b ≤ 65535)
          × (a ≢ b)
          × (1 ≤ bps)
          × (bps ≤ 4294967295))
unfolding leverage_cap_lte_bps require_integer_in_range
leverage_cap_lte_bps_iff target owner a b bps = (
  λ (h, v). (
    ground (arith, h),
    ground (arith, h),
    ground (arith, h),
    ground (arith, h),
    ground (arith, h),
    ground (arith, h),
  ),
  λ (foreign, fits_a, fits_b, differ, positive, fits). (
    ground (arith, foreign, fits_a, fits_b, differ, positive, fits),
    cap_entry-valid target a b bps positive,
  ),
)
