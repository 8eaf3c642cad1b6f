-- ===== src/X402/Codec/Laws.antt =====
-- Every payment option of a header that is decoded asks for an amount that a u64 holds.
use phalnx.Base.{
  ℕ, suc, ◌≤◌, ◌≡◌, refl, sym, ap, ◌∙◌, Bool, true, false, List, [], ◌∷◌, Option, none, some,
  String, Result, ok, err, >>=-eq-ok, ok-eq, if◌then◌else◌, All, arith,
}
use phalnx.Budget.{u64_max}
use phalnx.X402.{PaymentRequirements, ℤ, pos, negsuc}
use phalnx.X402.Codec.{
  AcceptsEntry, ParsedHeader, ParseError, required, non_empty, scheme_not_a_string,
  network_not_a_string, asset_not_a_string, amount_empty, pay_to_not_a_string, check_amount,
  check_entry, check_entries, check_accepts, validated, parsed, decode_payment_required_header,
}

module _ (base64_decode : String → Option String)
    (parse_json : String → Option (Option ParsedHeader)) (big_int : String → Option ℤ) where
  -- BigInt reads a number from 0 to the largest u64 from the amount.
  abbrev pub IsU64Amount : PaymentRequirements → Type 0
  IsU64Amount option = (n : ℕ) × (big_int option.amount ≡ some (pos n)) × (n ≤ u64_max)

  amount-bound :
      (i : ℕ) (read : Option ℤ)
      → check_amount i read ≡ ok tt
      → (n : ℕ) × (read ≡ some (pos n)) × (n ≤ u64_max)
  amount-bound i none h = cc h
  amount-bound i (some (negsuc n)) h = cc h
  amount-bound i (some (pos n)) h = (n, refl, ground (arith, h))

  check_entry-IsU64Amount :
      (i : ℕ) (entry : Option AcceptsEntry) (option : PaymentRequirements)
      → check_entry base64_decode parse_json big_int i entry ≡ ok option
      → IsU64Amount option
  unfolding check_entry
  check_entry-IsU64Amount i none option h = cc h
  check_entry-IsU64Amount i (some entry) option h =
      let (scheme, _, r1) = >>=-eq-ok (required (scheme_not_a_string i) entry.scheme) _ h in
      let (network, _, r2) = >>=-eq-ok (required (network_not_a_string i) entry.network) _ r1 in
      let (asset, _, r3) = >>=-eq-ok (required (asset_not_a_string i) entry.asset) _ r2 in
      let (amount, _, r4) = >>=-eq-ok (non_empty (amount_empty i) entry.amount) _ r3 in
      let (_, bounded, r5) = >>=-eq-ok (check_amount i (big_int amount)) _ r4 in
      let (pay_to, _, r6) = >>=-eq-ok (required (pay_to_not_a_string i) entry.pay_to) _ r5 in
      let same = ap (λ o. o.amount) (ok-eq r6) in
      let (n, read, bound) = amount-bound i (big_int amount) bounded in
      (n, ap big_int (sym same) ∙ read, bound)

  check_entries-All :
      (i : ℕ) (entries : List (Option AcceptsEntry)) (options : List PaymentRequirements)
      → check_entries base64_decode parse_json big_int i entries ≡ ok options
      → All IsU64Amount options
  unfolding check_entries
  check_entries-All i [] options h = rw (sym (ok-eq h)) tt
  check_entries-All i (entry ∷ entries) options h =
      let (first, h1, r1) = >>=-eq-ok (check_entry base64_decode parse_json big_int i entry) _ h in
      let (rest, h2, r2) =
        >>=-eq-ok (check_entries base64_decode parse_json big_int (suc i) entries) _ r1 in
      rw (sym (ok-eq r2))
        (check_entry-IsU64Amount i entry first h1, check_entries-All (suc i) entries rest h2)

  accepts-All :
      (accepts : Option (List (Option AcceptsEntry))) (options : List PaymentRequirements)
      → check_accepts base64_decode parse_json big_int accepts ≡ ok options
      → All IsU64Amount options
  accepts-All none options h = cc h
  accepts-All (some []) options h = cc h
  accepts-All (some (entry ∷ entries)) options h = check_entries-All 0 (entry ∷ entries) options h

  header-accepts :
      (test : Bool) (accepts : Result ParseError (List PaymentRequirements)) (e : ParseError)
      (options : List PaymentRequirements)
      → (if test then accepts else err e) ≡ ok options
      → accepts ≡ ok options
  header-accepts true accepts e options h = h
  header-accepts false accepts e options h = cc h

  validated-All :
      (header : Option (Option ParsedHeader)) (options : List PaymentRequirements)
      → validated base64_decode parse_json big_int header ≡ ok options
      → All IsU64Amount options
  validated-All none options h = cc h
  validated-All (some none) options h = cc h
  validated-All (some (some header)) options h =
      accepts-All header.accepts options (header-accepts header.version_is_number _ _ options h)

  -- Every payment option of a header that is decoded asks for an amount from which BigInt reads a
  -- number from 0 to the largest u64.
  pub decode_payment_required_header-All :
      (header : String) (options : List PaymentRequirements)
      → decode_payment_required_header base64_decode parse_json big_int header ≡ ok options
      → All IsU64Amount options
  unfolding decode_payment_required_header
  decode_payment_required_header-All header options h =
      validated-All (parsed base64_decode parse_json big_int (base64_decode header)) options h
