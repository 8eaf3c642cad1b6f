-- ===== src/X402/Codec.antt =====
-- sdk/kit/src/x402/codec.ts, decodePaymentRequiredHeader: a header, decoded and validated.
pub mod Laws
use phalnx.Base.{
  ℕ, suc, Bool, true, false, not, List, [], ◌∷◌, Option, none, some, String, str_eq, Result, ok,
  err, ◌>>=◌, if◌then◌else◌, ltb,
}
use phalnx.Budget.{u64_max}
use phalnx.X402.{PaymentRequirements, ℤ, pos, negsuc}

-- An entry of `accepts` as JSON.parse gives it: a field is `none` where it is no text. The checks do
-- not look at `maxTimeoutSeconds`.
pub record AcceptsEntry : Type 0 where
  pub scheme : Option String
  pub network : Option String
  pub asset : Option String
  pub amount : Option String
  pub pay_to : Option String
  pub max_timeout_seconds : ℕ

-- The parsed header, by what the checks read: whether the version is a number, and `accepts`, if it is
-- an array, an entry of which is `none` where it is null.
pub record ParsedHeader : Type 0 where
  pub version_is_number : Bool
  pub accepts : Option (List (Option AcceptsEntry))

-- X402ParseError, by the check that throws it. Reading a field of null throws a TypeError.
pub data ParseError : Type 0 where
  not_decoded version_not_a_number accepts_not_an_array : ParseError
  scheme_not_a_string network_not_a_string asset_not_a_string amount_empty : ℕ → ParseError
  amount_negative amount_above_u64 amount_not_an_integer pay_to_not_a_string : ℕ → ParseError
  type_error : ParseError

abbrev pub required : ParseError → Option String → Result ParseError String
required e none = err e
required e (some text) = ok text

abbrev pub non_empty : ParseError → Option String → Result ParseError String
non_empty e none = err e
non_empty e (some text) = if str_eq text "" then err e else ok text

abbrev pub check_amount : ℕ → Option ℤ → Result ParseError (Unit {0})
check_amount i none = err (amount_not_an_integer i)
check_amount i (some (negsuc n)) = err (amount_negative i)
check_amount i (some (pos n)) = if ltb u64_max n then err (amount_above_u64 i) else ok tt

-- The parameters: atob, JSON.parse (null is `some none`), and BigInt.
module _ (base64_decode : String → Option String)
    (parse_json : String → Option (Option ParsedHeader)) (big_int : String → Option ℤ) where
  unfoldable pub check_entry : ℕ → Option AcceptsEntry → Result ParseError PaymentRequirements
  check_entry i none = err type_error
  check_entry i (some entry) = required (scheme_not_a_string i) entry.scheme >>= λ scheme.
      required (network_not_a_string i) entry.network >>= λ network.
      required (asset_not_a_string i) entry.asset >>= λ asset.
      non_empty (amount_empty i) entry.amount >>= λ amount. check_amount i (big_int amount) >>= λ _.
      required (pay_to_not_a_string i) entry.pay_to >>= λ pay_to. ok record {
        scheme = scheme;
        network = network;
        asset = asset;
        amount = amount;
        pay_to = pay_to;
        max_timeout_seconds = entry.max_timeout_seconds;
      }

  unfoldable pub check_entries :
      ℕ → List (Option AcceptsEntry) → Result ParseError (List PaymentRequirements)
  unfolding check_entry
  check_entries i [] = ok []
  check_entries i (entry ∷ entries) =
      check_entry i entry >>= λ first. check_entries (suc i) entries >>= λ rest. ok (first ∷ rest)

  abbrev pub check_accepts :
      Option (List (Option AcceptsEntry)) → Result ParseError (List PaymentRequirements)
  check_accepts none = err accepts_not_an_array
  check_accepts (some []) = err accepts_not_an_array
  check_accepts (some (entry ∷ entries)) = check_entries 0 (entry ∷ entries)

  abbrev pub parsed : Option String → Option (Option ParsedHeader)
  parsed none = none
  parsed (some json) = parse_json json

  abbrev pub validated : Option (Option ParsedHeader) → Result ParseError (List PaymentRequirements)
  validated none = err not_decoded
  validated (some none) = err type_error
  validated (some (some header)) =
      if header.version_is_number then check_accepts header.accepts else err version_not_a_number

  -- The payment options of the header.
  unfoldable pub decode_payment_required_header :
      String → Result ParseError (List PaymentRequirements)
  unfolding check_entries
  decode_payment_required_header header = validated (parsed (base64_decode header))
