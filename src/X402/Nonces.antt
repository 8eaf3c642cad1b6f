-- ===== src/X402/Nonces.antt =====
-- sdk/kit/src/x402/nonce-tracker.ts, the class NonceTracker: no payment twice within its window.
pub mod Laws
use phalnx.Base.{
  ℕ, ◌+◌, ◌-◌, Bool, true, false, not, ◌&&◌, ◌==◌, List, [], ◌∷◌, Option, none, some, String,
  str_eq, Result, ok, err, ltb, if◌then◌else◌, length, filter_by, lookup, insert,
}
use Prim.Native.String.{◌++◌ as joined, len, slice}

-- `X` is the external storage of the caller's.
pub record NonceTracker {ℓ} (X : Type ℓ) : Type ℓ where
  pub storage : List (String × ℕ)
  pub external_storage : Option X
  pub ttl_ms : ℕ

abbrev pub default_ttl_ms : ℕ
default_ttl_ms = 300000

abbrev or_default_ttl : Option ℕ → ℕ
or_default_ttl none = default_ttl_ms
or_default_ttl (some ms) = ms

unfoldable pub new_tracker {ℓ} : {X : Type ℓ} → Option ℕ → Option X → NonceTracker X
new_tracker ttl_ms external_storage = record {
  storage = [];
  external_storage = external_storage;
  ttl_ms = or_default_ttl ttl_ms;
}

-- `replace(/\/$/, "")`.
unfoldable pub drop_last_slash : String → String
drop_last_slash s =
    if not (len s == 0) && str_eq (slice s (len s - 1) (len s)) "/"
    then slice s 0 (len s - 1)
    else s

abbrev pub is_live : ℕ → String × ℕ → Bool
is_live cutoff entry = not (ltb entry.1 cutoff)

unfoldable pub gc {ℓ} : {X : Type ℓ} → ℕ → NonceTracker X → NonceTracker X
gc now t = record t { storage = filter_by (is_live now) t.storage }

abbrev pub is_stored : Option ℕ → Bool
is_stored none = false
is_stored (some expires_at) = true

unfoldable pub size {ℓ} : {X : Type ℓ} → ℕ → NonceTracker X → ℕ × NonceTracker X
unfolding gc
size now t = (length (gc now t).storage, gc now t)

unfoldable pub clear {ℓ} : {X : Type ℓ} → NonceTracker X → NonceTracker X
clear t = record t { storage = [] }

-- The calls that leave the recorded payments in place.
pub data NonceCall : Type 0 where
  checking : String → String → String → NonceCall
  recording : String → String → String → NonceCall
  sizing : NonceCall

-- The parameters: the URL class, parsing a text and printing it without its query, and the external
-- storage's `has` and `set`.
abbrev normalized : String → Option String → String
normalized url none = url
normalized url (some printed) = drop_last_slash printed

unfoldable pub build_key : (String → Option String) → String → String → String → String
unfolding drop_last_slash
build_key without_query url pay_to amount =
    joined (normalized url (without_query url)) (joined "|" (joined pay_to (joined "|" amount)))

module _ {ℓ} {X : Type ℓ} (without_query : String → Option String)
    (has_external : X → String → Bool) (set_external : X → String → ℕ → X) where
  abbrev pub is_external : Option X → String → Bool
  is_external none key = false
  is_external (some x) key = has_external x key

  -- The answer, and the tracker after it.
  unfoldable pub is_duplicate :
      String → String → String → ℕ → NonceTracker X → Bool × NonceTracker X
  unfolding gc
  is_duplicate url pay_to amount now t =
      let t' = gc now t in
      let key = build_key without_query url pay_to amount in
      (if is_stored (lookup key t'.storage) then true else is_external t'.external_storage key, t')

  -- X402ReplayError with the key.
  unfoldable pub check_or_throw :
      String → String → String → ℕ → NonceTracker X → Result String (Unit {0}) × NonceTracker X
  unfolding is_duplicate
  check_or_throw url pay_to amount now t =
      let (duplicate, t') = is_duplicate url pay_to amount now t in
      (if duplicate then err (build_key without_query url pay_to amount) else ok tt, t')

  abbrev stored_external : Option X → String → ℕ → Option X
  stored_external none key expires_at = none
  stored_external (some x) key expires_at = some (set_external x key expires_at)

  unfoldable pub record_payment : String → String → String → ℕ → NonceTracker X → NonceTracker X
  record_payment url pay_to amount now t =
      let key = build_key without_query url pay_to amount in
      record t {
        storage = insert key (now + t.ttl_ms) t.storage;
        external_storage = stored_external t.external_storage key (now + t.ttl_ms);
      }

  unfoldable pub step : ℕ → NonceCall → NonceTracker X → NonceTracker X
  unfolding check_or_throw size
  step now (checking url pay_to amount) t = (check_or_throw url pay_to amount now t).1
  step now (recording url pay_to amount) t = record_payment url pay_to amount now t
  step now sizing t = (size now t).1

  unfoldable pub run : List (ℕ × NonceCall) → NonceTracker X → NonceTracker X
  run [] t = t
  run ((now, call) ∷ calls) t = run calls (step now call t)
