-- ===== src/Budget/Protocol/Laws.antt =====
-- bytesMatchAddress decides equality of keys of 32 bytes, and getProtocolSpend reads one counter.
use phalnx.Base.{
  ℕ, zero, suc, ◌-◌, ◌/◌, ◌<◌, ◌≡◌, ◌≢◌, ◌↔◌, refl, ap, ◌∙◌, true, List, [], ◌∷◌, String, length,
  arith, ◌==◌, if◌then◌else◌, All, inl, inr, Bool-cases, ◌++◌, ltb,
}
use phalnx.Budget.{ProtocolSpendCounter, SpendTracker, epoch_duration, num_epochs}
use phalnx.Budget.Protocol.{bytes_match_address, places_match, counted_spend, get_protocol_spend}

places_match-suc :
    (rounds i : ℕ) (x y : ℕ) (xs ys : List ℕ)
    → places_match rounds (suc i) (x ∷ xs) (y ∷ ys) ≡ places_match rounds i xs ys
unfolding places_match
places_match-suc zero i x y xs ys = refl
places_match-suc (suc rounds) i x y xs ys =
    ground (arith, places_match-suc rounds (suc i) x y xs ys)

places_match_iff :
    (xs ys : List ℕ) → length xs ≡ length ys → (places_match (length xs) 0 xs ys ≡ true) ↔ (xs ≡ ys)
unfolding places_match
places_match_iff [] [] h = ground arith
places_match_iff [] (y ∷ ys) h = absurd (omega arith)
places_match_iff (x ∷ xs) [] h = absurd (omega arith)
places_match_iff (x ∷ xs) (y ∷ ys) h = ground (
  arith,
  places_match-suc (length xs) 0 x y xs ys,
  (places_match_iff xs ys (omega arith)).0,
  (places_match_iff xs ys (omega arith)).1,
)

module _ (encode : String → List ℕ) (encodes_32 : (a : String) → length (encode a) ≡ 32) where
  -- Under an encoder into 32 bytes, the byte loop accepts exactly the encoding of the address.
  pub bytes_match_address_iff :
      (bytes : List ℕ) (addr : String)
      → (bytes_match_address encode bytes addr ≡ true) ↔ (bytes ≡ encode addr)
  unfolding bytes_match_address
  bytes_match_address_iff bytes addr = (forth, back)
    where
      forth : bytes_match_address encode bytes addr ≡ true → bytes ≡ encode addr
      forth h = elim (Bool-cases (length bytes == length (encode addr))) [
        | inl e ↦
            let n : length bytes ≡ 32 = ground (arith, encodes_32 addr) in
            (places_match_iff bytes (encode addr) (ground arith)).0 (rw n (ground arith))
        | inr e ↦ ground arith
      ]

      back : bytes ≡ encode addr → bytes_match_address encode bytes addr ≡ true
      back e =
          let n : length bytes ≡ 32 = ap length e ∙ encodes_32 addr in
          let same : places_match 32 0 bytes (encode addr) ≡ true =
            rw n at ((places_match_iff bytes (encode addr) (ap length e)).1 e) in
          ground (arith, ap length e)

  counted_spend_found :
      (current : ℕ) (protocol : String) (before after : List ProtocolSpendCounter)
      (counter : ProtocolSpendCounter)
      → All (λ c. c.protocol ≢ encode protocol) before
      → counter.protocol ≡ encode protocol
      → counted_spend encode current protocol (before ++ counter ∷ after)
        ≡ (if ltb (current - counter.window_start) num_epochs then counter.window_spend else 0)
  unfolding counted_spend
  counted_spend_found current protocol [] after counter none_before e =
      ground (arith, (bytes_match_address_iff counter.protocol protocol).1 e)
  counted_spend_found current protocol (c ∷ before) after counter (differs, rest) e = ground (
    arith,
    (bytes_match_address_iff c.protocol protocol).0,
    counted_spend_found current protocol before after counter rest e,
  )

  -- At a time after 0 and under an encoder into 32 bytes, the spend of a protocol is that of the
  -- first counter with its key while that counter's window is younger than 144 epochs, and 0 from
  -- then on.
  pub get_protocol_spend_found :
      (tracker : SpendTracker) (protocol : String) (now : ℕ)
      (before after : List ProtocolSpendCounter) (counter : ProtocolSpendCounter)
      → 0 < now
      → tracker.protocol_counters ≡ before ++ counter ∷ after
      → All (λ c. c.protocol ≢ encode protocol) before
      → counter.protocol ≡ encode protocol
      → get_protocol_spend encode tracker protocol now ≡ (
          if ltb (now / epoch_duration - counter.window_start) num_epochs
          then counter.window_spend
          else 0)
  unfolding get_protocol_spend
  get_protocol_spend_found tracker protocol now before after counter h shape none_before e =
      ground (
        arith,
        ap (counted_spend encode (now / epoch_duration) protocol) shape,
        counted_spend_found (now / epoch_duration) protocol before after counter none_before e,
      )
