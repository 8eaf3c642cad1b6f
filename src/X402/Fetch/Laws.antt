-- ===== src/X402/Fetch/Laws.antt =====
-- What a payment that shieldedFetch reports as paid went through.
use mathlib.Core.Path.{subst}
use text.Mathlib.Text.{starts_with}
use phalnx.Base.{
  arith, some, ◌<◌, In, All-In, ℕ, ◌≡◌, refl, sym, ap, ◌∙◌, Bool, true, false, not, ◌||◌, List,
  Option, none, String, str_eq, Result, ok, err, ok-eq, >>=-eq-ok, throw_if, >=>-eq-ok, lift-eq-ok,
  if◌then◌else◌, ◌==◌,
}
use phalnx.X402.{pos, PaymentRequirements}
use phalnx.X402.Selector.{select_payment_option}
use phalnx.Shield.Context.{Context}
use phalnx.X402.Nonces.{NonceTracker}
use phalnx.X402.Amounts.{
  WithinCeiling, NoSpike, validate_payment_amount, validate_payment_amount_iff,
}
use phalnx.X402.Codec.{decode_payment_required_header}
use phalnx.X402.Codec.Laws.{IsU64Amount, decode_payment_required_header-All}
use phalnx.X402.Selector.Laws.{select_payment_option-eligible}
use phalnx.X402.Fetch.{
  FetchError, FetchConfig, FetchOptions, Settled, Response, PaymentState, FetchServices,
  already_attempted, not_parsed, not_selected, bad_amount, passed_through, paid,
}
use phalnx.X402.Fetch.Checks.{
  Step, answered, outside, mapped, check_url, check_nonce, check_replay, check_max, check_amount,
  evaluated, check_policy,
}
use phalnx.X402.Fetch.Approved.{
  IsSecure, OneOf, eligible-parts, IsUnseen, check_nonce-IsUnseen, check_url-IsSecure,
  check_max-within, mapped-ok, ShieldPermits, evaluated-permits,
}
use phalnx.X402.Fetch.Payment.Laws.{finish-paid}
use phalnx.X402.Fetch.Run.{make_payment, answer_402, shielded_fetch}

throw_if-ok : (test : Bool) (e : FetchError) → throw_if test e ≡ ok tt → test ≡ false
throw_if-ok true e h = cc
throw_if-ok false e h = refl

module _ {World : Type 0} (s : FetchServices World) (config : FetchConfig) (options : FetchOptions)
    (url : String) where
  -- What a payment that was made went through, by the time at which the first answer was there and the
  -- state in which the call found the program.
  pub record IsApproved (header : String) (now : ℕ) (tracker : NonceTracker (Unit {0}))
      (recent_amounts : List ℕ) (context : Option Context) (selected : PaymentRequirements)
      : Type 0 where
    pub accepts : List PaymentRequirements
    pub amount : ℕ
    pub first_attempt : options.sends_signature ≡ false
    pub not_dry : options.dry_run ≡ false
    pub decoded :
        decode_payment_required_header s.base64_decode s.parse_json s.big_int header ≡ ok accepts
    pub offered : In selected accepts
    pub on_solana : starts_with selected.network "solana:" ≡ true
    pub token : OneOf config.config.allowed_tokens selected.asset
    pub destination : OneOf config.config.allowed_destinations selected.pay_to
    pub unseen : IsUnseen s config.enable_replay_protection url selected now tracker
    pub spelled : s.big_int selected.amount ≡ some (pos amount)
    pub positive : 0 < amount
    pub payable : IsU64Amount s.base64_decode s.parse_json s.big_int selected
    pub below_ceiling : WithinCeiling config.config.max_payment_per_request amount
    pub no_spike : NoSpike recent_amounts amount
    pub below_max : WithinCeiling options.max_payment amount
    pub permitted : ShieldPermits s context config.config selected now

  check_amount-ok :
      (selected : PaymentRequirements) (st : PaymentState World) (amount : ℕ)
      → check_amount s config options selected st ≡ ok amount
      → (validate_payment_amount s.big_int config.config st.recent_amounts selected.amount
          ≡ ok amount)
        × (check_max s options.max_payment amount ≡ ok tt)
  unfolding check_amount
  check_amount-ok selected st amount h =
      let (a, valid, r) =
        >>=-eq-ok
          (mapped s bad_amount
            (validate_payment_amount s.big_int config.config st.recent_amounts selected.amount))
          _ h in
      let (_, below, r') = >>=-eq-ok (check_max s options.max_payment a) _ r in
      let same : a ≡ amount = ok-eq r' in
      let valid' = mapped-ok s bad_amount _ a valid in
      (valid' ∙ ap (λ x. ok x) same, ap (check_max s options.max_payment) (sym same) ∙ below)

  check_policy-ok :
      (selected : PaymentRequirements) (st st' : PaymentState World)
      → check_policy s config selected st ≡ (ok tt, st')
      → evaluated s st.context config.config selected (s.now_ms st.world) ≡ ok tt
  unfolding check_policy
  check_policy-ok selected st st' h = ap (λ x. x.0) h

  -- The check of the nonce leaves all but the tracker.
  check_replay-ok :
      (selected : PaymentRequirements) (st st' : PaymentState World)
      → check_replay s config url selected st ≡ (ok tt, st')
      → ((check_nonce s config.enable_replay_protection url selected
            (s.now_ms st.world)
            st.tracker).0
          ≡ ok tt)
        × (st'.recent_amounts ≡ st.recent_amounts)
        × (st'.context ≡ st.context)
        × (st'.world ≡ st.world)
  unfolding check_replay
  check_replay-ok selected st st' h = (
    ap (λ x. x.0) h,
    sym (ap (λ x. x.1.recent_amounts) h),
    sym (ap (λ x. x.1.context) h),
    sym (ap (λ x. x.1.world) h),
  )

  make_payment-made :
      (chosen selected : PaymentRequirements) (st st' : PaymentState World)
      → make_payment s config options url chosen st ≡ (ok (paid selected), st')
      → (amount : ℕ) × (validate_payment_amount s.big_int config.config st.recent_amounts
            chosen.amount
          ≡ ok amount)
        × (check_max s options.max_payment amount ≡ ok tt)
        × (evaluated s st.context config.config chosen (s.now_ms st.world) ≡ ok tt)
        × (options.dry_run ≡ false)
        × (chosen ≡ selected)
  unfolding make_payment
  make_payment-made chosen selected st st' h =
      let (amount, checked, r1) =
        lift-eq-ok (check_amount s config options chosen st) _ {w = st} h in
      let (_, st2, allowed, r2) = >=>-eq-ok (check_policy s config chosen) _ r1 in
      let (not_dry, same) = finish-paid s config options url chosen selected amount st2 st' r2 in
      let (valid, below) = check_amount-ok chosen st amount checked in
      (amount, valid, below, check_policy-ok chosen st st2 allowed, not_dry, same)

  answer_402-IsApproved :
      (header : String) (selected : PaymentRequirements) (st st' : PaymentState World)
      → answer_402 s config options url header st ≡ (ok (paid selected), st')
      → IsApproved header (s.now_ms st.world) st.tracker st.recent_amounts st.context selected
  unfolding answer_402
  answer_402-IsApproved header selected st st' h =
      let (_, first, r1) = lift-eq-ok (throw_if options.sends_signature already_attempted) _ h in
      let (accepts, decoded, r2) =
        lift-eq-ok
          (mapped s not_parsed
            (decode_payment_required_header s.base64_decode s.parse_json s.big_int header))
          _ r1 in
      let (chosen, chose, r3) =
        lift-eq-ok (mapped s not_selected (select_payment_option config.config accepts)) _ r2 in
      let (_, st1, seen, r4) = >=>-eq-ok (check_replay s config url chosen) _ r3 in
      let (fresh, recent, context, world) = check_replay-ok chosen st st1 seen in
      let (amount, valid, below, allowed, not_dry, same) =
        make_payment-made chosen selected st1 st' r4 in
      let was_decoded = mapped-ok s not_parsed _ accepts decoded in
      let (inside, eligible) =
        select_payment_option-eligible config.config accepts chosen
          (mapped-ok s not_selected _ chosen chose) in
      let (on_solana, token, destination) = eligible-parts config.config chosen eligible in
      let valid' =
        ap (λ amounts. validate_payment_amount s.big_int config.config amounts chosen.amount)
          (sym recent)
        ∙ valid in
      let (spelled, positive, ceiling, calm) =
        (validate_payment_amount_iff s.big_int config.config st.recent_amounts chosen.amount
            amount).0
          valid' in
      let allowed' =
        ap (λ c. evaluated s c config.config chosen (s.now_ms st1.world)) (sym context) ∙ allowed in
      let permitted = evaluated-permits s st.context config.config chosen _ allowed' in
      let approved : IsApproved header (s.now_ms st.world) st.tracker st.recent_amounts st.context
          chosen =
        record {
          accepts = accepts;
          amount = amount;
          first_attempt = throw_if-ok options.sends_signature already_attempted first;
          not_dry = not_dry;
          decoded = was_decoded;
          offered = inside;
          on_solana = on_solana;
          token = token;
          destination = destination;
          unseen =
              check_nonce-IsUnseen s config.enable_replay_protection url chosen (s.now_ms st.world)
                st.tracker fresh;
          spelled = spelled;
          positive = positive;
          payable =
              All-In (IsU64Amount s.base64_decode s.parse_json s.big_int) accepts chosen
                (decode_payment_required_header-All s.base64_decode s.parse_json s.big_int header
                  accepts was_decoded)
                inside;
          below_ceiling = ceiling;
          no_spike = calm;
          below_max = check_max-within s options.max_payment amount below;
          permitted =
              subst (λ x. ShieldPermits s st.context config.config chosen (s.now_ms x)) world
                permitted;
        } in
      subst (IsApproved header (s.now_ms st.world) st.tracker st.recent_amounts st.context) same
        approved

  answered-ok {κ} :
      {A : Type κ} (st st' : PaymentState World) (a : A) (r : Result String A × World)
      → answered s st r ≡ (ok a, st')
      → (w : World) × (record st { world = w } ≡ st') × (r ≡ (ok a, w))
  answered-ok st st' a (err message, w) h = cc (ap (λ x. x.0) h)
  answered-ok st st' a (ok b, w) h =
      let same : b ≡ a = ok-eq (ap (λ x. x.0) h) in (w, ap (λ x. x.1) h, ap (λ x. (ok x, w)) same)

  -- A response that is no unpaid 402 is passed through.
  unpaid-answered :
      (test : Bool) (task : Step s Settled) (selected : PaymentRequirements)
      (st st' : PaymentState World)
      → (if test then (λ st. (ok passed_through, st)) else task) st ≡ (ok (paid selected), st')
      → (test ≡ false) × (task st ≡ (ok (paid selected), st'))
  unpaid-answered true task selected st st' h = cc (ap (λ x. x.0) h)
  unpaid-answered false task selected st st' h = (refl, h)

  payment-asked :
      (response : Response)
      → (not (response.status == 402) || str_eq response.payment_required "") ≡ false
      → response.status ≡ 402
  payment-asked response h = ground (arith, h)

  -- A payment that shieldedFetch reports as paid answers a first response with status 402, and was for
  -- one of the options of that response's header: on Solana, in an allowed token, to an allowed
  -- destination, of a positive amount that a u64 holds, within the configured ceiling and the caller's
  -- maximum, and no spike. The URL is of HTTPS, or of HTTP where that is allowed; the caller's headers
  -- had no payment, and the call was no dry run. In the state that the call found and at the time of
  -- the response, the protection against replays was off or the payment had no record that was still
  -- live; and the caller's shield, if there is one, was not paused, the payment was within its
  -- cumulative limit, and its policies allowed the instruction that stands for the payment.
  pub shielded_fetch-IsApproved :
      (selected : PaymentRequirements) (st st' : PaymentState World)
      → shielded_fetch s config options url st ≡ (ok (paid selected), st')
      → (response : Response) × (w : World) × IsSecure config.allow_insecure_urls url
        × (s.request url none st.world ≡ (ok response, w))
        × (response.status ≡ 402)
        × IsApproved response.payment_required
            (s.now_ms w)
            st.tracker
            st.recent_amounts
            st.context
            selected
  unfolding shielded_fetch
  shielded_fetch-IsApproved selected st st' h =
      let (_, secure, r1) = lift-eq-ok (check_url s config.allow_insecure_urls url) _ {w = st} h in
      let (response, st1, requested, r2) = >=>-eq-ok (outside s (s.request url none)) _ r1 in
      let (w, same, from) = answered-ok st st1 response (s.request url none st.world) requested in
      let (asked, paid_for) =
        unpaid-answered (not (response.status == 402) || str_eq response.payment_required "")
          (answer_402 s config options url response.payment_required) selected st1 st' r2 in
      let approved = answer_402-IsApproved response.payment_required selected st1 st' paid_for in
      (
        response,
        w,
        check_url-IsSecure s config.allow_insecure_urls url secure,
        from,
        payment-asked response asked,
        subst
            (λ x.
              IsApproved response.payment_required (s.now_ms x.world) x.tracker x.recent_amounts
                x.context selected)
            (sym same) approved,
      )
