-- ===== src/Seal/Confirm/Laws.antt =====
-- The polling ends, and a confirmed transaction was seen confirmed.
use phalnx.Base.{
  ℕ, zero, suc, ◌+◌, ◌≤◌, ◌<◌, ◌≡◌, refl, sym, ap, ◌∙◌, Bool, true, false, Option, none, some,
  String, Result, ok, err, ok-eq, if◌then◌else◌, ltb, arith,
}
use phalnx.Seal.Confirm.{
  Commitment, confirmed, SignatureStatus, ConfirmError, ConfirmServices, SendOptions, is_sufficient,
  decide, Polled, decided, after_status, poll, send_and_confirm, or_default, sent,
}

module _ {World : Type 0} (s : ConfirmServices World) where
  -- The loop ended.
  abbrev pub Ended : Polled s → Type 0
  Ended polled = (answer : Result ConfirmError String × World) × (polled ≡ some answer)

module _ {World : Type 0} (s : ConfirmServices World)
    (ticks : (delay : ℕ) (w : World) → s.now_ms w < s.now_ms (s.sleep delay w))
    (forward : (signature : String) (w : World)
      → s.now_ms w ≤ s.now_ms (s.signature_status signature w).1) where
  decided-Ended :
      (d : Option (Result ConfirmError String)) (w : World) (rest : Polled s)
      → Ended s rest
      → Ended s (decided s d w rest)
  decided-Ended none w rest h = h
  decided-Ended (some result) w rest h = ((result, w), refl)

  after_status-Ended :
      (commitment : Commitment) (signature : String)
      (r : Result ConfirmError (Option SignatureStatus) × World) (rest : World → Polled s)
      → Ended s (rest r.1)
      → Ended s (after_status s commitment signature r rest)
  after_status-Ended commitment signature (err e, w) rest h = ((err e, w), refl)
  after_status-Ended commitment signature (ok status, w) rest h =
      decided-Ended (decide commitment signature status) w (rest w) h

  if-Ended :
      (test : Bool) (round : Polled s) (over : Result ConfirmError String × World)
      → (test ≡ true → Ended s round)
      → Ended s (if test then round else some over)
  if-Ended true round over h = h refl
  if-Ended false round over h = (over, refl)

  -- With more fuel than milliseconds are left.
  poll-Ended :
      (fuel : ℕ) (commitment : Commitment) (signature : String) (deadline delay : ℕ) (w : World)
      → deadline ≤ s.now_ms w + fuel
      → Ended s (poll s (suc fuel) commitment signature deadline delay w)
  unfolding poll
  poll-Ended zero commitment signature deadline delay w h =
      if-Ended (ltb (s.now_ms w) deadline) _ _ λ early. ground (arith, early, h)
  poll-Ended (suc fuel) commitment signature deadline delay w h =
      if-Ended (ltb (s.now_ms w) deadline) _ _ λ early.
        after_status-Ended commitment signature (s.signature_status signature w) _ (
          poll-Ended fuel commitment signature deadline _ _
            (omega (arith, h, forward signature w, ticks delay (s.signature_status signature w).1)))

  sent-Ended :
      (options : SendOptions) (r : Result ConfirmError String × World)
      → Ended s (sent s (suc (or_default options.timeout_ms 30000)) options r)
  sent-Ended options (err e, w) = ((err e, w), refl)
  sent-Ended options (ok signature, w) =
      poll-Ended (or_default options.timeout_ms 30000) _ signature _ _ w (omega arith)

  -- A transaction that is sent is polled for in a loop that ends, in at most as many rounds as the
  -- timeout has milliseconds and one, if the timer waits a millisecond at least and the clock does not
  -- go back while the node is asked.
  pub send_and_confirm-Ended :
      (transaction : String) (options : SendOptions) (w : World)
      → Ended s (send_and_confirm s transaction options w)
  unfolding send_and_confirm
  send_and_confirm-Ended transaction options w =
      sent-Ended options (s.send transaction (or_default options.commitment confirmed) w)

module _ {World : Type 0} (s : ConfirmServices World) where
  -- The node's last answer is the status of the transaction: no error, and a sufficient level.
  abbrev pub IsConfirmed : Commitment → String → World → Type 0
  IsConfirmed commitment signature w' =
      (w : World) × (status : SignatureStatus) × (s.signature_status signature w
        ≡ (ok (some status), w'))
      × (status.failed ≡ false)
      × (is_sufficient commitment status.confirmation_status ≡ true)

  some-eq {ℓ} : {A : Type ℓ} {a b : A} → some a ≡ some b → a ≡ b
  some-eq h = cc

  decide-ok :
      (commitment : Commitment) (signature : String) (status : Option SignatureStatus)
      (sig : String)
      → decide commitment signature status ≡ some (ok sig)
      → (st : SignatureStatus) × (status ≡ some st)
        × (st.failed ≡ false)
        × (is_sufficient commitment st.confirmation_status ≡ true)
        × (sig ≡ signature)
  unfolding decide
  decide-ok commitment signature none sig h = cc h
  decide-ok commitment signature (some st) sig h =
      (st, refl, ground (arith, h), ground (arith, h), ground (arith, h))

  decided-IsConfirmed :
      (commitment : Commitment) (signature : String) (status : Option SignatureStatus)
      (w1 w2 : World) (rest : Polled s) (answer : String) (w' : World)
      → s.signature_status signature w1 ≡ (ok status, w2)
      → (rest ≡ some (ok answer, w') → (answer ≡ signature) × IsConfirmed commitment signature w')
      → (d : Option (Result ConfirmError String)) → decide commitment signature status ≡ d
      → decided s d w2 rest ≡ some (ok answer, w')
      → (answer ≡ signature) × IsConfirmed commitment signature w'
  decided-IsConfirmed commitment signature status w1 w2 rest answer w' asked later none e h =
      later h
  decided-IsConfirmed commitment signature status w1 w2 rest answer w' asked later (some (err x)) e
        h =
      cc h
  decided-IsConfirmed commitment signature status w1 w2 rest answer w' asked later (some (ok sig)) e
        h =
      let same = some-eq h in
      let (st, present, well, enough, own) = decide-ok commitment signature status sig e in
      (
        sym (ok-eq (ap (λ x. x.0) same)) ∙ own,
        (
          w1,
          st,
          asked ∙ ap (λ x. (ok x, w2)) present ∙ ap (λ x. (ok (some st), x)) (ap (λ x. x.1) same),
          well,
          enough,
        ),
      )

  after_status-IsConfirmed :
      (commitment : Commitment) (signature : String) (w1 : World)
      (r : Result ConfirmError (Option SignatureStatus) × World) (rest : World → Polled s)
      (answer : String) (w' : World)
      → s.signature_status signature w1 ≡ r
      → ((w : World)
          → rest w ≡ some (ok answer, w')
          → (answer ≡ signature) × IsConfirmed commitment signature w')
      → after_status s commitment signature r rest ≡ some (ok answer, w')
      → (answer ≡ signature) × IsConfirmed commitment signature w'
  after_status-IsConfirmed commitment signature w1 (err e, w2) rest answer w' asked later h =
      cc (ap (λ x. x.0) (some-eq h))
  after_status-IsConfirmed commitment signature w1 (ok status, w2) rest answer w' asked later h =
      decided-IsConfirmed commitment signature status w1 w2 (rest w2) answer w' asked (later w2)
        (decide commitment signature status) refl h

  if-IsConfirmed :
      (test : Bool) (round : Polled s) (e : ConfirmError) (w : World) (answer : String) (w' : World)
      → (if test then round else some (err e, w)) ≡ some (ok answer, w')
      → round ≡ some (ok answer, w')
  if-IsConfirmed true round e w answer w' h = h
  if-IsConfirmed false round e w answer w' h = cc (ap (λ x. x.0) (some-eq h))

  poll-IsConfirmed :
      (fuel : ℕ) (commitment : Commitment) (signature : String) (deadline delay : ℕ) (w : World)
      (answer : String) (w' : World)
      → poll s fuel commitment signature deadline delay w ≡ some (ok answer, w')
      → (answer ≡ signature) × IsConfirmed commitment signature w'
  unfolding poll
  poll-IsConfirmed zero commitment signature deadline delay w answer w' h = cc h
  poll-IsConfirmed (suc fuel) commitment signature deadline delay w answer w' h =
      after_status-IsConfirmed commitment signature w (s.signature_status signature w) _ answer w'
        refl (λ w1 later. poll-IsConfirmed fuel commitment signature deadline _ _ answer w' later)
        (if-IsConfirmed (ltb (s.now_ms w) deadline) _ _ w answer w' h)

  sent-IsConfirmed :
      (options : SendOptions) (fuel : ℕ) (r : Result ConfirmError String × World) (answer : String)
      (w' : World)
      → sent s fuel options r ≡ some (ok answer, w')
      → IsConfirmed (or_default options.commitment confirmed) answer w'
  sent-IsConfirmed options fuel (err e, w) answer w' h = cc (ap (λ x. x.0) (some-eq h))
  sent-IsConfirmed options fuel (ok signature, w) answer w' h =
      let (same, seen) = poll-IsConfirmed fuel _ signature _ _ w answer w' h in rw same seen

  -- The signature that is answered is one whose last status the node gave without an error and at a
  -- level that is confirmed, finalized, or, for the commitment `processed`, processed.
  pub send_and_confirm-IsConfirmed :
      (transaction : String) (options : SendOptions) (w : World) (answer : String) (w' : World)
      → send_and_confirm s transaction options w ≡ some (ok answer, w')
      → IsConfirmed (or_default options.commitment confirmed) answer w'
  unfolding send_and_confirm
  send_and_confirm-IsConfirmed transaction options w answer w' h =
      sent-IsConfirmed options (suc (or_default options.timeout_ms 30000))
        (s.send transaction (or_default options.commitment confirmed) w) answer w' h
