-- ===== src/Seal/Confirm.antt =====
-- sdk/kit/src/rpc-helpers.ts, sendAndConfirmTransaction: a signed transaction, sent and polled for
-- until it is confirmed, fails, or the time is over. The RPC node, the clock, the timer and Math.random
-- are parameters. Times are whole milliseconds.
pub mod Laws
use phalnx.Base.{
  ℕ, zero, suc, ◌+◌, ◌*◌, ◌/◌, ◌^◌, min, Bool, true, false, ◌&&◌, ◌||◌, Option, none, some, String,
  str_eq, Result, ok, err, Task, if◌then◌else◌, ltb,
}

pub data Commitment : Type 0 where
  processed confirmed finalized : Commitment

-- `failed` says that the status has an error; the level is a commitment's name.
pub record SignatureStatus : Type 0 where
  pub failed : Bool
  pub confirmation_status : String

pub data ConfirmError : Type 0 where
  tx_failed confirmation_timeout : String → ConfirmError
  rpc_error : String → ConfirmError

pub record ConfirmServices (World : Type 0) : Type 0 where
  pub send : String → Commitment → Task World ConfirmError String
  pub signature_status : String → Task World ConfirmError (Option SignatureStatus)
  pub now_ms : World → ℕ
  pub sleep : ℕ → World → World
  pub random : World → ℕ

pub record SendOptions : Type 0 where
  pub timeout_ms : Option ℕ
  pub poll_interval_ms : Option ℕ
  pub commitment : Option Commitment

abbrev pub or_default {ℓ} : {A : Type ℓ} → Option A → A → A
or_default none d = d
or_default (some a) d = a

abbrev is_processed : Commitment → Bool
is_processed processed = true
is_processed confirmed = false
is_processed finalized = false

-- Math.random() is a fraction of this number.
abbrev pub random_range : ℕ
random_range = 2 ^ 53

-- `Math.min(delay * (1.3 + Math.random() * 0.4), 5_000)`, in whole milliseconds.
abbrev pub next_delay : ℕ → ℕ → ℕ
next_delay random delay = min (delay * (13 * random_range + 4 * random) / (10 * random_range)) 5000

unfoldable pub is_sufficient : Commitment → String → Bool
is_sufficient commitment level =
    str_eq level "confirmed"
    || (str_eq level "finalized" || (is_processed commitment && str_eq level "processed"))

-- What a status decides: the transaction failed, it is confirmed, or nothing yet.
unfoldable pub decide :
    Commitment → String → Option SignatureStatus → Option (Result ConfirmError String)
unfolding is_sufficient
decide commitment signature none = none
decide commitment signature (some status) =
    if status.failed
    then some (err (tx_failed signature))
    else if is_sufficient commitment status.confirmation_status
    then some (ok signature)
    else none

module _ {World : Type 0} (s : ConfirmServices World) where
  abbrev pub Polled : Type 0
  Polled = Option (Result ConfirmError String × World)

  abbrev pub decided : Option (Result ConfirmError String) → World → Polled → Polled
  decided none w rest = rest
  decided (some result) w rest = some (result, w)

  -- One round: an error of the node ends the loop, and so does a status that decides.
  abbrev pub after_status :
      Commitment
      → String
      → Result ConfirmError (Option SignatureStatus) × World
      → (World → Polled)
      → Polled
  after_status commitment signature (err e, w) rest = some (err e, w)
  after_status commitment signature (ok status, w) rest =
      decided (decide commitment signature status) w (rest w)

  -- The loop on fuel: `none` where the fuel is over.
  unfoldable pub poll : ℕ → Commitment → String → ℕ → ℕ → World → Polled
  unfolding decide
  poll zero commitment signature deadline delay w = none
  poll (suc fuel) commitment signature deadline delay w =
      let round = after_status commitment signature (s.signature_status signature w) (λ w1.
        poll fuel commitment signature deadline (next_delay (s.random (s.sleep delay w1)) delay)
          (s.sleep delay w1)) in
      if ltb (s.now_ms w) deadline then round else some (err (confirmation_timeout signature), w)

  abbrev pub sent : ℕ → SendOptions → Result ConfirmError String × World → Polled
  sent fuel options (err e, w) = some (err e, w)
  sent fuel options (ok signature, w) =
      poll fuel (or_default options.commitment confirmed) signature
        (s.now_ms w + or_default options.timeout_ms 30000)
        (or_default options.poll_interval_ms 1000) w

  -- Every round takes a millisecond at least, so that as many rounds as the timeout has are enough.
  unfoldable pub send_and_confirm : String → SendOptions → World → Polled
  unfolding poll
  send_and_confirm transaction options w =
      sent (suc (or_default options.timeout_ms 30000)) options
        (s.send transaction (or_default options.commitment confirmed) w)
