-- ===== src/Shield/Signer/Session.antt =====
-- Which transactions the signer lets through in a session.
use mathlib.Core.Path.{subst}
use phalnx.Base.{
  All-map, false, inl, inr, ◌≢◌, none, some, ap, ◌∙◌, eq_iff, Bool-cases, filter_by, get_elem?, ℕ,
  ◌≡◌, ◌↔◌, refl, Bool, true, List, [], ◌∷◌, ◌++◌, Option, String, Result, ok, err, All, arith,
}
use phalnx.Shield.Context.{Context}
use phalnx.Shield.Compiled.{CompiledInstruction, CompiledMessage}
use phalnx.Shield.Signer.{
  is_sandwich, is_sigil, is_at, last_of, sigil_program_address,
  validate_and_authorize_discriminator, finalize_session_discriminator, ShieldedSignerOptions,
  SignerError, hard, check_session_binding, is_bound, matches_discriminator, check_transaction,
  record_signed, check_transactions, continue,
}

-- The bytes match exactly if they begin with the discriminator.
pub matches_discriminator_iff :
    (bytes disc : List ℕ)
    → (matches_discriminator bytes disc ≡ true) ↔ ((rest : List ℕ) × (bytes ≡ disc ++ rest))
unfolding matches_discriminator
matches_discriminator_iff bytes [] = (λ h. (bytes, refl), λ h. refl)
matches_discriminator_iff [] (d ∷ disc) = (λ h. cc, λ (rest, e). cc)
matches_discriminator_iff (b ∷ bytes) (d ∷ disc) = (
  λ h.
      let (rest, e) = (matches_discriminator_iff bytes disc).0 (ground (arith, h)) in
      (rest, ground (arith, h, e)),
  λ (rest, e).
      ground (arith, e, (matches_discriminator_iff bytes disc).1 (rest, ground (arith, e))),
)

-- The instruction calls the program.
abbrev pub IsCall : CompiledMessage → CompiledInstruction → Type 0
IsCall m ix = get_elem? m.static_accounts ix.program_address_index ≡ some sigil_program_address

abbrev pub NoCall : CompiledMessage → CompiledInstruction → Type 0
NoCall m ix = get_elem? m.static_accounts ix.program_address_index ≢ some sigil_program_address

-- The first call of the program validates, and the last one finalizes.
pub record IsSession (m : CompiledMessage) : Type 0 where
  pub first : CompiledInstruction
  pub last : CompiledInstruction
  pub before : List CompiledInstruction
  pub rest : List CompiledInstruction
  pub front : List CompiledInstruction
  pub after : List CompiledInstruction
  pub first_bytes : List ℕ
  pub last_bytes : List ℕ
  pub starts : m.instructions ≡ before ++ first ∷ rest
  pub first_call : IsCall m first
  pub none_before : All (NoCall m) before
  pub ends : m.instructions ≡ front ++ last ∷ after
  pub last_call : IsCall m last
  pub none_after : All (NoCall m) after
  pub validates : first.bytes ≡ validate_and_authorize_discriminator ++ first_bytes
  pub finalizes : last.bytes ≡ finalize_session_discriminator ++ last_bytes

abbrev pub IsBound : Option CompiledMessage → Type 0
IsBound msg = (m : CompiledMessage) × (msg ≡ some m) × IsSession m

is_at-some : (o : Option String) → is_at o ≡ true → o ≡ some sigil_program_address
is_at-some none h = cc h
is_at-some (some a) h = ap (λ x. some x) ((eq_iff a sigil_program_address).0 h)

is_at-other : (o : Option String) → is_at o ≡ false → o ≢ some sigil_program_address
is_at-other none h e = cc e
is_at-other (some a) h e =
    let same : a ≡ sigil_program_address = ground (arith, e) in
    let equal = (eq_iff a sigil_program_address).1 same in cc

other_call : (m : CompiledMessage) (ix : CompiledInstruction) → is_sigil m ix ≡ false → NoCall m ix
other_call m ix h = is_at-other (get_elem? m.static_accounts ix.program_address_index) h

abbrev Fails : (CompiledInstruction → Bool) → CompiledInstruction → Type 0
Fails test x = test x ≡ false

-- A list around its first entry that passes a test, and around its last one.
record First (test : CompiledInstruction → Bool) (xs : List CompiledInstruction)
    (y : CompiledInstruction) : Type 0 where
  before : List CompiledInstruction
  rest : List CompiledInstruction
  splits : xs ≡ before ++ y ∷ rest
  passes : test y ≡ true
  fail : All (Fails test) before

record Last (test : CompiledInstruction → Bool) (xs : List CompiledInstruction)
    (y : CompiledInstruction) : Type 0 where
  front : List CompiledInstruction
  after : List CompiledInstruction
  splits : xs ≡ front ++ y ∷ after
  passes : test y ≡ true
  fail : All (Fails test) after

module _ (test : CompiledInstruction → Bool) where
  none_pass : (xs : List CompiledInstruction) → filter_by test xs ≡ [] → All (Fails test) xs
  none_pass [] h = tt
  none_pass (x ∷ xs) h = elim (Bool-cases (test x)) [
    | inl passes ↦ ground (arith, h, passes)
    | inr fails ↦ (fails, none_pass xs (ground (arith, h, fails)))
  ]

  filtered-First :
      (xs : List CompiledInstruction) (y : CompiledInstruction) (ys : List CompiledInstruction)
      → filter_by test xs ≡ y ∷ ys
      → First test xs y
  filtered-First [] y ys h = cc
  filtered-First (x ∷ xs) y ys h = elim (Bool-cases (test x)) [
    | inl passes ↦
        let same : x ≡ y = ground (arith, h, passes) in
        subst (First test (x ∷ xs)) same
          record { before = []; rest = xs; splits = refl; passes = passes; fail = tt }
    | inr fails ↦
        let inner = filtered-First xs y ys (ground (arith, h, fails)) in
        record {
          before = x ∷ inner.before;
          rest = inner.rest;
          splits = ap (λ l. x ∷ l) inner.splits;
          passes = inner.passes;
          fail = (fails, inner.fail);
        }
  ]

  cons-Last :
      (x : CompiledInstruction) (xs : List CompiledInstruction) (y : CompiledInstruction)
      → Last test xs y
      → Last test (x ∷ xs) y
  cons-Last x xs y inner = record {
    front = x ∷ inner.front;
    after = inner.after;
    splits = ap (λ l. x ∷ l) inner.splits;
    passes = inner.passes;
    fail = inner.fail;
  }

  head-Last :
      (x : CompiledInstruction) (xs rest : List CompiledInstruction)
      → test x ≡ true
      → filter_by test xs ≡ rest
      → ((y : CompiledInstruction) (ys : List CompiledInstruction)
          → rest ≡ y ∷ ys
          → Last test xs (last_of y ys))
      → Last test (x ∷ xs) (last_of x rest)
  head-Last x xs [] passes e inner = record {
    front = [];
    after = xs;
    splits = refl;
    passes = passes;
    fail = none_pass xs e;
  }
  head-Last x xs (y ∷ ys) passes e inner = cons-Last x xs (last_of y ys) (inner y ys refl)

  filtered-Last :
      (xs : List CompiledInstruction) (y : CompiledInstruction) (ys : List CompiledInstruction)
      → filter_by test xs ≡ y ∷ ys
      → Last test xs (last_of y ys)
  filtered-Last [] y ys h = cc
  filtered-Last (x ∷ xs) y ys h = elim (Bool-cases (test x)) [
    | inl passes ↦
        let same : x ≡ y = ground (arith, h, passes) in
        let rest : filter_by test xs ≡ ys = ground (arith, h, passes) in
        subst (λ z. Last test (x ∷ xs) (last_of z ys)) same
          (head-Last x xs ys passes rest λ z zs e. filtered-Last xs z zs (rest ∙ e))
    | inr fails ↦ cons-Last x xs (last_of y ys) (filtered-Last xs y ys (ground (arith, h, fails)))
  ]

session :
    (m : CompiledMessage) (calls : List CompiledInstruction)
    → filter_by (is_sigil m) m.instructions ≡ calls
    → is_sandwich calls ≡ true
    → IsSession m
unfolding is_sandwich
session m [] e h = cc h
session m (ix ∷ rest) e h =
    let first = filtered-First (is_sigil m) m.instructions ix rest e in
    let last = filtered-Last (is_sigil m) m.instructions ix rest e in
    let validates =
      (matches_discriminator_iff ix.bytes validate_and_authorize_discriminator).0
        (ground (arith, h)) in
    let finalizes =
      (matches_discriminator_iff (last_of ix rest).bytes finalize_session_discriminator).0
        (ground (arith, h)) in
    record {
      first = ix;
      last = last_of ix rest;
      before = first.before;
      rest = first.rest;
      front = last.front;
      after = last.after;
      first_bytes = validates.0;
      last_bytes = finalizes.0;
      starts = first.splits;
      first_call = is_at-some _ first.passes;
      none_before = All-map (other_call m) first.before first.fail;
      ends = last.splits;
      last_call = is_at-some _ last.passes;
      none_after = All-map (other_call m) last.after last.fail;
      validates = validates.1;
      finalizes = finalizes.1;
    }

is_bound-IsBound : (msg : Option CompiledMessage) → is_bound msg ≡ true → IsBound msg
unfolding is_bound
is_bound-IsBound none h = cc h
is_bound-IsBound (some m) h = (m, refl, session m _ refl (ground (arith, h)))

module _ (cache : Option (String → Option (List String)))
    (simulation_succeeds : Option CompiledMessage → Bool) (options : ShieldedSignerOptions)
    (signer : String) (now : ℕ) where
  check_transaction-bound :
      (msg : Option CompiledMessage) (c : Context) (u : Unit {0})
      → options.session_context ≡ true
      → options.session_binding_severity ≡ hard
      → check_transaction cache simulation_succeeds options signer now msg c ≡ ok u
      → is_bound msg ≡ true
  unfolding check_transaction check_session_binding
  check_transaction-bound msg c u in_session strict h = ground (arith, h, in_session, strict)

  step_bound :
      (msg : Option CompiledMessage) (c : Context) (r : Result SignerError (Unit {0}))
      (rest : (Result SignerError (Unit {0})) × Context)
      → check_transaction cache simulation_succeeds options signer now msg c ≡ r
      → options.session_context ≡ true
      → options.session_binding_severity ≡ hard
      → (continue cache simulation_succeeds r rest c).0 ≡ ok tt
      → (is_bound msg ≡ true) × (rest.0 ≡ ok tt)
  step_bound msg c (ok u) rest e in_session strict h =
      (check_transaction-bound msg c u in_session strict e, h)
  step_bound msg c (err d) rest e in_session strict h = cc

  -- With a session context and hard severity, the signer's checks pass only if each transaction is a
  -- message in which the first call of the program begins with the discriminator of
  -- validate_and_authorize and the last one with that of finalize_session: before the first and after
  -- the last there is no call of the program.
  pub check_transactions-IsBound :
      (msgs : List (Option CompiledMessage)) (c : Context)
      → options.session_context ≡ true
      → options.session_binding_severity ≡ hard
      → (check_transactions cache simulation_succeeds options signer now msgs c).0 ≡ ok tt
      → All IsBound msgs
  unfolding check_transactions
  check_transactions-IsBound [] c in_session strict h = tt
  check_transactions-IsBound (msg ∷ msgs) c in_session strict h =
      let c' = record_signed cache simulation_succeeds signer now msg c in
      let (bound, onward) =
        step_bound msg c (check_transaction cache simulation_succeeds options signer now msg c)
          (check_transactions cache simulation_succeeds options signer now msgs c') refl in_session
          strict h in
      (is_bound-IsBound msg bound, check_transactions-IsBound msgs c' in_session strict onward)
