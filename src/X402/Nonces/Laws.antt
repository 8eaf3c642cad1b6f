-- ===== src/X402/Nonces/Laws.antt =====
-- A recorded payment stays a duplicate for its window.
use phalnx.Base.{
  ℕ, ◌+◌, ◌≤◌, ◌≡◌, refl, Bool, true, false, List, [], ◌∷◌, Option, none, some, String, leb,
  filter_by, lookup, insert, lookup-insert, arith, eq_iff,
}
use phalnx.X402.Nonces.{
  NonceTracker, build_key, is_live, gc, is_stored, is_duplicate, check_or_throw, record_payment,
  size, NonceCall, checking, recording, sizing, step, run,
}

-- The key expires at `t` or later.
abbrev pub expires_from : ℕ → Option ℕ → Bool
expires_from t none = false
expires_from t (some expires_at) = leb t expires_at

kept_by_gc :
    (key : String) (t now : ℕ) (m : List (String × ℕ))
    → now ≤ t
    → expires_from t (lookup key m) ≡ true
    → expires_from t (lookup key (filter_by (is_live now) m)) ≡ true
kept_by_gc key t now [] h live = live
kept_by_gc key t now ((k, e) ∷ m) h live = ground (arith, live, kept_by_gc key t now m h)

kept_by_insert :
    (key k : String) (t e : ℕ) (m : List (String × ℕ))
    → t ≤ e
    → expires_from t (lookup key m) ≡ true
    → expires_from t (lookup key (insert k e m)) ≡ true
kept_by_insert key k t e m h live = ground (arith, lookup-insert k key e m, live)

stored : (t : ℕ) (o : Option ℕ) → expires_from t o ≡ true → is_stored o ≡ true
stored t none h = cc
stored t (some e) h = refl

-- The clock does not run backwards from `t` through the calls to `now`.
abbrev pub IsOrdered : ℕ → List (ℕ × NonceCall) → ℕ → Type 0
IsOrdered t [] now = t ≤ now
IsOrdered t ((u, call) ∷ calls) now = (t ≤ u) × IsOrdered u calls now

module _ {ℓ} {X : Type ℓ} (without_query : String → Option String)
    (has_external : X → String → Bool) (set_external : X → String → ℕ → X) where
  -- What a call keeps: the key's expiry, and the tracker's window.
  abbrev Holds : String → ℕ → ℕ → NonceTracker X → Type 0
  Holds key start ttl t =
      (expires_from (start + ttl) (lookup key t.storage) ≡ true) × (t.ttl_ms ≡ ttl)

  step-Holds :
      (key : String) (start ttl now : ℕ) (call : NonceCall) (t : NonceTracker X)
      → start ≤ now
      → now ≤ start + ttl
      → Holds key start ttl t
      → Holds key start ttl (step without_query has_external set_external now call t)
  unfolding step check_or_throw is_duplicate gc size record_payment
  step-Holds key start ttl now (checking u p a) t h soon (live, same) =
      (kept_by_gc key (start + ttl) now t.storage soon live, same)
  step-Holds key start ttl now (recording u p a) t h soon (live, same) = (
    kept_by_insert key (build_key without_query u p a) (start + ttl) (now + t.ttl_ms) t.storage
        (omega (arith, h, same)) live,
    same,
  )
  step-Holds key start ttl now sizing t h soon (live, same) =
      (kept_by_gc key (start + ttl) now t.storage soon live, same)

  ordered_le : (t : ℕ) (calls : List (ℕ × NonceCall)) (now : ℕ) → IsOrdered t calls now → t ≤ now
  ordered_le t [] now h = h
  ordered_le t ((u, call) ∷ calls) now (h, hs) = omega (arith, h, ordered_le u calls now hs)

  run-Holds :
      (key : String) (start ttl from now : ℕ) (calls : List (ℕ × NonceCall)) (t : NonceTracker X)
      → start ≤ from
      → IsOrdered from calls now
      → now ≤ start + ttl
      → Holds key start ttl t
      → Holds key start ttl (run without_query has_external set_external calls t)
  unfolding run
  run-Holds key start ttl from now [] t s h soon held = held
  run-Holds key start ttl from now ((u, call) ∷ calls) t s (h, hs) soon held =
      let in_time = ordered_le u calls now hs in
      run-Holds key start ttl u now calls (step without_query has_external set_external u call t)
        (omega arith) hs soon (step-Holds key start ttl u call t (omega arith) (omega arith) held)

  -- A payment recorded at `start` is a duplicate at every time up to the end of its window, whatever
  -- other payments are checked and recorded in between, as long as the clock does not run backwards;
  -- the external storage can add duplicates, and removes none.
  pub is_duplicate-record_payment :
      (url pay_to amount : String) (start now : ℕ) (calls : List (ℕ × NonceCall))
      (t : NonceTracker X)
      → IsOrdered start calls now
      → now ≤ start + t.ttl_ms
      → let t' = record_payment without_query has_external set_external url pay_to amount start t in
        (is_duplicate without_query has_external set_external url pay_to amount now
          (run without_query has_external set_external calls t')).0
        ≡ true
  unfolding is_duplicate gc record_payment
  is_duplicate-record_payment url pay_to amount start now calls t ordered soon =
      let key = build_key without_query url pay_to amount in
      let t' = record_payment without_query has_external set_external url pay_to amount start t in
      let fresh = lookup-insert key key (start + t.ttl_ms) t.storage in
      let held =
        run-Holds key start t.ttl_ms start now calls t' (omega arith) ordered soon
          (ground (arith, fresh, eq_iff key key), refl) in
      ground (
        arith,
        stored (start + t.ttl_ms) _ (
            kept_by_gc key (start + t.ttl_ms) now
              (run without_query has_external set_external calls t').storage soon held.0),
      )
