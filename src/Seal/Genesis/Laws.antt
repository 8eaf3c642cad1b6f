-- ===== src/Seal/Genesis/Laws.antt =====
-- The retries, the cluster that a client is made for, and the cache of hashes.
use Prim.Native.String.{len}
use mathlib.Core.Path.{subst}
use phalnx.Base.{
  inl, inr, ◌⊎◌, ℕ, zero, suc, ◌*◌, ◌^◌, ◌≤◌, ◌≡◌, ◌↔◌, refl, sym, ap, ◌∙◌, Bool, true, false, List,
  [], ◌∷◌, Option, none, some, String, str_eq, eq_iff, Result, ok, err, Task, guard, lift,
  >=>-eq-ok, continue, ok-eq, ltb, lookup, insert, lookup-insert, All, arith,
}
use phalnx.Network.{Network}
use phalnx.Seal.Genesis.{
  HashCache, ClientError, genesis_mismatch, base_delay_ms, after_attempt, with_retry, remembered,
  fetched, observe, assert_genesis_hash, expected_hash,
}

module _ {ℓ} {World : Type ℓ} (sleep : ℕ → World → World) where
  -- The operation answers within the attempts `suc left` from attempt `i` on: each attempt before
  -- fails, and the next is made after a wait of 200 ms times 2 to the power of its number.
  pub data Answers {κ μ} {E : Type κ} {A : Type μ} (op : Task World E A) (a : A) (w' : World)
      : ℕ → ℕ → World → Type (ℓ ⊔ κ ⊔ μ) where
    now : {left i : ℕ} {w : World} → op w ≡ (ok a, w') → Answers op a w' left i w
    later :
        {left i : ℕ} {w w1 : World} {e : E}
        → op w ≡ (err e, w1)
        → Answers op a w' left (suc i) (sleep (base_delay_ms sleep * 2 ^ i) w1)
        → Answers op a w' (suc left) i w

  module _ {κ μ} {E : Type κ} {A : Type μ} (op : Task World E A) where
    answers-retry :
        {a : A} {w' : World} {left i : ℕ} {w : World}
        → Answers op a w' left i w
        → with_retry sleep op left i w ≡ (ok a, w')
    unfolding with_retry
    answers-retry {left = zero} (now h) = rw h refl
    answers-retry {left = suc left} (now h) = rw h refl
    answers-retry (later h rest) = rw h (answers-retry rest)

    -- An attempt, with its answer.
    split {ν} :
        {P : Type ν} (i : ℕ) (w w' : World) (a : A) (again : World → Result E A × World)
        (r : Result E A × World)
        → op w ≡ r
        → after_attempt sleep i r again ≡ (ok a, w')
        → ((w1 : World) (e : E)
            → op w ≡ (err e, w1)
            → again (sleep (base_delay_ms sleep * 2 ^ i) w1) ≡ (ok a, w')
            → P)
        → (op w ≡ (ok a, w') → P)
        → P
    split i w w' a again (ok b, w1) e h retried answered = answered (e ∙ h)
    split i w w' a again (err x, w1) e h retried answered = retried w1 x e h

    retry-answers :
        (left i : ℕ) (w w' : World) (a : A)
        → with_retry sleep op left i w ≡ (ok a, w')
        → Answers op a w' left i w
    unfolding with_retry
    retry-answers zero i w w' a h = now h
    retry-answers (suc left) i w w' a h =
        split i w w' a (with_retry sleep op left (suc i)) (op w) refl h
          (λ w1 e failed again. later failed (retry-answers left (suc i) _ w' a again)) now

    -- The retries answer exactly if the operation answers within its attempts, with the answer of the
    -- first attempt that does, after a wait of 200 ms times a power of 2 for every one that failed.
    pub with_retry_iff :
        (left i : ℕ) (w w' : World) (a : A)
        → (with_retry sleep op left i w ≡ (ok a, w')) ↔ Answers op a w' left i w
    with_retry_iff left i w w' a = (retry-answers left i w w' a, answers-retry)

-- A hash of the length that the program caches.
abbrev pub IsHash : String × String → Type 0
IsHash entry = 32 ≤ len entry.1

insert-IsHash :
    (key value : String) (entries : List (String × String))
    → 32 ≤ len value
    → All IsHash entries
    → All IsHash (insert key value entries)
insert-IsHash key value [] new h = (new, tt)
insert-IsHash key value ((k, old) ∷ entries) new (first, rest) =
    ground (arith, insert-IsHash key value entries new rest, new, first, rest)

guard-eq-ok {ℓ} : {E : Type ℓ} (test : Bool) (e : E) → guard test e ≡ ok tt → test ≡ true
guard-eq-ok true e h = refl
guard-eq-ok false e h = cc h

module _ {ℓ} {World : Type ℓ} (sleep : ℕ → World → World)
    (get_genesis_hash : Task World String String) (rpc : String) where
  remembered-known :
      (test : Bool) (found : String) (cache : List (String × String)) (w : World) (hash : String)
      (cache' : List (String × String)) (w' : World)
      → remembered sleep test rpc found cache w ≡ (ok hash, (cache', w'))
      → lookup rpc cache' ≡ some hash
  remembered-known true found cache w hash cache' w' h = cc (ap (λ x. x.0) h)
  remembered-known false found cache w hash cache' w' h =
      let same : found ≡ hash = ok-eq (ap (λ x. x.0) h) in
      ap (λ x. lookup rpc x.1.0) (sym h)
      ∙ ground (arith, same, lookup-insert rpc rpc found cache, eq_iff rpc rpc)

  fetched-known :
      (cache : List (String × String)) (r : Result String String × World) (hash : String)
      (cache' : List (String × String)) (w' : World)
      → fetched sleep rpc cache r ≡ (ok hash, (cache', w'))
      → lookup rpc cache' ≡ some hash
  fetched-known cache (err e, w) hash cache' w' h = cc (ap (λ x. x.0) h)
  fetched-known cache (ok found, w) hash cache' w' h =
      remembered-known (ltb (len found) 32) found cache w hash cache' w' h

  observe-known :
      (cached : Option String) (cache : List (String × String)) (w : World) (hash : String)
      (cache' : List (String × String)) (w' : World)
      → lookup rpc cache ≡ cached
      → observe sleep get_genesis_hash rpc cached (cache, w) ≡ (ok hash, (cache', w'))
      → lookup rpc cache' ≡ some hash
  observe-known (some found) cache w hash cache' w' e h =
      ap (λ x. lookup rpc x.1.0) (sym h) ∙ e ∙ ap (λ x. some x) (ok-eq (ap (λ x. x.0) h))
  observe-known none cache w hash cache' w' e h =
      fetched-known cache (with_retry sleep get_genesis_hash 2 0 w) hash cache' w' h

  -- The node answered the hash within the attempts.
  remembered-found :
      (test : Bool) (found : String) (cache : HashCache sleep) (w : World) (hash : String)
      (cache' : HashCache sleep) (w' : World)
      → remembered sleep test rpc found cache w ≡ (ok hash, (cache', w'))
      → (found ≡ hash) × (w ≡ w')
  remembered-found true found cache w hash cache' w' h = cc (ap (λ x. x.0) h)
  remembered-found false found cache w hash cache' w' h =
      (ok-eq (ap (λ x. x.0) h), ap (λ x. x.1.1) h)

  fetched-found :
      (cache : HashCache sleep) (r : Result String String × World) (hash : String)
      (cache' : HashCache sleep) (w' : World)
      → fetched sleep rpc cache r ≡ (ok hash, (cache', w'))
      → r ≡ (ok hash, w')
  fetched-found cache (err e, w) hash cache' w' h = cc (ap (λ x. x.0) h)
  fetched-found cache (ok found, w) hash cache' w' h =
      let (same, ends) = remembered-found (ltb (len found) 32) found cache w hash cache' w' h in
      λ k. (ok (same k), ends k)

  -- Where a hash comes from: the cache, or the node.
  observe-source :
      (cached : Option String) (cache : HashCache sleep) (w : World) (hash : String)
      (cache' : HashCache sleep) (w' : World)
      → observe sleep get_genesis_hash rpc cached (cache, w) ≡ (ok hash, (cache', w'))
      → ((cached ≡ some hash) × (w ≡ w'))
        ⊎ ((cached ≡ none) × Answers sleep get_genesis_hash hash w' 2 0 w)
  observe-source (some found) cache w hash cache' w' h =
      inl (ap (λ x. some x) (ok-eq (ap (λ x. x.0) h)), ap (λ x. x.1.1) h)
  observe-source none cache w hash cache' w' h = inr (
    refl,
    retry-answers sleep get_genesis_hash 2 0 w w' hash
        (fetched-found cache (with_retry sleep get_genesis_hash 2 0 w) hash cache' w' h),
  )

  -- Where the check passes, the hash of the configured network is what the node answered, within three
  -- attempts, or, with no call of the node, what is cached for it; and it is cached then.
  pub assert_genesis_hash-known :
      (network : Network) (cache cache' : List (String × String)) (w w' : World)
      → assert_genesis_hash sleep get_genesis_hash rpc network (cache, w) ≡ (ok tt, (cache', w'))
      → (((lookup rpc cache ≡ some (expected_hash network)) × (w ≡ w'))
          ⊎ ((lookup rpc cache ≡ none)
              × Answers sleep get_genesis_hash (expected_hash network) w' 2 0 w))
        × (lookup rpc cache' ≡ some (expected_hash network))
  unfolding assert_genesis_hash
  assert_genesis_hash-known network cache cache' w w' h =
      let (hash, (cache1, w1), observed, checked) =
        >=>-eq-ok (observe sleep get_genesis_hash rpc (lookup rpc cache)) _ {w = (cache, w)} h in
      let same = guard-eq-ok (str_eq hash (expected_hash network)) _ (ap (λ x. x.0) checked) in
      let hash' = (eq_iff hash (expected_hash network)).0 same in
      let source = observe-source (lookup rpc cache) cache w hash cache1 w1 observed in
      let ends : w1 ≡ w' = ap (λ x. x.1.1) checked in
      (
        subst {A = String × World}
            (λ x.
              ((lookup rpc cache ≡ some x.0) × (w ≡ x.1))
              ⊎ ((lookup rpc cache ≡ none) × Answers sleep get_genesis_hash x.0 x.1 2 0 w))
            (λ k. (hash' k, ends k)) source,
        ap (λ x. lookup rpc x.1.0) (sym checked)
            ∙ observe-known (lookup rpc cache) cache w hash cache1 w1 refl observed
            ∙ ap (λ x. some x) hash',
      )

  remembered-IsHash :
      (test : Bool) (hash : String) (cache : List (String × String)) (w : World)
      → ltb (len hash) 32 ≡ test
      → All IsHash cache
      → All IsHash (remembered sleep test rpc hash cache w).1.0
  remembered-IsHash true hash cache w e h = h
  remembered-IsHash false hash cache w e h = insert-IsHash rpc hash cache (ground (arith, e)) h

  fetched-IsHash :
      (cache : List (String × String)) (r : Result String String × World)
      → All IsHash cache
      → All IsHash (fetched sleep rpc cache r).1.0
  fetched-IsHash cache (err e, w) h = h
  fetched-IsHash cache (ok hash, w) h = remembered-IsHash (ltb (len hash) 32) hash cache w refl h

  observe-IsHash :
      (cached : Option String) (cache : List (String × String)) (w : World)
      → All IsHash cache
      → All IsHash (observe sleep get_genesis_hash rpc cached (cache, w)).1.0
  observe-IsHash (some hash) cache w h = h
  observe-IsHash none cache w h = fetched-IsHash cache (with_retry sleep get_genesis_hash 2 0 w) h

  guarded-IsHash :
      (network : Network) (r : Result ClientError String × (List (String × String) × World))
      → All IsHash r.1.0
      → All IsHash
          (continue r λ observed.
            lift (guard (str_eq observed (expected_hash network)) (genesis_mismatch observed))).1.0
  guarded-IsHash network (err e, (cache, w)) h = h
  guarded-IsHash network (ok observed, (cache, w)) h = h

  -- Whatever the node answers, the check leaves no hash shorter than 32 characters in a cache that has
  -- none.
  pub assert_genesis_hash-IsHash :
      (network : Network) (cache : List (String × String)) (w : World)
      → All IsHash cache
      → All IsHash (assert_genesis_hash sleep get_genesis_hash rpc network (cache, w)).1.0
  unfolding assert_genesis_hash
  assert_genesis_hash-IsHash network cache w h =
      guarded-IsHash network (observe sleep get_genesis_hash rpc (lookup rpc cache) (cache, w))
        (observe-IsHash (lookup rpc cache) cache w h)
