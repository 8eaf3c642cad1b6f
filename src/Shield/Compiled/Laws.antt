-- ===== src/Shield/Compiled/Laws.antt =====
-- The positions of the accounts in the account table.
use phalnx.Base.{
  ℕ, suc, zero, ◌+◌, ◌≡◌, refl, sym, ◌∙◌, Bool, true, false, List, [], ◌∷◌, ◌++◌, map, Option, none,
  some, String, length, get_elem?, sum_by, All, arith, length-append,
}
use phalnx.Shield.Compiled.{
  AddressTableLookup, CompiledMessage, resolve_alt_index, resolved_all, pass, account_table,
  account_at,
}

add_assoc : (a b c : ℕ) → a + b + c ≡ a + (b + c)
add_assoc a b c = omega arith

zero_add : (j : ℕ) → 0 + j ≡ j
zero_add j = omega arith

suc_add : (n i : ℕ) → suc n + i ≡ suc (n + i)
suc_add n i = omega arith

module _ {ℓ} {A : Type ℓ} where
  get_elem?-left :
      (xs ys : List A) (i : ℕ) {a : A} → get_elem? xs i ≡ some a → get_elem? (xs ++ ys) i ≡ some a
  get_elem?-left [] ys i h = cc
  get_elem?-left (x ∷ xs) ys zero h = h
  get_elem?-left (x ∷ xs) ys (suc i) h = get_elem?-left xs ys i h

  get_elem?-right :
      (xs ys : List A) (n i : ℕ) → n ≡ length xs → get_elem? (xs ++ ys) (n + i) ≡ get_elem? ys i
  get_elem?-right [] ys n i h = ground (arith, h)
  get_elem?-right (x ∷ xs) ys zero i h = ground (arith, h)
  get_elem?-right (x ∷ xs) ys (suc n) i h =
      rw (suc_add n i) (get_elem?-right xs ys n i (omega (arith, h)))

get_elem?-map {ℓ κ} :
    {A : Type ℓ} {B : Type κ} (f : A → B) (xs : List A) (i : ℕ) {a : A}
    → get_elem? xs i ≡ some a
    → get_elem? (map f xs) i ≡ some (f a)
get_elem?-map f [] i h = cc
get_elem?-map f (x ∷ xs) zero h = ground (arith, h)
get_elem?-map f (x ∷ xs) (suc i) h = get_elem?-map f xs i h

length-map {ℓ κ} :
    {A : Type ℓ} {B : Type κ} (f : A → B) (xs : List A) → length (map f xs) ≡ length xs
length-map f [] = refl
length-map f (x ∷ xs) = omega (arith, length-map f xs)

abbrev pub is_cached : Option (List String) → Bool
is_cached none = false
is_cached (some addresses) = true

length-resolved_all :
    (o : Option (List String)) (is : List ℕ)
    → is_cached o ≡ true
    → length (resolved_all o is) ≡ length is
length-resolved_all none is h = cc
length-resolved_all (some addresses) is h = length-map (resolve_alt_index addresses) is

module _ (indexes : AddressTableLookup → List ℕ) (cached : String → Option (List String)) where
  abbrev AllCached : List AddressTableLookup → Type 0
  AllCached ls = All (λ l. is_cached (cached l.lookup_table_address) ≡ true) ls

  abbrev pub index_count : List AddressTableLookup → ℕ
  index_count ls = sum_by (λ l. length (indexes l)) ls

  length-pass :
      (ls : List AddressTableLookup)
      → AllCached ls
      → length (pass indexes cached ls) ≡ index_count ls
  unfolding pass
  length-pass [] h = refl
  length-pass (l ∷ ls) (h, hs) = omega (
    arith,
    length-append (resolved_all (cached l.lookup_table_address) (indexes l))
        (pass indexes cached ls),
    length-resolved_all (cached l.lookup_table_address) (indexes l) h,
    length-pass ls hs,
  )

  pass_at :
      (before after : List AddressTableLookup) (l : AddressTableLookup) (addresses : List String)
      (j idx : ℕ) {a : String}
      → AllCached before
      → cached l.lookup_table_address ≡ some addresses
      → get_elem? (indexes l) j ≡ some idx
      → get_elem? addresses idx ≡ some a
      → get_elem? (pass indexes cached (before ++ l ∷ after)) (index_count before + j) ≡ some a
  unfolding pass
  pass_at [] after l addresses j idx h is at_j at_idx = rw (zero_add j) (
      get_elem?-left (resolved_all (cached l.lookup_table_address) (indexes l))
        (pass indexes cached after) j
        (rw is (
          get_elem?-map (resolve_alt_index addresses) (indexes l) j at_j ∙ ground (arith, at_idx))))
  pass_at (m ∷ before) after l addresses j idx (h, hs) is at_j at_idx =
      let first = resolved_all (cached m.lookup_table_address) (indexes m) in
      let rest = pass indexes cached (before ++ l ∷ after) in
      rw (add_assoc (length (indexes m)) (index_count before) j) (
        get_elem?-right first rest (length (indexes m)) (index_count before + j)
          (sym (length-resolved_all (cached m.lookup_table_address) (indexes m) h))
        ∙ pass_at before after l addresses j idx hs is at_j at_idx)

account_of :
    (table : List String) (i : ℕ) {a : String} → get_elem? table i ≡ some a → account_at table i ≡ a
account_of table i h = ground (arith, h)

All-left {ℓ κ} : {A : Type ℓ} (P : A → Type κ) (xs ys : List A) → All P (xs ++ ys) → All P xs
All-left P [] ys h = tt
All-left P (x ∷ xs) ys (h, hs) = (h, All-left P xs ys hs)

module _ (cached : String → Option (List String)) (msg : CompiledMessage)
    (before after : List AddressTableLookup) (l : AddressTableLookup) (addresses : List String)
    (j idx : ℕ) (a : String) where
  -- Where the tables of a lookup and of all before it are cached, the writable accounts stand
  -- behind the static ones, in the order of the lookups: the account at the place of the lookup's
  -- j-th writable index is the address that its table holds at that index.
  pub account_table-writable :
      msg.address_table_lookups ≡ before ++ l ∷ after
      → All (λ m. is_cached (cached m.lookup_table_address) ≡ true) before
      → cached l.lookup_table_address ≡ some addresses
      → get_elem? l.writable_indexes j ≡ some idx
      → get_elem? addresses idx ≡ some a
      → account_at
          (account_table (some cached) msg)
          (length msg.static_accounts + (index_count (λ m. m.writable_indexes) cached before + j))
        ≡ a
  unfolding account_table
  account_table-writable parts all_cached is at_j at_idx =
      let writables = pass (λ m. m.writable_indexes) cached msg.address_table_lookups in
      let readonlys = pass (λ m. m.readonly_indexes) cached msg.address_table_lookups in
      let place = index_count (λ m. m.writable_indexes) cached before + j in
      account_of (msg.static_accounts ++ (writables ++ readonlys))
        (length msg.static_accounts + place)
        (get_elem?-right msg.static_accounts (writables ++ readonlys) (length msg.static_accounts)
            place refl
          ∙ get_elem?-left writables readonlys place (
              rw parts (
                pass_at (λ m. m.writable_indexes) cached before after l addresses j idx all_cached
                  is at_j at_idx)))

  -- Where the tables of all lookups are cached, the readonly accounts stand behind the static and
  -- all writable ones, in the order of the lookups: the account at the place of a lookup's j-th
  -- readonly index is the address that its table holds at that index.
  pub account_table-readonly :
      msg.address_table_lookups ≡ before ++ l ∷ after
      → All (λ m. is_cached (cached m.lookup_table_address) ≡ true) (before ++ l ∷ after)
      → cached l.lookup_table_address ≡ some addresses
      → get_elem? l.readonly_indexes j ≡ some idx
      → get_elem? addresses idx ≡ some a
      → account_at (account_table (some cached) msg) (
          length msg.static_accounts
          + (index_count (λ m. m.writable_indexes) cached (before ++ l ∷ after)
              + (index_count (λ m. m.readonly_indexes) cached before + j)))
        ≡ a
  unfolding account_table
  account_table-readonly parts all_cached is at_j at_idx =
      let writables = pass (λ m. m.writable_indexes) cached msg.address_table_lookups in
      let readonlys = pass (λ m. m.readonly_indexes) cached msg.address_table_lookups in
      let count = index_count (λ m. m.writable_indexes) cached (before ++ l ∷ after) in
      let place = index_count (λ m. m.readonly_indexes) cached before + j in
      let earlier =
        All-left (λ m. is_cached (cached m.lookup_table_address) ≡ true) before (l ∷ after)
          all_cached in
      account_of (msg.static_accounts ++ (writables ++ readonlys))
        (length msg.static_accounts + (count + place))
        (get_elem?-right msg.static_accounts (writables ++ readonlys) (length msg.static_accounts)
            (count + place) refl
          ∙ get_elem?-right writables readonlys count place (
              rw parts (
                sym
                  (length-pass (λ m. m.writable_indexes) cached (before ++ l ∷ after) all_cached)))
          ∙ rw parts (
              pass_at (λ m. m.readonly_indexes) cached before after l addresses j idx earlier is
                at_j at_idx))
