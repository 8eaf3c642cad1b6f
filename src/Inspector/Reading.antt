-- ===== src/Inspector/Reading.antt =====
-- analyzeInstructions reads a transfer exactly where an instruction spells one.
use mathlib.Core.Path.{subst}
use phalnx.Base.{
  ℕ, zero, suc, ◌+◌, ◌≤◌, ◌<◌, ◌≡◌, ◌↔◌, ◌⊎◌, inl, inr, refl, ap, ◌∙◌, sym, Bool, true, false, List,
  [], ◌∷◌, ◌++◌, Option, none, some, String, str_eq, eq_iff, ltb, if◌then◌else◌, length,
  length-append, get_or, arith,
}
use phalnx.Inspector.{
  InspectableInstruction, TokenTransferInfo, token_program_address, token_2022_program_address,
  undefined_address, read_le, plain_transfer, checked_transfer, is_token_program, transfer_of,
  defined,
}
use phalnx.Inspector.Transfers.{le_value, IsTokenProgram, IsMint, IsTransfer, plain, checked}

read_le-cons : (n i b : ℕ) (bytes : List ℕ) → read_le n (suc i) (b ∷ bytes) ≡ read_le n i bytes
unfolding read_le
read_le-cons zero i b bytes = refl
read_le-cons (suc n) i b bytes =
    let next : suc i + 1 ≡ suc (suc i) = omega arith in
    let this : suc i ≡ i + 1 = omega arith in
    omega (
      arith,
      ap (λ j. read_le n j (b ∷ bytes)) next,
      read_le-cons n (suc i) b bytes,
      ap (λ j. read_le n j bytes) this,
    )

read_le-append :
    (amount rest : List ℕ) → read_le (length amount) 0 (amount ++ rest) ≡ le_value amount
unfolding read_le
read_le-append [] rest = refl
read_le-append (b ∷ amount) rest =
    omega (arith, read_le-cons (length amount) 0 b (amount ++ rest), read_le-append amount rest)

-- The first bytes of a text that is long enough.
split :
    (n : ℕ) (bytes : List ℕ)
    → n ≤ length bytes
    → (amount : List ℕ) × (rest : List ℕ) × (bytes ≡ amount ++ rest) × (length amount ≡ n)
split zero bytes h = ([], bytes, refl, refl)
split (suc n) [] h = let none_left : ⊥ = omega (arith, h) in elim none_left [ ]
split (suc n) (b ∷ bytes) h =
    let (amount, rest, e, size) = split n bytes (omega (arith, h)) in
    (b ∷ amount, rest, ap (λ l. b ∷ l) e, omega (arith, size))

amount-read :
    (disc : ℕ) (amount rest : List ℕ)
    → length amount ≡ 8
    → read_le 8 1 (disc ∷ amount ++ rest) ≡ le_value amount
amount-read disc amount rest size =
    read_le-cons 8 0 disc (amount ++ rest)
    ∙ ap (λ n. read_le n 0 (amount ++ rest)) (sym size)
    ∙ read_le-append amount rest

defined-test :
    (test : Bool) (mint : String) (found : Option String)
    → str_eq mint undefined_address ≡ test
    → ((if test then none else some mint) ≡ found) ↔ IsMint mint found
defined-test true mint found e =
    let same = (eq_iff mint undefined_address).0 e in
    (
      λ h. inl (same, sym h),
      λ h. elim h [ inl missing ↦ sym missing.1 | inr other ↦ elim (other.0 same) [ ] ],
    )
defined-test false mint found e = (
  λ h. inr ((λ same. let equal = (eq_iff mint undefined_address).1 same in cc), sym h),
  λ h. elim h [
    | inl missing ↦ let equal = (eq_iff mint undefined_address).1 missing.0 in cc
    | inr other ↦ sym other.1
  ],
)

defined_iff : (mint : String) (found : Option String) → (defined mint ≡ found) ↔ IsMint mint found
defined_iff mint found = defined-test (str_eq mint undefined_address) mint found refl

is_token_program_iff : (p : String) → (is_token_program p ≡ true) ↔ IsTokenProgram p
is_token_program_iff p =
    ground (arith, eq_iff p token_program_address, eq_iff p token_2022_program_address)

transfer-kind :
    (ix : InspectableInstruction) (t : TokenTransferInfo)
    → transfer_of ix ≡ some t
    → (is_token_program ix.program_address ≡ true)
      × (0 < length ix.bytes)
      × (((get_or ix.bytes 0 0 ≡ 3) × (plain_transfer ix.bytes ix.accounts ≡ some t))
          ⊎ ((get_or ix.bytes 0 0 ≡ 12) × (checked_transfer ix.bytes ix.accounts ≡ some t)))
unfolding transfer_of
transfer-kind ix t h = ground (arith, h)

plain-read :
    (ix : InspectableInstruction) (t : TokenTransferInfo) (bytes : List ℕ) (accounts : List String)
    → IsTokenProgram ix.program_address
    → ix.bytes ≡ bytes
    → ix.accounts ≡ accounts
    → 0 < length bytes
    → get_or bytes 0 0 ≡ 3
    → plain_transfer bytes accounts ≡ some t
    → IsTransfer ix t
unfolding plain_transfer
plain-read ix t [] accounts program b a h d e =
    let impossible : ⊥ = omega (arith, h) in elim impossible [ ]
plain-read ix t bytes [] program b a h d e = cc e
plain-read ix t bytes (x ∷ []) program b a h d e = cc e
plain-read ix t bytes (x ∷ y ∷ []) program b a h d e = cc e
plain-read ix t (disc ∷ bytes) (source ∷ destination ∷ authority ∷ more) program b a h d e =
    let long : 8 ≤ length bytes = ground (arith, e) in
    let (amount, rest, parts, size) = split 8 bytes long in
    let read : read_le 8 1 (disc ∷ bytes) ≡ le_value amount =
      ap (λ l. read_le 8 1 (disc ∷ l)) parts ∙ amount-read disc amount rest size in
    let same : record {
      mint = none;
      amount = read_le 8 1 (disc ∷ bytes);
      source = source;
      destination = destination;
      authority = authority;
    }
        ≡ t =
      ground (arith, e) in
    plain amount rest more program (b ∙ ap (λ x. x ∷ bytes) d ∙ ap (λ l. 3 ∷ l) parts) size
      (subst (λ x. ix.accounts ≡ x.source ∷ x.destination ∷ x.authority ∷ more) same a)
      (sym (ap (λ x. x.mint) same)) (sym (ap (λ x. x.amount) same) ∙ read)

checked-read :
    (ix : InspectableInstruction) (t : TokenTransferInfo) (bytes : List ℕ) (accounts : List String)
    → IsTokenProgram ix.program_address
    → ix.bytes ≡ bytes
    → ix.accounts ≡ accounts
    → 0 < length bytes
    → get_or bytes 0 0 ≡ 12
    → checked_transfer bytes accounts ≡ some t
    → IsTransfer ix t
unfolding checked_transfer
checked-read ix t [] accounts program b a h d e =
    let impossible : ⊥ = omega (arith, h) in elim impossible [ ]
checked-read ix t bytes [] program b a h d e = cc e
checked-read ix t bytes (x ∷ []) program b a h d e = cc e
checked-read ix t bytes (x ∷ y ∷ []) program b a h d e = cc e
checked-read ix t bytes (x ∷ y ∷ z ∷ []) program b a h d e = cc e
checked-read ix t (disc ∷ bytes) (source ∷ mint ∷ destination ∷ authority ∷ more) program b a h d
      e =
    let long : 9 ≤ length bytes = ground (arith, e) in
    let (amount, rest, parts, size) = split 8 bytes (omega (arith, long)) in
    let read : read_le 8 1 (disc ∷ bytes) ≡ le_value amount =
      ap (λ l. read_le 8 1 (disc ∷ l)) parts ∙ amount-read disc amount rest size in
    let same : record {
      mint = defined mint;
      amount = read_le 8 1 (disc ∷ bytes);
      source = source;
      destination = destination;
      authority = authority;
    }
        ≡ t =
      ground (arith, e) in
    checked amount rest mint more program (b ∙ ap (λ x. x ∷ bytes) d ∙ ap (λ l. 12 ∷ l) parts)
      (omega (arith, long, size, ap length parts, length-append amount rest)) size
      (subst (λ x. ix.accounts ≡ x.source ∷ mint ∷ x.destination ∷ x.authority ∷ more) same a)
      ((defined_iff mint t.mint).0 (ap (λ x. x.mint) same)) (sym (ap (λ x. x.amount) same) ∙ read)

plain-made :
    (t : TokenTransferInfo) (amount rest : List ℕ) (more : List String)
    → length amount ≡ 8
    → t.mint ≡ none
    → t.amount ≡ le_value amount
    → plain_transfer (3 ∷ amount ++ rest) (t.source ∷ t.destination ∷ t.authority ∷ more) ≡ some t
unfolding plain_transfer
plain-made t amount rest more size m n =
    let long : ltb (length (3 ∷ amount ++ rest)) 9 ≡ false =
      ground (arith, size, length-append amount rest) in
    rw long λ k. some record {
      mint = sym m k;
      amount = (amount-read 3 amount rest size ∙ sym n) k;
      source = t.source;
      destination = t.destination;
      authority = t.authority;
    }

checked-made :
    (t : TokenTransferInfo) (mint : String) (amount rest : List ℕ) (more : List String)
    → length amount ≡ 8
    → 0 < length rest
    → IsMint mint t.mint
    → t.amount ≡ le_value amount
    → checked_transfer (12 ∷ amount ++ rest) (t.source ∷ mint ∷ t.destination ∷ t.authority ∷ more)
      ≡ some t
unfolding checked_transfer
checked-made t mint amount rest more size tail m n =
    let long : ltb (length (12 ∷ amount ++ rest)) 10 ≡ false =
      ground (arith, size, tail, length-append amount rest) in
    rw long λ k. some record {
      mint = (defined_iff mint t.mint).1 m k;
      amount = (amount-read 12 amount rest size ∙ sym n) k;
      source = t.source;
      destination = t.destination;
      authority = t.authority;
    }

made :
    (ix : InspectableInstruction) (t : TokenTransferInfo)
    → IsTransfer ix t
    → transfer_of ix ≡ some t
unfolding transfer_of
made ix t (plain amount rest more program b size a m n) =
    let token = (is_token_program_iff ix.program_address).1 program in
    let disc : get_or ix.bytes 0 0 ≡ 3 = ap (λ l. get_or l 0 0) b in
    let some_bytes : 0 < length ix.bytes = omega (arith, ap length b) in
    let read : plain_transfer ix.bytes ix.accounts ≡ some t =
      ap (λ l. plain_transfer l ix.accounts) b
      ∙ ap (plain_transfer (3 ∷ amount ++ rest)) a
      ∙ plain-made t amount rest more size m n in
    ground (arith, token, disc, some_bytes, read)
made ix t (checked amount rest mint more program b tail size a m n) =
    let token = (is_token_program_iff ix.program_address).1 program in
    let disc : get_or ix.bytes 0 0 ≡ 12 = ap (λ l. get_or l 0 0) b in
    let some_bytes : 0 < length ix.bytes = omega (arith, ap length b) in
    let read : checked_transfer ix.bytes ix.accounts ≡ some t =
      ap (λ l. checked_transfer l ix.accounts) b
      ∙ ap (checked_transfer (12 ∷ amount ++ rest)) a
      ∙ checked-made t mint amount rest more size tail m n in
    ground (arith, token, disc, some_bytes, read)

-- What transfer_of reads is exactly the layout.
pub transfer_of_iff :
    (ix : InspectableInstruction) (t : TokenTransferInfo)
    → (transfer_of ix ≡ some t) ↔ IsTransfer ix t
transfer_of_iff ix t = (
  λ h.
      let (token, some_bytes, kind) = transfer-kind ix t h in
      let program = (is_token_program_iff ix.program_address).0 token in
      elim kind [
        | inl k ↦ plain-read ix t ix.bytes ix.accounts program refl refl some_bytes k.0 k.1
        | inr k ↦ checked-read ix t ix.bytes ix.accounts program refl refl some_bytes k.0 k.1
      ],
  made ix t,
)
