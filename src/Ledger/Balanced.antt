-- ===== src/Ledger/Balanced.antt =====
-- pkg/ledger/ledger.go: what the checks of Post let through is balanced.
use maniflex.Prelude.{
  ℕ, ◌+◌, ◌-◌, ◌%◌, ◌^◌, ◌<◌, ◌≡◌, refl, sym, ap, ◌∙◌, inl, inr, String, Bool, true, false, not,
  ◌||◌, Option, none, some, List, [], ◌∷◌, str_eq, if◌then◌else◌, All, arith, Bool-cases,
  Option-cases, str_eq_iff,
}
use maniflex.Prelude.Int.{ℤ, pos, negsuc, pos_part, wrap64, ◌+ℤ◌}
use maniflex.Request.Context.Map.{Map, lookup, has, lookup-insert}
use maniflex.Money.Amount.{negative}
use maniflex.Ledger.Lines.{
  LineInput, LedgerError, imbalanced, eq_ℤ, line_currency, line_error, or_else, validate_lines,
  amount_at, add_to, gather, debit_side, credit_side, check_debits, check_credits, check_sums,
  validate_balance,
}
use maniflex.Ledger.Post.{EntryInput, Database, LedgerContext, ok, failed, checks, post}

-- The sum of one side of the legs in a currency, as a number that does not overflow.
abbrev pub total : (LineInput → ℤ) → String → List LineInput → ℕ
total side cur [] = 0
total side cur (l ∷ ls) =
    (if str_eq (line_currency l) cur then pos_part (side l) else 0) + total side cur ls

-- The 64 bits of an integer.
abbrev word : ℤ → ℕ
word (pos n) = n % 2 ^ 64
word (negsuc n) = 2 ^ 64 - 1 - n % 2 ^ 64

word-add : (z : ℤ) (n : ℕ) → word (wrap64 (z +ℤ pos n)) ≡ (word z + n) % 2 ^ 64
word-add (pos a) n = ground arith
word-add (negsuc a) n = ground arith

word-add_unsigned :
    (z y : ℤ) → negative y ≡ false → word (wrap64 (z +ℤ y)) ≡ (word z + pos_part y) % 2 ^ 64
word-add_unsigned z (pos n) h = word-add z n
word-add_unsigned z (negsuc n) h = cc

word_bound : (z : ℤ) → word z < 2 ^ 64
word_bound (pos n) = omega arith
word_bound (negsuc n) = omega arith

eq_ℤ→≡ : (a b : ℤ) → eq_ℤ a b ≡ true → a ≡ b
eq_ℤ→≡ (pos a) (pos b) h = ap pos (ground arith)
eq_ℤ→≡ (negsuc a) (negsuc b) h = ap negsuc (ground arith)
eq_ℤ→≡ (pos a) (negsuc b) h = ground arith
eq_ℤ→≡ (negsuc a) (pos b) h = ground arith

amount_at-add_to :
    (k cur : String) (z : ℤ) (m : Map ℤ)
    → amount_at cur (add_to k z m)
      ≡ (if str_eq k cur then wrap64 (amount_at cur m +ℤ z) else amount_at cur m)
amount_at-add_to k cur z m =
    rw (lookup-insert k cur (wrap64 (amount_at k m +ℤ z)) m) (elim (Bool-cases (str_eq k cur)) [
      | inl same ↦ let is : k ≡ cur = (str_eq_iff k cur).0 same in rw same (rw is)
      | inr other ↦ rw other
    ])

abbrev IsUnsigned : (LineInput → ℤ) → LineInput → Type 0
IsUnsigned side l = negative (side l) ≡ false

word-gather :
    (side : LineInput → ℤ) (cur : String) (ls : List LineInput) (m : Map ℤ)
    → All (IsUnsigned side) ls
    → word (amount_at cur (gather side ls m))
      ≡ (word (amount_at cur m) + total side cur ls) % 2 ^ 64
unfolding gather
word-gather side cur [] m h = omega (arith, word_bound (amount_at cur m))
word-gather side cur (l ∷ ls) m h =
    word-gather side cur ls (add_to (line_currency l) (side l) m) h.1
    ∙ rw (amount_at-add_to (line_currency l) cur (side l) m)
        (elim (Bool-cases (str_eq (line_currency l) cur)) [
          | inl same ↦ rw same (omega (arith, word-add_unsigned (amount_at cur m) (side l) h.0))
          | inr other ↦ rw other (omega arith)
        ])

check_debits-entry :
    (credits m : Map ℤ) (cur : String) (d : ℤ)
    → check_debits credits m ≡ none
    → lookup cur m ≡ some d
    → d ≡ amount_at cur credits
unfolding check_debits lookup
check_debits-entry credits [] cur d h e = cc
check_debits-entry credits ((k, z) ∷ m) cur d h e =
    elim (Bool-cases (eq_ℤ z (amount_at k credits))) [
      | inl agree ↦ elim (Bool-cases (str_eq k cur)) [
        | inl same ↦
            let is : k ≡ cur = (str_eq_iff k cur).0 same in
            let found : some z ≡ some d = rw same at e in
            let equal : z ≡ d = cc in
            sym equal ∙ eq_ℤ→≡ z (amount_at k credits) agree ∙ ap (λ c. amount_at c credits) is
        | inr other ↦ check_debits-entry credits m cur d (rw agree at h) (rw other at e)
      ]
      | inr differ ↦
          let stops : some (imbalanced k z (amount_at k credits)) ≡ none = rw differ at h in cc
    ]

if_none :
    {A : Type 0} (b : Bool) (e : A) (rest : Option A)
    → (if b then some e else rest) ≡ none
    → (b ≡ false) × (rest ≡ none)
if_none true e rest h = cc
if_none false e rest h = (refl, h)

none_left :
    (k : String) (z : ℤ) (rest : Option LedgerError)
    → (if not (eq_ℤ z (pos 0)) then some (imbalanced k (pos 0) z) else rest) ≡ none
    → z ≡ pos 0
none_left k z rest h = elim (Bool-cases (eq_ℤ z (pos 0))) [
  | inl agree ↦ eq_ℤ→≡ z (pos 0) agree
  | inr differ ↦ let stops : some (imbalanced k (pos 0) z) ≡ none = rw differ at h in cc
]

check_credits-entry :
    (debits m : Map ℤ) (cur : String)
    → check_credits debits m ≡ none
    → has cur debits ≡ false
    → amount_at cur m ≡ pos 0
unfolding check_credits lookup
check_credits-entry debits [] cur h e = refl
check_credits-entry debits ((k, z) ∷ m) cur h e = elim (Bool-cases (str_eq k cur)) [
  | inl same ↦
      let is : k ≡ cur = (str_eq_iff k cur).0 same in
      let missing : has k debits ≡ false = rw is e in
      rw same (none_left k z (check_credits debits m) (rw missing at h))
  | inr other ↦ rw other (check_credits-entry debits m cur (if_none _ _ _ h).1 e)
]

lookup-has : (m : Map ℤ) (cur : String) → lookup cur m ≡ none → has cur m ≡ false
unfolding lookup has
lookup-has [] cur h = refl
lookup-has ((k, z) ∷ m) cur h = ground (arith, lookup-has m cur)

or_else-none : {A : Type 0} (a b : Option A) → or_else a b ≡ none → (a ≡ none) × (b ≡ none)
or_else-none none b h = (refl, h)
or_else-none (some a) b h = cc

check_sums-agree :
    (debits credits : Map ℤ) (cur : String)
    → check_sums debits credits ≡ none
    → amount_at cur debits ≡ amount_at cur credits
check_sums-agree debits credits cur h =
    let both : (check_debits credits debits ≡ none) × (check_credits debits credits ≡ none) =
      or_else-none _ _ h in
    elim (Option-cases (lookup cur debits)) [
      | inl nothing ↦
          rw nothing
            (sym (check_credits-entry debits credits cur both.1 (lookup-has debits cur nothing)))
      | inr (d, found) ↦ rw found (check_debits-entry credits debits cur d both.0 found)
    ]

both_false : (a b : Bool) → (a || b) ≡ false → (a ≡ false) × (b ≡ false)
both_false false b h = (refl, h)
both_false true b h = cc

line_error-IsUnsigned :
    (i : ℕ) (l : LineInput)
    → line_error i l ≡ none
    → (negative l.debit.cents ≡ false) × (negative l.credit.cents ≡ false)
line_error-IsUnsigned i l h =
    both_false (negative l.debit.cents) (negative l.credit.cents)
      (if_none _ _ _ (if_none _ _ _ h).1).0

validate_lines-IsUnsigned :
    (i : ℕ) (ls : List LineInput)
    → validate_lines i ls ≡ none
    → All (IsUnsigned debit_side) ls × All (IsUnsigned credit_side) ls
unfolding validate_lines
validate_lines-IsUnsigned i [] h = (tt, tt)
validate_lines-IsUnsigned i (l ∷ ls) h =
    let both : (line_error i l ≡ none) × (validate_lines (i + 1) ls ≡ none) = or_else-none _ _ h in
    let here : (negative l.debit.cents ≡ false) × (negative l.credit.cents ≡ false) =
      line_error-IsUnsigned i l both.0 in
    let there : All (IsUnsigned debit_side) ls × All (IsUnsigned credit_side) ls =
      validate_lines-IsUnsigned (i + 1) ls both.1 in
    ((here.0, there.0), (here.1, there.1))

pub validated-balanced :
    (lines : List LineInput) (cur : String)
    → validate_lines 0 lines ≡ none
    → validate_balance lines ≡ none
    → total debit_side cur lines % 2 ^ 64 ≡ total credit_side cur lines % 2 ^ 64
unfolding validate_balance lookup
validated-balanced lines cur h k =
    let signs : All (IsUnsigned debit_side) lines × All (IsUnsigned credit_side) lines =
      validate_lines-IsUnsigned 0 lines h in
    omega (
      arith,
      word-gather debit_side cur lines [] signs.0,
      ap word (check_sums-agree (gather debit_side lines []) (gather credit_side lines []) cur k),
      word-gather credit_side cur lines [] signs.1,
    )

checks-none :
    (lines : List LineInput)
    → checks lines ≡ none
    → (validate_lines 0 lines ≡ none) × (validate_balance lines ≡ none)
checks-none lines h = or_else-none _ _ (if_none _ _ _ h).1

-- An entry that Post answers with was balanced: in every currency its debits and its credits have the
-- same sum, if neither sum leaves 64 bits. This holds for any database, and in any transaction.
pub post_balanced :
    {W T : Type 0} (db : Database W T) (entry : EntryInput) (lines : List LineInput)
    (c : LedgerContext W T) (id cur : String)
    → (post db entry lines c).1 ≡ ok id
    → total debit_side cur lines < 2 ^ 64
    → total credit_side cur lines < 2 ^ 64
    → total debit_side cur lines ≡ total credit_side cur lines
unfolding post
post_balanced db entry lines c id cur h k l = elim (Option-cases (checks lines)) [
  | inl passed ↦
      let both : (validate_lines 0 lines ≡ none) × (validate_balance lines ≡ none) =
        checks-none lines passed in
      omega (arith, validated-balanced lines cur both.0 both.1)
  | inr (e, refused) ↦ let no : failed e ≡ ok id = rw refused at h in cc
]
