-- ===== src/Auth/Guarded.antt =====
-- middleware/auth/abac.go: what Enforce lets through.
use maniflex.Prelude.{
  ℕ, String, ◌≡◌, refl, sym, ap, ◌∙◌, ◌⊎◌, inl, inr, Bool, true, false, Option, none, some, List,
  [], ◌∷◌, map, arith, leb, ◌==◌, str_eq, if◌then◌else◌, length, Bool-cases,
}
use maniflex.Request.Operation.{
  Operation, op_create, op_update, op_delete, op_list, op_read_attachment, op_read_history,
}
use maniflex.Request.Context.Types.{ModelMeta}
use maniflex.Auth.Policy.{Policy}
use maniflex.Auth.Enforce.{
  Row, stored_list, rows, EnforceContext, Fetched, fetched, policy_record, list_policy_rows,
  aligned, Run, abort, keep_rows, set_data, enforce_op, enforce, filter_payload, filter_aligned,
  filter_response, kept_response, after_list, admit, on_fetched, enforce_on_stored_record,
}

-- A policy that decides by the row alone.
abbrev pub decides :
    {V I D : Type 0} → (Option (Row V) → Bool) → Policy (EnforceContext V I D) (Option (Row V))
decides allow c row = (c, allow row, none)

-- The items of a list whose stored rows the policy allows.
abbrev pub allowed_items :
    {V I : Type 0} → (Option (Row V) → Bool) → List I → List (Option (Row V)) → List I
allowed_items allow [] behind = []
allowed_items allow (item ∷ items) [] = []
allowed_items allow (item ∷ items) (row ∷ behind) =
    let kept = allowed_items allow items behind in if allow row then item ∷ kept else kept

-- The operations that are decided before the DB step, by a row.
abbrev pub decided_before : Operation → Bool
decided_before op_create = true
decided_before op_update = true
decided_before op_delete = true
decided_before op_read_history = true
decided_before op_read_attachment = true
decided_before _ = false

-- The row that decides: what is created, or the record as it is stored.
abbrev pub asked :
    {V I D : Type 0} → Operation → EnforceContext V I D → Option (Row V) → Option (Row V)
asked op_create c row = some c.parsed_body
asked _ c row = policy_record c.model row

list_policy_rows-aligned :
    {V : Type 0} (model : Option ModelMeta) (behind : List (Option (Row V))) (n : ℕ)
    → length behind ≡ n
    → list_policy_rows model (stored_list behind) n ≡ aligned (map (policy_record model) behind)
unfolding list_policy_rows
list_policy_rows-aligned model behind n h =
    let same : (length behind == n) ≡ true = ground arith in rw same

module _ {V I D : Type 0} where
  keep_rows-decides :
      (allow : Option (Row V) → Bool) (items : List I) (behind : List (Option (Row V)))
      (c : EnforceContext V I D)
      → keep_rows (decides allow) items behind c ≡ (c, none, allowed_items allow items behind)
  unfolding keep_rows
  keep_rows-decides allow [] behind c = refl
  keep_rows-decides allow (item ∷ items) [] c = refl
  keep_rows-decides allow (item ∷ items) (row ∷ behind) c = elim (Bool-cases (allow row)) [
    | inl yes_it_is ↦ rw yes_it_is (rw (keep_rows-decides allow items behind c))
    | inr no_it_is_not ↦ rw no_it_is_not (keep_rows-decides allow items behind c)
  ]

  filter_payload-decides :
      (allow : Option (Row V) → Bool) (c : EnforceContext V I D) (st : ℕ) (items : List I)
      (behind : List (Option (Row V)))
      → c.response ≡ some (record { status_code = st; payload = rows items })
      → c.db_result ≡ stored_list behind
      → length behind ≡ length items
      → filter_payload (decides allow) c (rows items) ≡ (
        record c {
          response = some (record {
            status_code = st;
            payload = rows (allowed_items allow items (map (policy_record c.model) behind));
          });
        },
        none,
      )
  filter_payload-decides allow c st [] behind reply result same =
      ap (λ r. (record c { response = r }, none)) reply
  filter_payload-decides allow c st (i ∷ items) behind reply result same =
      let stored_rows = map (policy_record c.model) behind in
      ap
        (λ d.
          filter_aligned (decides allow) (i ∷ items) c
            (list_policy_rows c.model d (length (i ∷ items))))
        result
      ∙ ap (filter_aligned (decides allow) (i ∷ items) c)
          (list_policy_rows-aligned c.model behind (length (i ∷ items)) same)
      ∙ ap kept_response (keep_rows-decides allow (i ∷ items) stored_rows c)
      ∙ ap
          (λ r. (
            record c { response = set_data (allowed_items allow (i ∷ items) stored_rows) r },
            none,
          ))
          reply

  -- A list shows no row that the policy denies and hides none that it allows: with a policy that decides
  -- by the row, what is left of the items, in order, are those whose stored row, as the policy sees it,
  -- is allowed. The steps behind succeeded, and left the rows that the items were made of.
  pub enforce-list :
      (read : EnforceContext V I D → String → Fetched V) (allow : Option (Row V) → Bool)
      (next : Run (EnforceContext V I D)) (c c' : EnforceContext V I D) (st : ℕ) (items : List I)
      (behind : List (Option (Row V)))
      → c.operation ≡ op_list
      → next c ≡ (c', none)
      → c'.response ≡ some (record { status_code = st; payload = rows items })
      → leb 400 st ≡ false
      → c'.db_result ≡ stored_list behind
      → length behind ≡ length items
      → enforce read (decides allow) next c ≡ (
        record c' {
          response = some (record {
            status_code = st;
            payload = rows (allowed_items allow items (map (policy_record c'.model) behind));
          });
        },
        none,
      )
  unfolding enforce
  enforce-list read allow next c c' st items behind op ran reply fine result same =
      ap (λ o. enforce_op read (decides allow) next o c) op
      ∙ ap (after_list (decides allow)) ran
      ∙ ap (filter_response (decides allow) c') reply
      ∙ rw fine (filter_payload-decides allow c' st items behind reply result same)

  admit-decides :
      (next : Run (EnforceContext V I D)) (c : EnforceContext V I D) (b : Bool)
      → admit next (c, b, none) ≡ (if b then next c else (abort 403 c, none))
  admit-decides next c true = refl
  admit-decides next c false = refl

  stored_record-decides :
      (read : EnforceContext V I D → String → Fetched V) (allow : Option (Row V) → Bool)
      (next : Run (EnforceContext V I D)) (c : EnforceContext V I D) (row : Option (Row V))
      → str_eq c.resource_id "" ≡ false
      → read c c.resource_id ≡ fetched row
      → enforce_on_stored_record read (decides allow) next c
        ≡ (if allow (policy_record c.model row) then next c else (abort 403 c, none))
  stored_record-decides read allow next c row id f =
      ap (λ b. if b then next c else on_fetched (decides allow) next c (read c c.resource_id)) id
      ∙ ap (on_fetched (decides allow) next c) f
      ∙ admit-decides next c (allow (policy_record c.model row))

  enforce_op-before :
      (read : EnforceContext V I D → String → Fetched V) (allow : Option (Row V) → Bool)
      (next : Run (EnforceContext V I D)) (op : Operation) (c : EnforceContext V I D)
      (row : Option (Row V))
      → decided_before op ≡ true
      → str_eq c.resource_id "" ≡ false
      → c.restore ≡ false
      → read c c.resource_id ≡ fetched row
      → enforce_op read (decides allow) next op c
        ≡ (if allow (asked op c row) then next c else (abort 403 c, none))
  enforce_op-before read allow next op_create c row d id r f =
      admit-decides next c (allow (some c.parsed_body))
  enforce_op-before read allow next op_update c row d id r f =
      ap
        (λ b.
          if b then (abort 403 c, none) else enforce_on_stored_record read (decides allow) next c)
        r
      ∙ stored_record-decides read allow next c row id f
  enforce_op-before read allow next op_delete c row d id r f =
      ap
        (λ b.
          if b then (abort 403 c, none) else enforce_on_stored_record read (decides allow) next c)
        r
      ∙ stored_record-decides read allow next c row id f
  enforce_op-before read allow next op_read_history c row d id r f =
      stored_record-decides read allow next c row id f
  enforce_op-before read allow next op_read_attachment c row d id r f =
      stored_record-decides read allow next c row id f
  enforce_op-before read allow next _ c row d id r f = cc

  -- The request names a record that is stored as a row, and does not restore it.
  abbrev pub Stored :
      (EnforceContext V I D → String → Fetched V) → EnforceContext V I D → Option (Row V) → Type 0
  Stored read c row =
      (str_eq c.resource_id "" ≡ false) × (c.restore ≡ false) × (read c c.resource_id ≡ fetched row)

  -- On a create, an update, a delete and the reads that are derived from a record, the DB step runs
  -- exactly when the policy allows the row that it is asked of: the proposed record on a create, and else
  -- the stored one, as the policy sees it; otherwise nothing runs and the answer is a 403. The policy
  -- decides by the row. Where the operation is no create, the request names a record, that record is
  -- found, and the request is no restore; of a create none of that is asked.
  pub enforce-before :
      (read : EnforceContext V I D → String → Fetched V) (allow : Option (Row V) → Bool)
      (next : Run (EnforceContext V I D)) (c : EnforceContext V I D) (row : Option (Row V))
      → decided_before c.operation ≡ true
      → (c.operation ≡ op_create) ⊎ Stored read c row
      → enforce read (decides allow) next c
        ≡ (if allow (asked c.operation c row) then next c else (abort 403 c, none))
  unfolding enforce
  enforce-before read allow next c row d (inl create) =
      ap (λ o. enforce_op read (decides allow) next o c) create
      ∙ admit-decides next c (allow (some c.parsed_body))
      ∙ ap (λ o. if allow (asked o c row) then next c else (abort 403 c, none)) (sym create)
  enforce-before read allow next c row d (inr (id, r, f)) =
      enforce_op-before read allow next c.operation c row d id r f
