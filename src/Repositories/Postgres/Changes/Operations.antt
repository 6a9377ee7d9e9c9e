-- ===== src/Repositories/Postgres/Changes/Operations.antt =====
-- The methods of `PostgresReplyOperationRepository` make changes of the tenant alone.
use social_comments_service.Base.{
  Bool-cases, List, Option, Option-cases, [], any, ap, arith, inl, inr, none, refl, some, sym, true,
  ◌∷◌, ◌≡◌, ◌⊎◌,
}
use social_comments_service.Comments.Invariants.{Keeps, Keeps-bind, Keeps-bind-lift, Keeps-lift}
use social_comments_service.Repositories.Postgres.{
  Database, Engine, OperationRow, Tables, as_uuid, collect, find_where,
}
use social_comments_service.Repositories.Postgres.Changes.{
  Moves, changed, claims, completes, fails, loses, moves, publishes,
}
use social_comments_service.Repositories.Postgres.Changes.Transactions.{
  IsReached, db_read_clock-Keeps, transaction_rules, with_tenant-Keeps,
}
use social_comments_service.Repositories.Postgres.Operations.{
  answer_claim, has_comment, has_references, in_state, insert_claim, insert_operation,
  operation_by_key, operation_row, select_by_idempotency_key, set_completed, set_failed,
  set_published, set_unknown, store_operation, update_operations, updated_operation,
}
use social_comments_service.Shared.Exec.{Result, err, ok, ok_injective}
use social_comments_service.Shared.Text.{Text, text_eq}
use social_comments_service.Shared.Types.{
  ReplyOperation, ReplyOperationStatus, TenantContext, pending, status_eq, unknown,
}

-- The state of a row that an update by state accepts.
in_state_pending :
    (t id : Text) (o : OperationRow) → in_state t id (pending ∷ []) o ≡ true → o.status ≡ pending
unfolding status_eq
in_state_pending t id o h = ground arith

in_state_open :
    (t id : Text) (o : OperationRow)
    → in_state t id (pending ∷ unknown ∷ []) o ≡ true
    → (o.status ≡ pending) ⊎ (o.status ≡ unknown)
unfolding status_eq
in_state_open t id o h = ground arith

pub collect_ok :
    {A B : Type 0} (r : Result A) (f : A → Result B) (b : B)
    → collect r f ≡ ok b
    → (a : A) × (f a ≡ ok b)
unfolding collect
collect_ok (ok a) f b h = (a, h)
collect_ok (err e) f b h = cc

-- A claim is inserted for the tenant, under its key.
pub operation_row_read :
    (e : Engine) (t : Text) (o : ReplyOperation) (row : OperationRow)
    → operation_row e t o ≡ ok row
    → (row.account_id ≡ t) × (row.idempotency_key ≡ o.idempotency_key)
unfolding operation_row
operation_row_read e t o row h =
    let (id, h₁) = collect_ok _ _ row h in
    let (ci, h₂) = collect_ok _ _ row h₁ in
    let (ri, h₃) = collect_ok _ _ row h₂ in
    let (le, h₄) = collect_ok _ _ row h₃ in
    let (cr, h₅) = collect_ok _ _ row h₄ in
    let (co, h₆) = collect_ok _ _ row h₅ in
    let same = ok_injective _ row h₆ in
    (
      sym (ap (λ (r : OperationRow). r.account_id) same),
      sym (ap (λ (r : OperationRow). r.idempotency_key) same),
    )

module _ {T : Text → Type 0} {s₀ : Tables} where
  -- The constraints of the table, once the key is free.
  store_operation-Keeps :
      (row : OperationRow) (db : Database)
      → T row.account_id
      → operation_by_key db.tables row.account_id row.idempotency_key ≡ none
      → IsReached T s₀ db
      → IsReached T s₀ (store_operation row db).1
  unfolding store_operation
  store_operation-Keeps row db t free p =
      elim (Bool-cases (any (λ o. text_eq o.id row.id) db.tables.reply_operations)) [
        | inl x ↦ rw (x, store_operation) p
        | inr x ↦ elim (Bool-cases (has_references db.tables row)) [
          | inr y ↦ rw (x, store_operation, y) p
          | inl y ↦ rw (x, store_operation, y) (changed p (claims row t free refl))
        ]
      ]

  insert_operation-Keeps :
      (row : OperationRow) → T row.account_id → Keeps (IsReached T s₀) (insert_operation row)
  unfolding insert_operation
  insert_operation-Keeps row t = record {
    kept = λ db p.
        elim (Option-cases (operation_by_key db.tables row.account_id row.idempotency_key)) [
          | inr (_, e) ↦ rw (e, insert_operation) p
          | inl e ↦ rw (e, insert_operation) (store_operation-Keeps row db t e p)
        ];
  }

  update_operations-Keeps :
      (t id : Text) (from : List ReplyOperationStatus) (change : OperationRow → OperationRow)
      → T t
      → ((o : OperationRow) → in_state t id from o ≡ true → Moves o (change o))
      → Keeps (IsReached T s₀) (update_operations t id from change)
  unfolding update_operations
  update_operations-Keeps t id from change h m = record {
    kept = λ db p.
        elim (Option-cases (find_where (in_state t id from) db.tables.reply_operations)) [
          | inl e ↦ rw (e, update_operations) p
          | inr (row, e) ↦
              elim (Bool-cases (has_comment db.tables (change row).resulting_comment_id)) [
                | inr y ↦ rw (e, update_operations, y) p
                | inl y ↦ rw (e, update_operations, y) (changed p (moves t id from change h m refl))
              ]
        ];
  }

  updated_operation-Keeps :
      (row : Option OperationRow) → Keeps (IsReached T s₀) (updated_operation row)
  updated_operation-Keeps row = search transaction_rules

  answer_claim-Keeps :
      (t k : Text) (row : Option OperationRow) → Keeps (IsReached T s₀) (answer_claim t k row)
  unfolding answer_claim
  answer_claim-Keeps t k (some row) = search transaction_rules
  answer_claim-Keeps t k none = search transaction_rules

  module _ (e : Engine) (c : TenantContext)
      (tenant : (t : Text) → as_uuid e c.account_id ≡ ok t → T t) where
    pub select_by_idempotency_key-Keeps :
        (k : Text) → Keeps (IsReached T s₀) (select_by_idempotency_key e c k)
    unfolding select_by_idempotency_key
    select_by_idempotency_key-Keeps k = with_tenant-Keeps e _ _ λ t x. search transaction_rules

    pub insert_claim-Keeps : (o : ReplyOperation) → Keeps (IsReached T s₀) (insert_claim e c o)
    unfolding insert_claim
    insert_claim-Keeps o = with_tenant-Keeps e _ _ λ t x. Keeps-bind-lift _ _ λ row y.
        Keeps-bind _ _
          (insert_operation-Keeps row (rw ((operation_row_read e t o row y).0) (tenant t x)))
          (answer_claim-Keeps t _)

    pub set_published-Keeps : (i r : Text) → Keeps (IsReached T s₀) (set_published e c i r)
    unfolding set_published
    set_published-Keeps i r = with_tenant-Keeps e _ _ λ t x. Keeps-bind _ _ (Keeps-lift _) λ id.
        Keeps-bind _ _
          (update_operations-Keeps t id _ _ (tenant t x)
            (λ o h. publishes o r (in_state_pending t id o h)))
          updated_operation-Keeps

    pub set_completed-Keeps : (i r : Text) → Keeps (IsReached T s₀) (set_completed e c i r)
    unfolding set_completed
    set_completed-Keeps i r = Keeps-bind _ _ db_read_clock-Keeps λ now.
        with_tenant-Keeps e _ _ λ t x. Keeps-bind _ _ (Keeps-lift _) λ id.
          Keeps-bind _ _ (Keeps-lift _) λ resulting. Keeps-bind _ _ (Keeps-lift _) λ at.
            Keeps-bind _ _
              (update_operations-Keeps t id _ _ (tenant t x)
                (λ o h. completes o resulting at (in_state_open t id o h)))
              updated_operation-Keeps

    pub set_failed-Keeps : (i r : Text) → Keeps (IsReached T s₀) (set_failed e c i r)
    unfolding set_failed
    set_failed-Keeps i r = Keeps-bind _ _ db_read_clock-Keeps λ now. with_tenant-Keeps e _ _ λ t x.
        Keeps-bind _ _ (Keeps-lift _) λ id. Keeps-bind _ _ (Keeps-lift _) λ at.
          Keeps-bind _ _
            (update_operations-Keeps t id _ _ (tenant t x)
              (λ o h. fails o r at (in_state_pending t id o h)))
            updated_operation-Keeps

    pub set_unknown-Keeps : (i r : Text) → Keeps (IsReached T s₀) (set_unknown e c i r)
    unfolding set_unknown
    set_unknown-Keeps i r = with_tenant-Keeps e _ _ λ t x. Keeps-bind _ _ db_read_clock-Keeps λ now.
        Keeps-bind _ _ (Keeps-lift _) λ id. Keeps-bind _ _ (Keeps-lift _) λ at.
          Keeps-bind _ _
            (update_operations-Keeps t id _ _ (tenant t x)
              (λ o h. loses o r at (in_state_pending t id o h)))
            (λ row. Keeps-lift _)
