-- ===== src/Repositories/Postgres/Changes/Granted.antt =====
-- What a claim that the database grants has done.
use social_comments_service.Base.{
  Bool-cases, Option, Option-cases, any, ap, false, inl, inr, none, refl, some, sym, true, ◌∙◌, ◌∷◌,
  ◌≡◌, ◌≢◌, ◌⊎◌,
}
use social_comments_service.Repositories.Postgres.{
  Database, Engine, OperationRow, Tables, as_uuid, find_where, when_committed, with_tenant,
}
use social_comments_service.Repositories.Postgres.Changes.Operations.{operation_row_read}
use social_comments_service.Repositories.Postgres.Operations.{
  answer_claim, has_references, insert_claim, insert_operation, operation_by_key, operation_row,
  store_operation, to_operation,
}
use social_comments_service.Shared.Exec.{
  Exec, Result, bind-pure-state, bind-returns, err, lift, ok, ok_injective, pure, ◌>>=◌,
}
use social_comments_service.Shared.Text.{Text, text_eq}
use social_comments_service.Shared.Text.Order.{text_eq_refl}
use social_comments_service.Shared.Types.{ReplyOperation, ReplyOperationClaim, TenantContext}

committed-returns :
    {A : Type 0} (before : Tables) (x : Result A × Database) (a : A)
    → (when_committed before x).0 ≡ ok a
    → (x.0 ≡ ok a) × ((when_committed before x).1 ≡ x.1)
committed-returns before (ok b, db) a h = (h, refl)
committed-returns before (err e, db) a h = cc

pub with_tenant-returns :
    {A : Type 0} (e : Engine) (account_id : Text) (run : Text → Exec Database A) (db : Database)
    (a : A)
    → (with_tenant e account_id run db).0 ≡ ok a
    → (t : Text) × (as_uuid e account_id ≡ ok t)
      × ((run t db).0 ≡ ok a)
      × ((with_tenant e account_id run db).1 ≡ (run t db).1)
unfolding with_tenant lift
with_tenant-returns e account_id run db a h =
    let (g, s) = committed-returns db.tables ((lift (as_uuid e account_id) >>= run) db) a h in
    let (t, x, y, z) = bind-returns (lift (as_uuid e account_id)) run db a g in (t, x, y, s ∙ z)

store_operation-returns :
    (row : OperationRow) (db : Database) (r : Option OperationRow)
    → (store_operation row db).0 ≡ ok r
    → (store_operation row db).1.tables
      ≡ record db.tables { reply_operations = row ∷ db.tables.reply_operations }
unfolding store_operation
store_operation-returns row db r h =
    elim (Bool-cases (any (λ o. text_eq o.id row.id) db.tables.reply_operations)) [
      | inl x ↦ absurd (cc (rw (store_operation, x) at h))
      | inr x ↦ elim (Bool-cases (has_references db.tables row)) [
        | inr y ↦ absurd (cc (rw (store_operation, x, y) at h))
        | inl y ↦ rw (store_operation, x, y) refl
      ]
    ]

insert_operation-returns :
    (row : OperationRow) (db : Database) (r : Option OperationRow)
    → (insert_operation row db).0 ≡ ok r
    → (r ≡ none)
      ⊎ ((operation_by_key db.tables row.account_id row.idempotency_key ≡ none)
          × ((insert_operation row db).1.tables
              ≡ record db.tables { reply_operations = row ∷ db.tables.reply_operations }))
unfolding insert_operation
insert_operation-returns row db r h =
    elim (Option-cases (operation_by_key db.tables row.account_id row.idempotency_key)) [
      | inr (o, e) ↦ inl (sym (ok_injective none r (rw (insert_operation, e) at h)))
      | inl e ↦ inr (
        e,
        rw (insert_operation, e) (store_operation-returns row db r (rw (insert_operation, e) at h)),
      )
    ]

-- A claim that finds its key taken is not granted, and a granted one writes no more.
answer_claim-taken :
    (t k : Text) (db : Database) (g : ReplyOperationClaim)
    → (answer_claim t k none db).0 ≡ ok g
    → g.claimed ≡ false
unfolding answer_claim pure
answer_claim-taken t k db g h =
    let (existing, _, h₁, _) = bind-returns _ _ db g h in
    let (current, _, h₂, _) = bind-returns _ _ _ g h₁ in
    let (o, _, h₃, _) = bind-returns _ _ _ g h₂ in
    sym (ap (λ (x : ReplyOperationClaim). x.claimed) (ok_injective _ g h₃))

answer_claim-state :
    (t k : Text) (row : OperationRow) (db : Database) → (answer_claim t k (some row) db).1 ≡ db
unfolding answer_claim lift
answer_claim-state t k row db = bind-pure-state _ (lift (to_operation row)) db

-- A granted claim found its key free and has added a row that holds it.
pub insert_claim-granted :
    (e : Engine) (c : TenantContext) (o : ReplyOperation) (db : Database) (g : ReplyOperationClaim)
    → (insert_claim e c o db).0 ≡ ok g
    → g.claimed ≡ true
    → (t : Text) × (row : OperationRow) × (as_uuid e c.account_id ≡ ok t)
      × (operation_by_key db.tables t o.idempotency_key ≡ none)
      × (operation_by_key (insert_claim e c o db).1.tables t o.idempotency_key ≡ some row)
unfolding insert_claim lift operation_by_key find_where
insert_claim-granted e c o db g h granted =
    let (t, x, h₁, s₁) = with_tenant-returns e c.account_id _ db g h in
    let (row, r, h₂, s₂) = bind-returns (lift (operation_row e t o)) _ db g h₁ in
    let (inserted, i, h₃, s₃) = bind-returns (insert_operation row) _ db g h₂ in
    let (ea, ek) = operation_row_read e t o row r in
    let refused : inserted ≢ none =
      λ n. cc (granted, answer_claim-taken t o.idempotency_key _ g (rw n at h₃)) in
    elim (insert_operation-returns row db inserted i) [
      | inl n ↦ absurd (refused n)
      | inr (free, added) ↦ elim (Option-cases inserted) [
        | inl n ↦ absurd (refused n)
        | inr (row', n) ↦
            let same : (insert_claim e c o db).1.tables
                ≡ record db.tables { reply_operations = row ∷ db.tables.reply_operations } =
              ap (λ (d : Database). d.tables) (s₁ ∙ s₂ ∙ s₃)
              ∙ ap (λ (d : Database). d.tables)
                  (ap
                      (λ (z : Option OperationRow).
                        (answer_claim t o.idempotency_key z (insert_operation row db).1).1)
                      n
                    ∙ answer_claim-state t o.idempotency_key row' _)
              ∙ added in
            (
              t,
              row,
              x,
              rw (← ea, ← ek) free,
              rw same (rw (ea, ek, text_eq_refl t, text_eq_refl o.idempotency_key) refl),
            )
      ]
    ]
