-- ===== src/Repositories/InMemory/Operations/Answered.antt =====
-- The operation that answers a key in src/repositories/in-memory.ts, and that operations stand under
-- their own identifiers.
use social_comments_service.Base.{
  List, Option-cases, [], ap, inl, inr, none, refl, some, some_injective, sym, ◌∙◌, ◌∷◌, ◌≡◌,
}
use social_comments_service.Comments.Ensures.{Ensures, Ensures-bind}
use social_comments_service.Comments.Invariants.{Keeps, Keeps-bind, Keeps-if, Keeps-pure}
use social_comments_service.Repositories.InMemory.{Memory, Sources, empty_memory, read_clock}
use social_comments_service.Repositories.InMemory.Operations.{
  by_idempotency_key, claim, complete, fail, find_by_idempotency_key, find_operation, mark_unknown,
  record_published, update, with_account,
}
use social_comments_service.Repositories.InMemory.Operations.Cases.{
  assert_stored_reply_operation_ok, update_cases,
}
use social_comments_service.Repositories.InMemory.Operations.History.{IsBound, IsBound-find}
use social_comments_service.Repositories.TenantScoped.{Entries, get, lookup, scope, set}
use social_comments_service.Repositories.TenantScoped.Laws.{get-set_cases, get-set_self}
use social_comments_service.Shared.Exec.{Result-cases, gets, ok, ◌>>=◌}
use social_comments_service.Shared.Text.{Text}
use social_comments_service.Shared.Types.{
  PublishedPost, ReplyOperation, ReplyOperationClaim, ReplyOperationStatus, TenantContext,
  completed, pending,
}
use social_comments_service.Shared.Validation.{assert_stored_reply_operation}

abbrev pub HasOwnIds : Memory → Type 0
HasOwnIds m = (a id : Text) (o : ReplyOperation) → get m.operations a id ≡ some o → o.id ≡ id

-- The key finds a completed operation with this comment.
abbrev pub IsAnswered : Text → Text → Text → Memory → Type 0
IsAnswered a key i m =
    (o : ReplyOperation) × (by_idempotency_key m a key ≡ ok (some o))
    × (o.status ≡ completed)
    × (o.resulting_comment_id ≡ some i)

pub empty_memory-HasOwnIds :
    (sources : Sources) (posts : Entries PublishedPost) → HasOwnIds (empty_memory sources posts)
unfolding get scope lookup
empty_memory-HasOwnIds sources posts a id o h = absurd (cc h)

-- A row may be written under its own identifier.
set-HasOwnIds :
    (m : Memory) (a id : Text) (o : ReplyOperation)
    → o.id ≡ id
    → HasOwnIds m
    → HasOwnIds (record m { operations = set m.operations a id o })
set-HasOwnIds m a id o same h b j p r = elim (get-set_cases m.operations a b id j o) [
  | inl (x, y, w) ↦ ap (λ q. q.id) (some_injective (sym r ∙ w)) ∙ same ∙ y
  | inr (x, w) ↦ h b j p (sym w ∙ r)
]

-- The key finds the operation that it is bound to.
pub found-IsBound :
    (m : Memory) (a key : Text) (o : ReplyOperation)
    → by_idempotency_key m a key ≡ ok (some o)
    → (id : Text) × IsBound m a key id o
unfolding by_idempotency_key
found-IsBound m a key o h = elim (Option-cases (get m.claimed_keys a key)) [
  | inl e ↦ absurd (cc (rw (by_idempotency_key, e) at h))
  | inr (id, e) ↦ elim (Option-cases (get m.operations a id)) [
    | inl r ↦ absurd (cc (rw (by_idempotency_key, e, find_operation, r) at h))
    | inr (p, r) ↦ elim (Result-cases (assert_stored_reply_operation p)) [
      | inl (x, t) ↦ absurd (cc (rw (by_idempotency_key, e, find_operation, r, t) at h))
      | inr (q, t) ↦
          let (same, valid) = assert_stored_reply_operation_ok t in
          let found : q ≡ o = cc (rw (by_idempotency_key, e, find_operation, r, t) at h) in
          (
            id,
            record {
              key = e;
              row = r ∙ ap (λ z. some z) (sym same ∙ found);
              valid = rw (sym same ∙ found) at valid;
            },
          )
    ]
  ]
]

module _ (c : TenantContext) where
  update-HasOwnIds :
      (i : Text) (f : ReplyOperation → ReplyOperation) (from : List ReplyOperationStatus)
      → ((o : ReplyOperation) → (f o).id ≡ o.id)
      → Keeps HasOwnIds (update c i f from)
  update-HasOwnIds i f from same = record {
    kept = λ m h. elim (update_cases c i f from m) [
      | inl (e, r) ↦ rw r h
      | inr (o, row, t, v, r) ↦
          rw r (set-HasOwnIds m c.account_id i (f o) (same o ∙ h c.account_id i o row) h)
    ];
  }

  pub claim-HasOwnIds : (o : ReplyOperation) → Keeps HasOwnIds (claim c o)
  unfolding claim find_by_idempotency_key ◌>>=◌
  claim-HasOwnIds o = record {
    kept = λ m h. elim (Result-cases (by_idempotency_key m c.account_id o.idempotency_key)) [
      | inl (e, r) ↦ rw (r, claim) h
      | inr (some old, r) ↦ rw (r, claim) h
      | inr (none, free) ↦
          elim (Result-cases (assert_stored_reply_operation (with_account c.account_id o))) [
            | inl (e, r) ↦ rw (free, claim, r) h
            | inr (q, r) ↦
                let (same, valid) = assert_stored_reply_operation_ok r in
                rw (free, claim, r) (set-HasOwnIds m c.account_id o.id q (ap (λ z. z.id) same) h)
          ]
    ];
  }

  module _ (i e : Text) where
    pub complete-HasOwnIds : Keeps HasOwnIds (complete c i e)
    unfolding complete read_clock
    complete-HasOwnIds =
        Keeps-bind _ _ (record { kept = λ m h. h }) λ now. update-HasOwnIds i _ _ (λ o. refl)

    pub fail-HasOwnIds : Keeps HasOwnIds (fail c i e)
    unfolding fail read_clock
    fail-HasOwnIds =
        Keeps-bind _ _ (record { kept = λ m h. h }) λ now. update-HasOwnIds i _ _ (λ o. refl)

    pub mark_unknown-HasOwnIds : Keeps HasOwnIds (mark_unknown c i e)
    unfolding mark_unknown read_clock gets
    mark_unknown-HasOwnIds =
        Keeps-bind _ _ (record { kept = λ m h. h })
          λ o. Keeps-if _ _ _ (Keeps-pure _) (
            Keeps-bind _ _ (record { kept = λ m h. h })
              λ now. Keeps-bind _ _ (update-HasOwnIds i _ _ (λ o. refl)) λ u. Keeps-pure _)

    pub record_published-HasOwnIds : Keeps HasOwnIds (record_published c i e)
    unfolding record_published
    record_published-HasOwnIds = update-HasOwnIds i _ _ (λ o. refl)

  update-IsAnswered :
      (key id i : Text) (f : ReplyOperation → ReplyOperation) (from : List ReplyOperationStatus)
      → ((o : ReplyOperation) → ((f o).status ≡ completed) × ((f o).resulting_comment_id ≡ some i))
      → Ensures
          (λ m. get m.claimed_keys c.account_id key ≡ some id)
          (λ o. IsAnswered c.account_id key i)
          (update c id f from)
  update-IsAnswered key id i f from answers = record {
    leaves = λ m u p e. elim (update_cases c id f from m) [
      | inl (x, r) ↦ absurd (cc (rw r at e))
      | inr (o, row, t, v, r) ↦
          let bound : IsBound (record m { operations = set m.operations c.account_id id (f o) })
              c.account_id key id (f o) =
            record { key = p; row = get-set_self m.operations c.account_id id (f o); valid = v } in
          rw r (f o, IsBound-find bound, (answers o).0, (answers o).1)
    ];
  }

  -- Completing the operation that a key is bound to answers the key.
  pub complete-IsAnswered :
      (key id i : Text)
      → Ensures
          (λ m. get m.claimed_keys c.account_id key ≡ some id)
          (λ o. IsAnswered c.account_id key i)
          (complete c id i)
  unfolding complete read_clock
  complete-IsAnswered key id i =
      Ensures-bind {Q = λ now m. get m.claimed_keys c.account_id key ≡ some id} _ _
        (record { leaves = λ m n p e. p }) λ now. update-IsAnswered key id i _ _ (λ o. (refl, refl))

  pub record_published-claimed_keys :
      (i e : Text) (m : Memory) → (record_published c i e m).1.claimed_keys ≡ m.claimed_keys
  unfolding record_published
  record_published-claimed_keys i e m =
      elim (update_cases c i (λ o. record o { external_reply_id = some e }) (pending ∷ []) m) [
        | inl (x, r) ↦ rw r refl
        | inr (o, row, t, v, r) ↦ rw r refl
      ]

  -- A claim answers with the operation that the key finds then.
  pub claim-finds :
      (o : ReplyOperation) (m : Memory) (g : ReplyOperationClaim)
      → (claim c o m).0 ≡ ok g
      → by_idempotency_key (claim c o m).1 c.account_id o.idempotency_key ≡ ok (some g.operation)
  unfolding claim find_by_idempotency_key ◌>>=◌
  claim-finds o m g e = elim (Result-cases (by_idempotency_key m c.account_id o.idempotency_key)) [
    | inl (x, r) ↦ absurd (cc (rw (r, claim) at e))
    | inr (some old, r) ↦
        let same : old ≡ g.operation = cc (rw (r, claim) at e) in
        rw (r, claim) (r ∙ ap (λ z. ok (some z)) same)
    | inr (none, free) ↦
        elim (Result-cases (assert_stored_reply_operation (with_account c.account_id o))) [
          | inl (x, r) ↦ absurd (cc (rw (free, claim, r) at e))
          | inr (q, r) ↦
              let (same, valid) = assert_stored_reply_operation_ok r in
              let made : q ≡ g.operation = cc (rw (free, claim, r) at e) in
              let bound : IsBound
                  (record m {
                    claimed_keys = set m.claimed_keys c.account_id o.idempotency_key o.id;
                    operations = set m.operations c.account_id o.id q;
                  })
                  c.account_id o.idempotency_key o.id q =
                record {
                  key = get-set_self m.claimed_keys c.account_id o.idempotency_key o.id;
                  row = get-set_self m.operations c.account_id o.id q;
                  valid = rw same valid;
                } in
              rw (free, claim, r) (IsBound-find bound ∙ ap (λ z. ok (some z)) made)
        ]
  ]
