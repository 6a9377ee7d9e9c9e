-- ===== src/Repositories/InMemory/Operations/Claims.antt =====
-- An idempotency key is granted once.
use social_comments_service.Base.{List, ap, false, inl, inr, none, some, sym, true, ◌∙◌, ◌≡◌}
use social_comments_service.Repositories.InMemory.{Memory}
use social_comments_service.Repositories.InMemory.Operations.{
  by_idempotency_key, claim, find_by_idempotency_key, with_account,
}
use social_comments_service.Repositories.InMemory.Operations.Cases.{
  assert_stored_reply_operation_ok,
}
use social_comments_service.Repositories.InMemory.Operations.History.{
  History, History-SameRequest, History-final, IsBound, IsBound-find, IsFinal, SameRequest,
  run_calls-IsBound,
}
use social_comments_service.Repositories.InMemory.Operations.Lifecycle.{AreFresh, Call, run_calls}
use social_comments_service.Repositories.TenantScoped.Laws.{get-set_self}
use social_comments_service.Shared.Exec.{Result, Result-cases, ok, ◌>>=◌}
use social_comments_service.Shared.Text.{Text}
use social_comments_service.Shared.Types.{ReplyOperation, ReplyOperationClaim, TenantContext}
use social_comments_service.Shared.Validation.{assert_stored_reply_operation}

module _ (context : TenantContext) (operation : ReplyOperation) where
  -- A key that is bound is not granted again, and nothing is written.
  pub claim_bound :
      (m : Memory) (id : Text) (o : ReplyOperation)
      → IsBound m context.account_id operation.idempotency_key id o
      → claim context operation m ≡ (ok (record { operation = o; claimed = false }), m)
  unfolding claim find_by_idempotency_key ◌>>=◌
  claim_bound m id o h = rw (IsBound-find h, claim)

  -- A claim that is granted binds the key to the operation as it was given.
  pub claim_granted :
      (m m' : Memory) (o : ReplyOperation)
      → claim context operation m ≡ (ok (record { operation = o; claimed = true }), m')
      → IsBound m' context.account_id operation.idempotency_key operation.id o
        × (o ≡ with_account context.account_id operation)
        × (by_idempotency_key m context.account_id operation.idempotency_key ≡ ok none)
  unfolding claim find_by_idempotency_key ◌>>=◌
  claim_granted m m' o h =
      elim (Result-cases (by_idempotency_key m context.account_id operation.idempotency_key)) [
        | inl (e, r) ↦ absurd (cc (rw (r, claim) at h))
        | inr (some old, r) ↦ absurd (cc (rw (r, claim) at h))
        | inr (none, free) ↦
            elim (Result-cases
              (assert_stored_reply_operation (with_account context.account_id operation))) [
                | inl (e, r) ↦ absurd (cc (rw (free, claim, r) at h))
                | inr (p, r) ↦
                    let (e, valid) = assert_stored_reply_operation_ok r in
                    let h' = rw (free, claim, r) at h in
                    let eo : p ≡ o = cc in
                    let em = ap (λ (x : Result ReplyOperationClaim × Memory). x.1) h' in
                    (
                      rw (← em, ← eo)
                          (record {
                            key =
                                get-set_self m.claimed_keys context.account_id
                                  operation.idempotency_key operation.id;
                            row = get-set_self m.operations context.account_id operation.id p;
                            valid = rw e valid;
                          }),
                      sym eo ∙ e,
                      free,
                    )
              ]
      ]

-- A granted key is not granted again, whatever repository calls come between, if the new claims
-- among them come with identifiers that no operation of their tenant has: each later claim of it,
-- for this request or another, is answered with the operation that holds the key, which the
-- allowed moves alone have changed, and writes nothing.
pub claim_once :
    (context : TenantContext) (operation : ReplyOperation) (m m' : Memory) (o : ReplyOperation)
    (calls : List Call) (later : ReplyOperation)
    → claim context operation m ≡ (ok (record { operation = o; claimed = true }), m')
    → AreFresh m' calls
    → later.idempotency_key ≡ operation.idempotency_key
    → (q : ReplyOperation) × History o q
      × (claim context later (run_calls calls m')
          ≡ (ok (record { operation = q; claimed = false }), run_calls calls m'))
claim_once context operation m m' o calls later granted fresh same =
    let (bound, _, _) = claim_granted context operation m m' o granted in
    let (q, bound', history) =
      run_calls-IsBound calls m' context.account_id operation.idempotency_key operation.id o fresh
        bound in
    (q, history, claim_bound context later _ operation.id q (rw same bound'))

-- A completed or failed operation that is valid and holds a key is what the key finds, unchanged,
-- after any repository calls whose new claims come with identifiers that no operation of their
-- tenant has.
pub final_unchanged :
    (calls : List Call) (m : Memory) (a k id : Text) (o : ReplyOperation)
    → AreFresh m calls
    → IsBound m a k id o
    → IsFinal o
    → by_idempotency_key (run_calls calls m) a k ≡ ok (some o)
final_unchanged calls m a k id o fresh bound final =
    let (q, bound', history) = run_calls-IsBound calls m a k id o fresh bound in
    rw (IsBound-find bound', History-final history final)

-- What a key was claimed for stays recorded: if a valid operation holds it, then after any
-- repository calls whose new claims come with identifiers that no operation of their tenant has,
-- the key finds an operation with the same identifier, tenant, comment, fingerprint and lease.
pub request_kept :
    (calls : List Call) (m : Memory) (a k id : Text) (o : ReplyOperation)
    → AreFresh m calls
    → IsBound m a k id o
    → (q : ReplyOperation) × (by_idempotency_key (run_calls calls m) a k ≡ ok (some q))
      × SameRequest o q
request_kept calls m a k id o fresh bound =
    let (q, bound', history) = run_calls-IsBound calls m a k id o fresh bound in
    (q, IsBound-find bound', History-SameRequest history)
