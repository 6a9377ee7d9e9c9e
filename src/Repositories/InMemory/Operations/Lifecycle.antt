-- ===== src/Repositories/InMemory/Operations/Lifecycle.antt =====
-- What one repository call may do to a reply operation.
use social_comments_service.Base.{
  Bool-cases, List, Option, [], any, arith, inl, inr, none, refl, some, true, ◌∷◌, ◌≡◌, ◌⊎◌,
}
use social_comments_service.Repositories.InMemory.{Memory, Sources, read_clock}
use social_comments_service.Repositories.InMemory.Operations.{
  by_idempotency_key, claim, complete, fail, find_by_idempotency_key, is_pending, mark_unknown,
  record_published, update, with_account,
}
use social_comments_service.Repositories.InMemory.Operations.Cases.{
  assert_stored_reply_operation_ok, update_cases,
}
use social_comments_service.Repositories.TenantScoped.{get, set}
use social_comments_service.Shared.Exec.{Result-cases, bind-pure-state, ok, ◌>>=◌}
use social_comments_service.Shared.Text.{Text}
use social_comments_service.Shared.Types.{
  ReplyOperation, ReplyOperationStatus, TenantContext, completed, failed, pending, status_eq,
  unknown,
}
use social_comments_service.Shared.Validation.{
  assert_stored_reply_operation, is_valid_reply_operation,
}

pub data Call : Type 0 where
  claims : TenantContext → ReplyOperation → Call
  records completes fails marks : TenantContext → Text → Text → Call

-- The memory after a call, whether it returned or threw.
unfoldable pub run_call : Call → Memory → Memory
run_call (claims context o) m = (claim context o m).1
run_call (records context id external_id) m = (record_published context id external_id m).1
run_call (completes context id comment_id) m = (complete context id comment_id m).1
run_call (fails context id code) m = (fail context id code m).1
run_call (marks context id code) m = (mark_unknown context id code m).1

unfoldable pub run_calls : List Call → Memory → Memory
run_calls [] m = m
run_calls (c ∷ cs) m = run_calls cs (run_call c m)

-- The moves that the documentation of the statuses allows.
pub data Evolves : ReplyOperation → ReplyOperation → Type 0 where
  published :
      (o : ReplyOperation) (e : Text)
      → o.status ≡ pending
      → Evolves o (record o { external_reply_id = some e })
  completes_as :
      (o : ReplyOperation) (c at : Text)
      → (o.status ≡ pending) ⊎ (o.status ≡ unknown)
      → Evolves o
          (record o { status = completed; resulting_comment_id = some c; completed_at = some at })
  fails_with :
      (o : ReplyOperation) (code at : Text)
      → o.status ≡ pending
      → Evolves o (record o { status = failed; failure_code = some code; completed_at = some at })
  lost_with :
      (o : ReplyOperation) (code at : Text)
      → o.status ≡ pending
      → Evolves o (record o { status = unknown; failure_code = some code; completed_at = some at })

-- What a call did. `Fresh` is what is known of the identifier of a new operation.
pub data Effect (Fresh : Text → Text → Type 0) (m m' : Memory) : Type 0 where
  nothing : m'.operations ≡ m.operations → m'.claimed_keys ≡ m.claimed_keys → Effect Fresh m m'
  changes :
      (a id : Text) (o o' : ReplyOperation)
      → get m.operations a id ≡ some o
      → Evolves o o'
      → is_valid_reply_operation o' ≡ true
      → m'.operations ≡ set m.operations a id o'
      → m'.claimed_keys ≡ m.claimed_keys
      → Effect Fresh m m'
  creates :
      (a : Text) (o : ReplyOperation)
      → by_idempotency_key m a o.idempotency_key ≡ ok none
      → Fresh a o.id
      → is_valid_reply_operation o ≡ true
      → m'.operations ≡ set m.operations a o.id o
      → m'.claimed_keys ≡ set m.claimed_keys a o.idempotency_key o.id
      → Effect Fresh m m'

is_pending_only : (s : ReplyOperationStatus) → any (status_eq s) (pending ∷ []) ≡ true → s ≡ pending
unfolding status_eq
is_pending_only s h = ground arith

is_open_only :
    (s : ReplyOperationStatus)
    → any (status_eq s) (pending ∷ unknown ∷ []) ≡ true
    → (s ≡ pending) ⊎ (s ≡ unknown)
unfolding status_eq
is_open_only s h = ground arith

-- An update whose change is a move of the operation has that effect or none.
pub update-Effect :
    {Fresh : Text → Text → Type 0} (context : TenantContext) (id : Text)
    (f : ReplyOperation → ReplyOperation) (from : List ReplyOperationStatus) (m : Memory)
    → ((o : ReplyOperation) → any (status_eq o.status) from ≡ true → Evolves o (f o))
    → Effect Fresh m (update context id f from m).1
update-Effect context id f from m moves = elim (update_cases context id f from m) [
  | inl (e, r) ↦ rw r (nothing refl refl)
  | inr (o, found, t, v, r) ↦
      rw r (changes context.account_id id o (f o) found (moves o t) v refl refl)
]

pub record_published-Effect :
    {Fresh : Text → Text → Type 0} (context : TenantContext) (id e : Text) (m : Memory)
    → Effect Fresh m (record_published context id e m).1
unfolding record_published
record_published-Effect context id e m =
    update-Effect context id _ _ m (λ o t. published o e (is_pending_only o.status t))

-- Reading the clock or drawing an identifier first makes no difference.
Effect-sources :
    {Fresh : Text → Text → Type 0} (m m' : Memory) (s : Sources)
    → Effect Fresh (record m { sources = s }) m'
    → Effect Fresh m m'
unfolding by_idempotency_key
Effect-sources m m' s (nothing p q) = nothing p q
Effect-sources m m' s (changes a id o o' found e v p q) = changes a id o o' found e v p q
Effect-sources m m' s (creates a o free e v p q) = creates a o free e v p q

pub complete-Effect :
    {Fresh : Text → Text → Type 0} (context : TenantContext) (id c : Text) (m : Memory)
    → Effect Fresh m (complete context id c m).1
unfolding complete read_clock ◌>>=◌
complete-Effect context id c m =
    Effect-sources m _ _
      (update-Effect context id _ _ _ (λ o t. completes_as o c _ (is_open_only o.status t)))

pub fail-Effect :
    {Fresh : Text → Text → Type 0} (context : TenantContext) (id code : Text) (m : Memory)
    → Effect Fresh m (fail context id code m).1
unfolding fail read_clock ◌>>=◌
fail-Effect context id code m =
    Effect-sources m _ _
      (update-Effect context id _ _ _ (λ o t. fails_with o code _ (is_pending_only o.status t)))

-- `mark_unknown` looks before it reads the clock and updates.
pub mark_unknown-Effect :
    {Fresh : Text → Text → Type 0} (context : TenantContext) (id code : Text) (m : Memory)
    → Effect Fresh m (mark_unknown context id code m).1
unfolding mark_unknown read_clock ◌>>=◌
mark_unknown-Effect context id code m =
    elim (Bool-cases (is_pending (get m.operations context.account_id id))) [
      | inr closed ↦ rw (closed, mark_unknown) (nothing refl refl)
      | inl open' ↦
          rw (open', mark_unknown)
            (rw (bind-pure-state {B = Option ReplyOperation} some) (
              Effect-sources m _ _ (
                update-Effect context id _ _ _
                  (λ o t. lost_with o code _ (is_pending_only o.status t)))))
    ]

pub claim-Effect :
    {Fresh : Text → Text → Type 0} (context : TenantContext) (o : ReplyOperation) (m : Memory)
    → Fresh context.account_id o.id
    → Effect Fresh m (claim context o m).1
unfolding claim find_by_idempotency_key ◌>>=◌
claim-Effect context o m fresh =
    elim (Result-cases (by_idempotency_key m context.account_id o.idempotency_key)) [
      | inl (e, r) ↦ rw (r, claim) (nothing refl refl)
      | inr (some old, r) ↦ rw (r, claim) (nothing refl refl)
      | inr (none, free) ↦
          elim (Result-cases (assert_stored_reply_operation (with_account context.account_id o))) [
            | inl (e, r) ↦ rw (free, claim, r) (nothing refl refl)
            | inr (p, r) ↦
                let (same, valid) = assert_stored_reply_operation_ok r in
                rw (free, claim, r)
                  (rw same (
                    creates context.account_id (with_account context.account_id o) free fresh valid
                      refl refl))
          ]
    ]

-- No operation of the tenant has the identifier.
abbrev pub IsUnused : Memory → Text → Text → Type 0
IsUnused m a i = get m.operations a i ≡ none

-- A new claim comes with an identifier that no operation of the tenant has.
abbrev pub IsFresh : Memory → Call → Type 0
IsFresh m (claims context o) = get m.operations context.account_id o.id ≡ none
IsFresh m (records _ _ _) = Unit
IsFresh m (completes _ _ _) = Unit
IsFresh m (fails _ _ _) = Unit
IsFresh m (marks _ _ _) = Unit

abbrev pub AreFresh : Memory → List Call → Type 0
AreFresh m [] = Unit
AreFresh m (c ∷ cs) = IsFresh m c × AreFresh (run_call c m) cs

pub run_call-Effect : (c : Call) (m : Memory) → IsFresh m c → Effect (IsUnused m) m (run_call c m)
unfolding run_call
run_call-Effect (claims context o) m h = claim-Effect context o m h
run_call-Effect (records context id e) m h = record_published-Effect context id e m
run_call-Effect (completes context id c) m h = complete-Effect context id c m
run_call-Effect (fails context id code) m h = fail-Effect context id code m
run_call-Effect (marks context id code) m h = mark_unknown-Effect context id code m
