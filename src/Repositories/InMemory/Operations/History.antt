-- ===== src/Repositories/InMemory/Operations/History.antt =====
-- The states of a reply operation under any sequence of repository calls.
use social_comments_service.Base.{
  Bool-cases, List, [], arith, inl, inr, refl, some, true, ◌&&◌, ◌∷◌, ◌≡◌, ◌⊎◌,
}
use social_comments_service.Repositories.InMemory.{Memory}
use social_comments_service.Repositories.InMemory.Operations.{by_idempotency_key, find_operation}
use social_comments_service.Repositories.InMemory.Operations.Cases.{
  assert_stored_reply_operation_valid,
}
use social_comments_service.Repositories.InMemory.Operations.Lifecycle.{
  AreFresh, Call, Effect, Evolves, IsUnused, changes, completes_as, creates, fails_with, lost_with,
  nothing, published, run_call, run_call-Effect, run_calls,
}
use social_comments_service.Repositories.TenantScoped.{get}
use social_comments_service.Repositories.TenantScoped.Laws.{get-set}
use social_comments_service.Shared.Exec.{ok}
use social_comments_service.Shared.Text.{Text, text_eq}
use social_comments_service.Shared.Text.Order.{text_eq_both}
use social_comments_service.Shared.Types.{ReplyOperation, completed, failed}
use social_comments_service.Shared.Validation.{is_valid_reply_operation}

pub data History : ReplyOperation → ReplyOperation → Type 0 where
  unmoved : (o : ReplyOperation) → History o o
  moved : {o p q : ReplyOperation} → Evolves o p → History p q → History o q

-- A key of a tenant, bound to a valid stored operation.
pub record IsBound (m : Memory) (a k id : Text) (o : ReplyOperation) : Type 0 where
  pub key : get m.claimed_keys a k ≡ some id
  pub row : get m.operations a id ≡ some o
  pub valid : is_valid_reply_operation o ≡ true

abbrev pub StaysOrEvolves : ReplyOperation → ReplyOperation → Type 0
StaysOrEvolves o o' = (o' ≡ o) ⊎ Evolves o o'

-- One effect leaves a stored operation as it is, or moves it.
pub Effect-row :
    {m m' : Memory} (a i : Text) (o : ReplyOperation)
    → Effect (IsUnused m) m m'
    → get m.operations a i ≡ some o
    → (o' : ReplyOperation) × (get m'.operations a i ≡ some o') × StaysOrEvolves o o'
Effect-row a i o (nothing p q) row = (o, rw p row, inl refl)
Effect-row {m} a i o (changes b j u v found e valid p q) row =
    elim (Bool-cases (text_eq b a && text_eq j i)) [
      | inl t ↦
          let (eb, ej) = text_eq_both b a j i t in
          let old : u ≡ o = cc in
          (v, rw p (rw (get-set m.operations b a j i v, t) refl), inr (rw old at e))
      | inr t ↦ (o, rw p (rw (get-set m.operations b a j i v, t) row), inl refl)
    ]
Effect-row {m} a i o (creates b n free fresh valid p q) row =
    elim (Bool-cases (text_eq b a && text_eq n.id i)) [
      | inl t ↦ let (eb, ej) = text_eq_both b a n.id i t in cc
      | inr t ↦ (o, rw p (rw (get-set m.operations b a n.id i n, t) row), inl refl)
    ]

-- What a row becomes is valid, if it was.
pub Effect-valid :
    {Fresh : Text → Text → Type 0} {m m' : Memory} (a i : Text) (o o' : ReplyOperation)
    → Effect Fresh m m'
    → get m.operations a i ≡ some o
    → get m'.operations a i ≡ some o'
    → is_valid_reply_operation o ≡ true
    → is_valid_reply_operation o' ≡ true
Effect-valid a i o o' (nothing p q) row row' v = let e : o ≡ o' = cc (rw p at row') in rw e at v
Effect-valid {m} a i o o' (changes b j u w found e valid p q) row row' v =
    elim (Bool-cases (text_eq b a && text_eq j i)) [
      | inl t ↦
          let new : w ≡ o' = cc (rw (p, get-set m.operations b a j i w, t) at row') in
          rw new at valid
      | inr t ↦
          let old : o ≡ o' = cc (rw (p, get-set m.operations b a j i w, t) at row') in rw old at v
    ]
Effect-valid {m} a i o o' (creates b n free fresh valid p q) row row' v =
    elim (Bool-cases (text_eq b a && text_eq n.id i)) [
      | inl t ↦
          let new : n ≡ o' = cc (rw (p, get-set m.operations b a n.id i n, t) at row') in
          rw new at valid
      | inr t ↦
          let old : o ≡ o' = cc (rw (p, get-set m.operations b a n.id i n, t) at row') in
          rw old at v
    ]

pub IsBound-find :
    {m : Memory} {a k id : Text} {o : ReplyOperation}
    → IsBound m a k id o
    → by_idempotency_key m a k ≡ ok (some o)
unfolding by_idempotency_key
IsBound-find h = rw (h.key, find_operation, h.row, assert_stored_reply_operation_valid _ h.valid)

-- A bound key stays bound to its operation.
pub Effect-key :
    {Fresh : Text → Text → Type 0} {m m' : Memory} (a k id : Text) (o : ReplyOperation)
    → Effect Fresh m m'
    → IsBound m a k id o
    → get m'.claimed_keys a k ≡ some id
Effect-key a k id o (nothing p q) h = rw q h.key
Effect-key a k id o (changes b j u v found e valid p q) h = rw q h.key
Effect-key {m} a k id o (creates b n free fresh valid p q) h =
    elim (Bool-cases (text_eq b a && text_eq n.idempotency_key k)) [
      | inl t ↦ let (eb, ek) = text_eq_both b a n.idempotency_key k t in cc (IsBound-find h)
      | inr t ↦ rw q (rw (get-set m.claimed_keys b a n.idempotency_key k n.id, t) h.key)
    ]

-- Whatever identifiers new operations come with, a bound key stays bound to some operation.
pub Effect-row_some :
    {Fresh : Text → Text → Type 0} {m m' : Memory} (a i : Text) (o : ReplyOperation)
    → Effect Fresh m m'
    → get m.operations a i ≡ some o
    → (o' : ReplyOperation) × (get m'.operations a i ≡ some o')
Effect-row_some a i o (nothing p q) row = (o, rw p row)
Effect-row_some {m} a i o (changes b j u v found e valid p q) row =
    elim (Bool-cases (text_eq b a && text_eq j i)) [
      | inl t ↦ (v, rw p (rw (get-set m.operations b a j i v, t)))
      | inr t ↦ (o, rw p (rw (get-set m.operations b a j i v, t) row))
    ]
Effect-row_some {m} a i o (creates b n free fresh valid p q) row =
    elim (Bool-cases (text_eq b a && text_eq n.id i)) [
      | inl t ↦ (n, rw p (rw (get-set m.operations b a n.id i n, t)))
      | inr t ↦ (o, rw p (rw (get-set m.operations b a n.id i n, t) row))
    ]

pub Effect-IsBound_some :
    {Fresh : Text → Text → Type 0} {m m' : Memory} (a k id : Text) (o : ReplyOperation)
    → Effect Fresh m m'
    → IsBound m a k id o
    → (o' : ReplyOperation) × IsBound m' a k id o'
Effect-IsBound_some a k id o e h =
    let (o', row) = Effect-row_some a id o e h.row in
    (
      o',
      record {
        key = Effect-key a k id o e h;
        row = row;
        valid = Effect-valid a id o o' e h.row row h.valid;
      },
    )

pub Effect-IsBound :
    {m m' : Memory} (a k id : Text) (o : ReplyOperation)
    → Effect (IsUnused m) m m'
    → IsBound m a k id o
    → (o' : ReplyOperation) × IsBound m' a k id o' × StaysOrEvolves o o'
Effect-IsBound a k id o e h =
    let (o', row, how) = Effect-row a id o e h.row in
    (
      o',
      record {
        key = Effect-key a k id o e h;
        row = row;
        valid = Effect-valid a id o o' e h.row row h.valid;
      },
      how,
    )

pub extend : {o p q : ReplyOperation} → StaysOrEvolves o p → History p q → History o q
extend {q} (inl e) h = rw e at h
extend (inr e) h = moved e h

-- After any repository calls a bound key is still bound to its operation, which the allowed moves
-- alone have changed.
pub run_calls-IsBound :
    (cs : List Call) (m : Memory) (a k id : Text) (o : ReplyOperation)
    → AreFresh m cs
    → IsBound m a k id o
    → (o' : ReplyOperation) × IsBound (run_calls cs m) a k id o' × History o o'
unfolding run_calls
run_calls-IsBound [] m a k id o f h = (o, h, unmoved o)
run_calls-IsBound (c ∷ cs) m a k id o (f, fs) h =
    let (p, hp, how) = Effect-IsBound a k id o (run_call-Effect c m f) h in
    let (q, hq, later) = run_calls-IsBound cs (run_call c m) a k id p fs hp in
    (q, hq, extend how later)

abbrev pub IsFinal : ReplyOperation → Type 0
IsFinal o = (o.status ≡ completed) ⊎ (o.status ≡ failed)

Evolves-final : {o p : ReplyOperation} → Evolves o p → IsFinal o → ⊥
Evolves-final (published o e h) f = ground arith
Evolves-final (completes_as o c at h) f = ground arith
Evolves-final (fails_with o code at h) f = ground arith
Evolves-final (lost_with o code at h) f = ground arith

pub History-final : {o q : ReplyOperation} → History o q → IsFinal o → q ≡ o
History-final (unmoved o) f = refl
History-final (moved e h) f = absurd (Evolves-final e f)

-- What a key was claimed for.
pub record SameRequest (o q : ReplyOperation) : Type 0 where
  pub id : q.id ≡ o.id
  pub account_id : q.account_id ≡ o.account_id
  pub comment_id : q.comment_id ≡ o.comment_id
  pub idempotency_key : q.idempotency_key ≡ o.idempotency_key
  pub request_fingerprint : q.request_fingerprint ≡ o.request_fingerprint
  pub lease_expires_at : q.lease_expires_at ≡ o.lease_expires_at
  pub created_at : q.created_at ≡ o.created_at

Evolves-SameRequest : {o p : ReplyOperation} → Evolves o p → SameRequest o p
Evolves-SameRequest (published o e h) = ground arith
Evolves-SameRequest (completes_as o c at h) = ground arith
Evolves-SameRequest (fails_with o code at h) = ground arith
Evolves-SameRequest (lost_with o code at h) = ground arith

pub History-SameRequest : {o q : ReplyOperation} → History o q → SameRequest o q
History-SameRequest (unmoved o) = ground arith
History-SameRequest (moved e h) =
    let before = Evolves-SameRequest e in let after = History-SameRequest h in ground arith
