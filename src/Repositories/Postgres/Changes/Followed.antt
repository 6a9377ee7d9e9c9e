-- ===== src/Repositories/Postgres/Changes/Followed.antt =====
-- What changes leave of a row.
use social_comments_service.Base.{
  Bool-cases, List, arith, inl, inr, none, refl, some, subst, sym, true, ◌∙◌, ◌≡◌, ◌⊎◌,
}
use social_comments_service.Repositories.Postgres.{OperationRow, Tables}
use social_comments_service.Repositories.Postgres.Changes.{
  Change, Changes, Moves, adds, changed, claims, completes, edits, fails, loses, moves, publishes,
  saves, unchanged,
}
use social_comments_service.Repositories.Postgres.Changes.Lookups.{
  changed_where, find_where-map_where,
}
use social_comments_service.Repositories.Postgres.Operations.{holds_key, in_state, operation_by_key}
use social_comments_service.Shared.Text.{Text}
use social_comments_service.Shared.Text.Order.{text_eq_both}
use social_comments_service.Shared.Types.{ReplyOperationStatus, completed, failed}

-- An operation and what moves make of it.
pub data Follows (o : OperationRow) : OperationRow → Type 0 where
  unmoved : Follows o o
  moved : {p q : OperationRow} → Follows o p → Moves p q → Follows o q

-- What an operation was claimed for.
pub record SameClaim (o p : OperationRow) : Type 0 where
  pub id : p.id ≡ o.id
  pub account_id : p.account_id ≡ o.account_id
  pub comment_id : p.comment_id ≡ o.comment_id
  pub idempotency_key : p.idempotency_key ≡ o.idempotency_key
  pub request_fingerprint : p.request_fingerprint ≡ o.request_fingerprint
  pub lease_expires_at : p.lease_expires_at ≡ o.lease_expires_at
  pub created_at : p.created_at ≡ o.created_at

SameClaim-refl : (o : OperationRow) → SameClaim o o
SameClaim-refl o = record {
  id = refl;
  account_id = refl;
  comment_id = refl;
  idempotency_key = refl;
  request_fingerprint = refl;
  lease_expires_at = refl;
  created_at = refl;
}

pub Moves-SameClaim : {o p : OperationRow} → Moves o p → SameClaim o p
Moves-SameClaim (publishes o x h) = ground arith
Moves-SameClaim (completes o c t h) = ground arith
Moves-SameClaim (fails o code t h) = ground arith
Moves-SameClaim (loses o code t h) = ground arith

pub Follows-SameClaim : {o p : OperationRow} → Follows o p → SameClaim o p
Follows-SameClaim {o} unmoved = SameClaim-refl o
Follows-SameClaim (moved f m) =
    let a = Follows-SameClaim f in
    let b = Moves-SameClaim m in
    record {
      id = b.id ∙ a.id;
      account_id = b.account_id ∙ a.account_id;
      comment_id = b.comment_id ∙ a.comment_id;
      idempotency_key = b.idempotency_key ∙ a.idempotency_key;
      request_fingerprint = b.request_fingerprint ∙ a.request_fingerprint;
      lease_expires_at = b.lease_expires_at ∙ a.lease_expires_at;
      created_at = b.created_at ∙ a.created_at;
    }

-- An outcome that no move leaves.
abbrev pub HasOutcome : OperationRow → Type 0
HasOutcome o = (o.status ≡ completed) ⊎ (o.status ≡ failed)

Moves-open : {o p : OperationRow} → Moves o p → ¬ HasOutcome o
Moves-open (publishes o x h) f = ground arith
Moves-open (completes o c t h) f = ground arith
Moves-open (fails o code t h) f = ground arith
Moves-open (loses o code t h) f = ground arith

pub Follows-final : {o p : OperationRow} → Follows o p → HasOutcome o → p ≡ o
Follows-final unmoved f = refl
Follows-final {o} (moved g m) f =
    let e = Follows-final g f in absurd (Moves-open m (subst HasOutcome (sym e) f))

abbrev pub StaysOrMoves : OperationRow → OperationRow → Type 0
StaysOrMoves o p = (p ≡ o) ⊎ Moves o p

moved_row :
    (t id : Text) (from : List ReplyOperationStatus) (change : OperationRow → OperationRow)
    (row : OperationRow)
    → ((o : OperationRow) → in_state t id from o ≡ true → Moves o (change o))
    → StaysOrMoves row (changed_where (in_state t id from) change row)
moved_row t id from change row m = elim (Bool-cases (in_state t id from row)) [
  | inl x ↦ rw x (inr (m row x))
  | inr x ↦ rw x (inl refl)
]

moved_key :
    (t id a k : Text) (from : List ReplyOperationStatus) (change : OperationRow → OperationRow)
    → ((o : OperationRow) → in_state t id from o ≡ true → Moves o (change o))
    → (o : OperationRow) → in_state t id from o ≡ true
    → holds_key a k (change o) ≡ holds_key a k o
moved_key t id a k from change m o x =
    let same = Moves-SameClaim (m o x) in rw (same.account_id, same.idempotency_key) refl

module _ {T : Text → Type 0} where
  -- The row that holds a key stays, or moves, and holds it still.
  Change-key :
      {s s' : Tables} (a k : Text) (row : OperationRow)
      → Change T s s'
      → operation_by_key s a k ≡ some row
      → (row' : OperationRow) × (operation_by_key s' a k ≡ some row') × StaysOrMoves row row'
  unfolding operation_by_key
  Change-key {s} a k row (claims new _ free e) h = elim (Bool-cases (holds_key a k new)) [
    | inl x ↦
        let (ea, ek) = text_eq_both new.account_id a new.idempotency_key k x in
        let taken : operation_by_key s a k ≡ none =
          subst (λ (y : Text). operation_by_key s a y ≡ none) ek
            (subst (λ (y : Text). operation_by_key s y new.idempotency_key ≡ none) ea free) in
        absurd (cc (taken, h))
    | inr x ↦ (row, rw (e, x) h, inl refl)
  ]
  Change-key {s} a k row (moves t id from change _ m e) h = (
    changed_where (in_state t id from) change row,
    rw e (
        rw
          (
            find_where-map_where (in_state t id from) change (holds_key a k)
                (moved_key t id a k from change m) s.reply_operations,
            h,
          )
          refl),
    moved_row t id from change row m,
  )
  Change-key a k row (adds c _ _ _ e) h = (row, rw e h, inl refl)
  Change-key a k row (edits c _ e) h = (row, rw e h, inl refl)
  Change-key a k row (saves _ _ _ _ _ _ e) h = (row, rw e h, inl refl)

  -- What holds a key after any changes follows from what held it before.
  pub Changes-key :
      {s s' : Tables} (a k : Text) (row : OperationRow)
      → Changes T s s'
      → operation_by_key s a k ≡ some row
      → (row' : OperationRow) × (operation_by_key s' a k ≡ some row') × Follows row row'
  Changes-key a k row unchanged h = (row, h, unmoved)
  Changes-key a k row (changed cs c) h =
      let (mid, g, f) = Changes-key a k row cs h in
      let (last, g', st) = Change-key a k mid c g in
      elim st [ inl e ↦ (last, g', rw e f) | inr m ↦ (last, g', moved f m) ]
