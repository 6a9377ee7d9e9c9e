-- ===== src/Repositories/InMemory/Formed.antt =====
-- Every method keeps the rows of comments well formed.
use social_comments_service.Base.{Bool-cases, List, arith, inl, inr, none, refl, some, ◌≡◌, ◌≤◌}
use social_comments_service.Comments.Invariants.{Keeps, Keeps-bind, Keeps-if, Keeps-pure}
use social_comments_service.Repositories.InMemory.{Memory, random_uuid, read_clock}
use social_comments_service.Repositories.InMemory.Comments.{list_by_post}
use social_comments_service.Repositories.InMemory.Comments.Growth.{Grows}
use social_comments_service.Repositories.InMemory.Comments.Stores.{IsWellFormed}
use social_comments_service.Repositories.InMemory.Operations.{
  by_idempotency_key, claim, complete, fail, find_by_idempotency_key, mark_unknown,
  record_published, update, with_account,
}
use social_comments_service.Repositories.InMemory.Operations.Cases.{update_cases}
use social_comments_service.Repositories.InMemory.Posts.{
  same_position, save_snapshot_state, snapshot_of,
}
use social_comments_service.Shared.Exec.{Exec, Result, Result-cases, gets, ◌>>=◌}
use social_comments_service.Shared.Text.{Text}
use social_comments_service.Shared.Types.{
  ListCommentsQuery, PostSnapshotState, ReplyOperation, ReplyOperationStatus, TenantContext,
}
use social_comments_service.Shared.Validation.{assert_stored_reply_operation}

-- The other state may change.
transfer :
    (m m' : Memory)
    → m'.by_id ≡ m.by_id
    → m'.by_external_id ≡ m.by_external_id
    → m'.sources.uuids ≡ m.sources.uuids
    → m.sources.draws ≤ m'.sources.draws
    → IsWellFormed m
    → IsWellFormed m'
transfer m m' p q u d w = record {
  owns = λ a e id h. rw (p) (w.owns a e id (rw (← q) h));
  names = λ a id s h. rw (q) (w.names a id s (rw (← p) h));
  keys = λ a. rw (p) (w.keys a);
  fresh = λ a n h. rw (p, u) (w.fresh a n (omega (arith, d, h)));
  distinct = λ i j h. w.distinct i j (rw (← u) h);
}

pub read-IsWellFormed : {A : Type 0} (f : Memory → Result A) → Keeps IsWellFormed (λ m. (f m, m))
read-IsWellFormed f = record { kept = λ m w. w }

pub gets-IsWellFormed : {A : Type 0} (f : Memory → A) → Keeps IsWellFormed (gets f)
unfolding gets
gets-IsWellFormed f = record { kept = λ m w. w }

pub Grows-IsWellFormed : {A : Type 0} (f : Exec Memory A) → Grows f → Keeps IsWellFormed f
Grows-IsWellFormed f g = record { kept = g.well_formed }

pub read_clock-IsWellFormed : Keeps IsWellFormed read_clock
unfolding read_clock
read_clock-IsWellFormed = record { kept = λ m w. transfer m _ refl refl refl (omega arith) w }

pub random_uuid-IsWellFormed : Keeps IsWellFormed random_uuid
unfolding random_uuid
random_uuid-IsWellFormed = record { kept = λ m w. transfer m _ refl refl refl (omega arith) w }

module _ (c : TenantContext) where
  pub list_by_post-IsWellFormed : (q : ListCommentsQuery) → Keeps IsWellFormed (list_by_post c q)
  unfolding list_by_post
  list_by_post-IsWellFormed q = Keeps-bind _ _ (read-IsWellFormed _) λ o. Keeps-pure _

  pub save_snapshot_state-IsWellFormed :
      (i : Text) (s e : PostSnapshotState) → Keeps IsWellFormed (save_snapshot_state c i s e)
  unfolding save_snapshot_state
  save_snapshot_state-IsWellFormed i s e = record {
    kept = λ m w. elim (Bool-cases (same_position (snapshot_of m c.account_id i) e)) [
      | inr conflict_seen ↦ rw (conflict_seen) w
      | inl same ↦ rw (same) (transfer m _ refl refl refl (omega arith) w)
    ];
  }

  pub update-IsWellFormed :
      (i : Text) (f : ReplyOperation → ReplyOperation) (from : List ReplyOperationStatus)
      → Keeps IsWellFormed (update c i f from)
  update-IsWellFormed i f from = record {
    kept = λ m w. elim (update_cases c i f from m) [
      | inl (e, r) ↦ rw (r) w
      | inr (o, row, t, v, r) ↦ rw (r) (transfer m _ refl refl refl (omega arith) w)
    ];
  }

  pub claim-IsWellFormed : (o : ReplyOperation) → Keeps IsWellFormed (claim c o)
  unfolding claim find_by_idempotency_key ◌>>=◌
  claim-IsWellFormed o = record {
    kept = λ m w. elim (Result-cases (by_idempotency_key m c.account_id o.idempotency_key)) [
      | inl (e, r) ↦ rw (r, claim) w
      | inr (some old, r) ↦ rw (r, claim) w
      | inr (none, free) ↦
          elim (Result-cases (assert_stored_reply_operation (with_account c.account_id o))) [
            | inl (e, r) ↦ rw (free, claim, r) w
            | inr (q, r) ↦ rw (free, claim, r) (transfer m _ refl refl refl (omega arith) w)
          ]
    ];
  }

  pub complete-IsWellFormed : (i e : Text) → Keeps IsWellFormed (complete c i e)
  unfolding complete
  complete-IsWellFormed i e =
      Keeps-bind _ _ read_clock-IsWellFormed λ now. update-IsWellFormed i _ _

  pub fail-IsWellFormed : (i e : Text) → Keeps IsWellFormed (fail c i e)
  unfolding fail
  fail-IsWellFormed i e = Keeps-bind _ _ read_clock-IsWellFormed λ now. update-IsWellFormed i _ _

  pub mark_unknown-IsWellFormed : (i e : Text) → Keeps IsWellFormed (mark_unknown c i e)
  unfolding mark_unknown
  mark_unknown-IsWellFormed i e = Keeps-bind _ _ (gets-IsWellFormed _) λ o.
      Keeps-if _ _ _ (Keeps-pure _) (
        Keeps-bind _ _ read_clock-IsWellFormed
          λ now. Keeps-bind _ _ (update-IsWellFormed i _ _) λ u. Keeps-pure _)

  pub record_published-IsWellFormed : (i e : Text) → Keeps IsWellFormed (record_published c i e)
  unfolding record_published
  record_published-IsWellFormed i e = update-IsWellFormed i _ _
