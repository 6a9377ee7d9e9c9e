-- ===== src/Repositories/InMemory/Separation.antt =====
-- The repositories of comments and posts leave the operations and their keys alone.
use social_comments_service.Base.{List, Option, [], arith, none, refl, some, ◌∙◌, ◌∷◌, ◌≡◌}
use social_comments_service.Repositories.InMemory.{Memory, random_uuid, read_clock}
use social_comments_service.Repositories.InMemory.Comments.{
  find_by_id, find_reply_by_external_id, id_or_uuid, list_by_post, resolve_external_id, store,
  store_all, store_published_reply, store_unless, upsert_many,
}
use social_comments_service.Repositories.InMemory.Operations.{find_by_idempotency_key}
use social_comments_service.Repositories.InMemory.Posts.{find_published_by_id, save_snapshot_state}
use social_comments_service.Shared.Exec.{Exec, Result, continue, err, gets, ok, pure, ◌>>=◌}
use social_comments_service.Shared.Text.{Text}
use social_comments_service.Shared.Types.{
  ListCommentsQuery, ObservedComment, PostSnapshotState, TenantContext,
}

pub record LeavesOperations {A : Type 0} (f : Exec Memory A) : Type 0 where
  pub operations : (m : Memory) → (f m).1.operations ≡ m.operations
  pub claimed_keys : (m : Memory) → (f m).1.claimed_keys ≡ m.claimed_keys

module _ {A : Type 0} where
  pub LeavesOperations-pure : (a : A) → LeavesOperations (pure a)
  unfolding pure
  LeavesOperations-pure a = record { operations = λ m. refl; claimed_keys = λ m. refl }

  pub LeavesOperations-gets : (f : Memory → A) → LeavesOperations (gets f)
  unfolding gets
  LeavesOperations-gets f = record { operations = λ m. refl; claimed_keys = λ m. refl }

  -- A read.
  pub LeavesOperations-read : (f : Memory → Result A) → LeavesOperations (λ m. (f m, m))
  LeavesOperations-read f = record { operations = λ m. refl; claimed_keys = λ m. refl }

module _ {A B : Type 0} where
  continue-LeavesOperations :
      (r : Result A) (f : A → Exec Memory B)
      → ((a : A) → LeavesOperations (f a))
      → LeavesOperations (continue r f)
  continue-LeavesOperations (ok a) f q = q a
  continue-LeavesOperations (err e) f q = record {
    operations = λ m. refl;
    claimed_keys = λ m. refl;
  }

  pub LeavesOperations-bind :
      (f : Exec Memory A) (g : A → Exec Memory B)
      → LeavesOperations f
      → ((a : A) → LeavesOperations (g a))
      → LeavesOperations (f >>= g)
  unfolding ◌>>=◌
  LeavesOperations-bind f g p q = record {
    operations = λ m. (continue-LeavesOperations (f m).0 g q).operations (f m).1 ∙ p.operations m;
    claimed_keys =
        λ m. (continue-LeavesOperations (f m).0 g q).claimed_keys (f m).1 ∙ p.claimed_keys m;
  }

pub read_clock-LeavesOperations : LeavesOperations read_clock
unfolding read_clock
read_clock-LeavesOperations = record { operations = λ m. refl; claimed_keys = λ m. refl }

pub random_uuid-LeavesOperations : LeavesOperations random_uuid
unfolding random_uuid
random_uuid-LeavesOperations = record { operations = λ m. refl; claimed_keys = λ m. refl }

id_or_uuid-LeavesOperations : (known : Option Text) → LeavesOperations (id_or_uuid known)
id_or_uuid-LeavesOperations none = random_uuid-LeavesOperations
id_or_uuid-LeavesOperations (some id) = LeavesOperations-pure id

pub store-LeavesOperations : (a : Text) (o : ObservedComment) → LeavesOperations (store a o)
unfolding store
store-LeavesOperations a o = LeavesOperations-bind _ _ (LeavesOperations-gets _) λ known.
    LeavesOperations-bind _ _ (id_or_uuid-LeavesOperations known)
      λ id. record { operations = λ m. refl; claimed_keys = λ m. refl }

store_all-LeavesOperations :
    (a : Text) (os : List ObservedComment) → LeavesOperations (store_all a os)
unfolding store_all
store_all-LeavesOperations a [] = LeavesOperations-pure _
store_all-LeavesOperations a (o ∷ os) =
    LeavesOperations-bind _ _ (store-LeavesOperations a o) λ s.
      LeavesOperations-bind _ _ (store_all-LeavesOperations a os) λ rest. LeavesOperations-pure _

module _ (c : TenantContext) where
  pub list_by_post-LeavesOperations : (q : ListCommentsQuery) → LeavesOperations (list_by_post c q)
  unfolding list_by_post
  list_by_post-LeavesOperations q =
      LeavesOperations-bind _ _ (LeavesOperations-read _) λ o. LeavesOperations-pure _

  pub find_by_id-LeavesOperations : (i : Text) → LeavesOperations (find_by_id c i)
  unfolding find_by_id
  find_by_id-LeavesOperations i = LeavesOperations-read _

  pub find_reply_by_external_id-LeavesOperations :
      (i e : Text) → LeavesOperations (find_reply_by_external_id c i e)
  unfolding find_reply_by_external_id
  find_reply_by_external_id-LeavesOperations i e = LeavesOperations-read _

  pub resolve_external_id-LeavesOperations : (i : Text) → LeavesOperations (resolve_external_id c i)
  unfolding resolve_external_id
  resolve_external_id-LeavesOperations i = LeavesOperations-read _

  pub upsert_many-LeavesOperations :
      (os : List ObservedComment) → LeavesOperations (upsert_many c os)
  unfolding upsert_many
  upsert_many-LeavesOperations os =
      LeavesOperations-bind _ _ (store_all-LeavesOperations c.account_id os)
        λ s. LeavesOperations-read _

  store_unless-LeavesOperations :
      (o : ObservedComment) (known : Option Text) → LeavesOperations (store_unless c o known)
  unfolding store_unless
  store_unless-LeavesOperations o none =
      LeavesOperations-bind _ _ (store-LeavesOperations c.account_id o) λ s. LeavesOperations-read _
  store_unless-LeavesOperations o (some id) = LeavesOperations-read _

  pub store_published_reply-LeavesOperations :
      (o : ObservedComment) → LeavesOperations (store_published_reply c o)
  unfolding store_published_reply
  store_published_reply-LeavesOperations o =
      LeavesOperations-bind _ _ (LeavesOperations-gets _) (store_unless-LeavesOperations o)

  pub find_published_by_id-LeavesOperations :
      (i : Text) → LeavesOperations (find_published_by_id c i)
  unfolding find_published_by_id
  find_published_by_id-LeavesOperations i = LeavesOperations-read _

  pub save_snapshot_state-LeavesOperations :
      (i : Text) (s e : PostSnapshotState) → LeavesOperations (save_snapshot_state c i s e)
  unfolding save_snapshot_state
  save_snapshot_state-LeavesOperations i s e = record {
    operations = λ m. ground arith;
    claimed_keys = λ m. ground arith;
  }

  pub find_by_idempotency_key-LeavesOperations :
      (k : Text) → LeavesOperations (find_by_idempotency_key c k)
  unfolding find_by_idempotency_key
  find_by_idempotency_key-LeavesOperations k = LeavesOperations-read _
