-- ===== src/Repositories/InMemory/Tenants.antt =====
-- What one tenant's calls leave of another's.
use social_comments_service.Base.{
  Bool-cases, List, Option, [], false, inl, inr, none, refl, some, ◌∙◌, ◌∷◌, ◌≡◌,
}
use social_comments_service.Comments.Invariants.{Keeps, Keeps-bind, Keeps-if, Keeps-pure}
use social_comments_service.Repositories.InMemory.{Memory, random_uuid, read_clock}
use social_comments_service.Repositories.InMemory.Comments.{
  id_or_uuid, list_by_post, store, store_all, store_published_reply, store_unless, upsert_many,
}
use social_comments_service.Repositories.InMemory.Operations.{
  by_idempotency_key, claim, complete, fail, find_by_idempotency_key, mark_unknown,
  record_published, update, with_account,
}
use social_comments_service.Repositories.InMemory.Operations.Cases.{update_cases}
use social_comments_service.Repositories.InMemory.Posts.{
  same_position, save_snapshot_state, snapshot_of,
}
use social_comments_service.Repositories.TenantScoped.{TenantScoped, scope, set}
use social_comments_service.Repositories.TenantScoped.Laws.{scope-set}
use social_comments_service.Shared.Exec.{Result, Result-cases, gets, ◌>>=◌}
use social_comments_service.Shared.Text.{Text, text_eq}
use social_comments_service.Shared.Types.{
  ListCommentsQuery, ObservedComment, PostSnapshotState, ReplyOperation, ReplyOperationStatus,
  TenantContext,
}
use social_comments_service.Shared.Validation.{assert_stored_reply_operation}

-- Two memories in which a tenant sees the same.
pub record SeenAlike (b : Text) (m m' : Memory) : Type 0 where
  pub by_id : scope m'.by_id b ≡ scope m.by_id b
  pub by_external_id : scope m'.by_external_id b ≡ scope m.by_external_id b
  pub posts : m'.posts ≡ m.posts
  pub snapshots : scope m'.snapshots b ≡ scope m.snapshots b
  pub operations : scope m'.operations b ≡ scope m.operations b
  pub claimed_keys : scope m'.claimed_keys b ≡ scope m.claimed_keys b

pub SeenAlike-refl : (b : Text) (m : Memory) → SeenAlike b m m
SeenAlike-refl b m = record {
  by_id = refl;
  by_external_id = refl;
  posts = refl;
  snapshots = refl;
  operations = refl;
  claimed_keys = refl;
}

scope-set_other :
    {T : Type 0} (b : Text) (c : TenantContext)
    → text_eq c.account_id b ≡ false
    → (s : TenantScoped T) (i : Text) (v : T) → scope (set s c.account_id i v) b ≡ scope s b
scope-set_other b c other s i v = rw (scope-set s c.account_id b i v, other)

module _ {m₀ : Memory} {b : Text} where
  pub read-SeenAlike : {A : Type 0} (f : Memory → Result A) → Keeps (SeenAlike b m₀) (λ m. (f m, m))
  read-SeenAlike f = record { kept = λ m p. p }

  gets-SeenAlike : {A : Type 0} (f : Memory → A) → Keeps (SeenAlike b m₀) (gets f)
  unfolding gets
  gets-SeenAlike f = record { kept = λ m p. p }

  pub read_clock-SeenAlike : Keeps (SeenAlike b m₀) read_clock
  unfolding read_clock
  read_clock-SeenAlike = record {
    kept = λ m p. record {
      by_id = p.by_id;
      by_external_id = p.by_external_id;
      posts = p.posts;
      snapshots = p.snapshots;
      operations = p.operations;
      claimed_keys = p.claimed_keys;
    };
  }

  pub random_uuid-SeenAlike : Keeps (SeenAlike b m₀) random_uuid
  unfolding random_uuid
  random_uuid-SeenAlike = record {
    kept = λ m p. record {
      by_id = p.by_id;
      by_external_id = p.by_external_id;
      posts = p.posts;
      snapshots = p.snapshots;
      operations = p.operations;
      claimed_keys = p.claimed_keys;
    };
  }

  id_or_uuid-SeenAlike : (known : Option Text) → Keeps (SeenAlike b m₀) (id_or_uuid known)
  id_or_uuid-SeenAlike none = random_uuid-SeenAlike
  id_or_uuid-SeenAlike (some id) = Keeps-pure id

  module _ (c : TenantContext) (other : text_eq c.account_id b ≡ false) where
    store-SeenAlike : (o : ObservedComment) → Keeps (SeenAlike b m₀) (store c.account_id o)
    unfolding store
    store-SeenAlike o = Keeps-bind _ _ (gets-SeenAlike _) λ known.
        Keeps-bind _ _ (id_or_uuid-SeenAlike known) λ id. record {
          kept = λ m p. record {
            by_id = scope-set_other b c other m.by_id id _ ∙ p.by_id;
            by_external_id =
                scope-set_other b c other m.by_external_id o.external_id id ∙ p.by_external_id;
            posts = p.posts;
            snapshots = p.snapshots;
            operations = p.operations;
            claimed_keys = p.claimed_keys;
          };
        }

    store_all-SeenAlike :
        (os : List ObservedComment) → Keeps (SeenAlike b m₀) (store_all c.account_id os)
    unfolding store_all
    store_all-SeenAlike [] = Keeps-pure _
    store_all-SeenAlike (o ∷ os) =
        Keeps-bind _ _ (store-SeenAlike o)
          λ s. Keeps-bind _ _ (store_all-SeenAlike os) λ rest. Keeps-pure _

    pub upsert_many-SeenAlike :
        (os : List ObservedComment) → Keeps (SeenAlike b m₀) (upsert_many c os)
    unfolding upsert_many
    upsert_many-SeenAlike os = Keeps-bind _ _ (store_all-SeenAlike os) λ s. read-SeenAlike _

    store_unless-SeenAlike :
        (o : ObservedComment) (known : Option Text)
        → Keeps (SeenAlike b m₀) (store_unless c o known)
    unfolding store_unless
    store_unless-SeenAlike o none = Keeps-bind _ _ (store-SeenAlike o) λ s. read-SeenAlike _
    store_unless-SeenAlike o (some id) = read-SeenAlike _

    pub store_published_reply-SeenAlike :
        (o : ObservedComment) → Keeps (SeenAlike b m₀) (store_published_reply c o)
    unfolding store_published_reply
    store_published_reply-SeenAlike o = Keeps-bind _ _ (gets-SeenAlike _) (store_unless-SeenAlike o)

    pub list_by_post-SeenAlike : (q : ListCommentsQuery) → Keeps (SeenAlike b m₀) (list_by_post c q)
    unfolding list_by_post
    list_by_post-SeenAlike q = Keeps-bind _ _ (read-SeenAlike _) λ o. Keeps-pure _

    pub save_snapshot_state-SeenAlike :
        (i : Text) (s e : PostSnapshotState) → Keeps (SeenAlike b m₀) (save_snapshot_state c i s e)
    unfolding save_snapshot_state
    save_snapshot_state-SeenAlike i s e = record {
      kept = λ m p. elim (Bool-cases (same_position (snapshot_of m c.account_id i) e)) [
        | inr conflict_seen ↦ rw (conflict_seen) p
        | inl same ↦ rw (same) (record {
          by_id = p.by_id;
          by_external_id = p.by_external_id;
          posts = p.posts;
          snapshots = scope-set_other b c other m.snapshots i s ∙ p.snapshots;
          operations = p.operations;
          claimed_keys = p.claimed_keys;
        })
      ];
    }

    pub update-SeenAlike :
        (i : Text) (f : ReplyOperation → ReplyOperation) (from : List ReplyOperationStatus)
        → Keeps (SeenAlike b m₀) (update c i f from)
    update-SeenAlike i f from = record {
      kept = λ m p. elim (update_cases c i f from m) [
        | inl (e, r) ↦ rw (r) p
        | inr (o, row, t, v, r) ↦ rw (r) (record {
          by_id = p.by_id;
          by_external_id = p.by_external_id;
          posts = p.posts;
          snapshots = p.snapshots;
          operations = scope-set_other b c other m.operations i (f o) ∙ p.operations;
          claimed_keys = p.claimed_keys;
        })
      ];
    }

    pub claim-SeenAlike : (o : ReplyOperation) → Keeps (SeenAlike b m₀) (claim c o)
    unfolding claim find_by_idempotency_key ◌>>=◌
    claim-SeenAlike o = record {
      kept = λ m p. elim (Result-cases (by_idempotency_key m c.account_id o.idempotency_key)) [
        | inl (e, r) ↦ rw (r, claim) p
        | inr (some old, r) ↦ rw (r, claim) p
        | inr (none, free) ↦
            elim (Result-cases (assert_stored_reply_operation (with_account c.account_id o))) [
              | inl (e, r) ↦ rw (free, claim, r) p
              | inr (q, r) ↦
                  rw (free, claim, r)
                    (record {
                      by_id = p.by_id;
                      by_external_id = p.by_external_id;
                      posts = p.posts;
                      snapshots = p.snapshots;
                      operations = scope-set_other b c other m.operations o.id q ∙ p.operations;
                      claimed_keys =
                          scope-set_other b c other m.claimed_keys o.idempotency_key o.id
                          ∙ p.claimed_keys;
                    })
            ]
      ];
    }

    pub complete-SeenAlike : (i e : Text) → Keeps (SeenAlike b m₀) (complete c i e)
    unfolding complete
    complete-SeenAlike i e = Keeps-bind _ _ read_clock-SeenAlike λ now. update-SeenAlike i _ _

    pub fail-SeenAlike : (i e : Text) → Keeps (SeenAlike b m₀) (fail c i e)
    unfolding fail
    fail-SeenAlike i e = Keeps-bind _ _ read_clock-SeenAlike λ now. update-SeenAlike i _ _

    pub mark_unknown-SeenAlike : (i e : Text) → Keeps (SeenAlike b m₀) (mark_unknown c i e)
    unfolding mark_unknown
    mark_unknown-SeenAlike i e = Keeps-bind _ _ (gets-SeenAlike _) λ o.
        Keeps-if _ _ _ (Keeps-pure _) (
          Keeps-bind _ _ read_clock-SeenAlike
            λ now. Keeps-bind _ _ (update-SeenAlike i _ _) λ u. Keeps-pure _)

    pub record_published-SeenAlike : (i e : Text) → Keeps (SeenAlike b m₀) (record_published c i e)
    unfolding record_published
    record_published-SeenAlike i e = update-SeenAlike i _ _
