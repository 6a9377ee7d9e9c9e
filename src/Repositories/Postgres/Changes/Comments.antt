-- ===== src/Repositories/Postgres/Changes/Comments.antt =====
-- The methods of `PostgresCommentRepository` and `PostgresPostRepository` make changes of the
-- tenant alone.
use social_comments_service.Base.{
  Bool-cases, List, Option, Option-cases, [], any, inl, inr, none, refl, some, ◌∷◌, ◌≡◌,
}
use social_comments_service.Comments.Invariants.{
  Keeps, Keeps-bind, Keeps-if, Keeps-lift, Keeps-pure, Keeps-throw,
}
use social_comments_service.Repositories.Postgres.{
  CommentRow, CommentTuple, Database, Engine, PostTuple, Tables, as_uuid, find_where,
}
use social_comments_service.Repositories.Postgres.Changes.{adds, changed, edits, saves}
use social_comments_service.Repositories.Postgres.Changes.Transactions.{
  IsReached, gen_random_uuid-Keeps, gets-Keeps, transaction_rules, with_tenant-Keeps,
}
use social_comments_service.Repositories.Postgres.Comments.{
  existing_or_refuse, insert_at, insert_published_reply, insert_reply, inserted_or_existing,
  inserted_row, read_back, select_by_id, select_external_id, select_page, select_page_rows,
  select_reply, upsert_batch, upsert_comments,
}
use social_comments_service.Repositories.Postgres.Posts.{select_published, update_snapshot}
use social_comments_service.Repositories.Postgres.Statements.{
  ReadObservation, add_comment, add_or_overwrite, add_unless_there, has_identity, tuple_of,
  upsert_at, upsert_row, upsert_rows,
}
use social_comments_service.Shared.Exec.{bind-pure-state, ok}
use social_comments_service.Shared.Text.{Text, text_eq}
use social_comments_service.Shared.Types.{
  ListCommentsQuery, ObservedComment, PostSnapshotState, TenantContext,
}

module _ {T : Text → Type 0} {s₀ : Tables} where
  add_comment-kept :
      (c : CommentTuple) (db : Database)
      → T c.account_id
      → find_where (has_identity c.social_account_id c.external_comment_id) db.tables.comments
        ≡ none
      → IsReached T s₀ db
      → IsReached T s₀ (add_comment c db).1
  unfolding add_comment
  add_comment-kept c db t free p =
      elim (Bool-cases (any (λ d. text_eq d.id c.id) db.tables.comments)) [
        | inl x ↦ rw (x, add_comment) p
        | inr x ↦ rw (x, add_comment) (changed p (adds c t free x refl))
      ]

  add_or_overwrite-Keeps :
      (c : CommentTuple) → T c.account_id → Keeps (IsReached T s₀) (add_or_overwrite c)
  unfolding add_or_overwrite
  add_or_overwrite-Keeps c t = record {
    kept = λ db p.
        elim (Option-cases (
          find_where (has_identity c.social_account_id c.external_comment_id) db.tables.comments)) [
            | inl e ↦ rw (e, add_or_overwrite) (add_comment-kept c db t e p)
            | inr (d, e) ↦ elim (Bool-cases (text_eq d.account_id c.account_id)) [
              | inr x ↦ rw (e, add_or_overwrite, x) p
              | inl x ↦ rw (e, add_or_overwrite, x) (changed p (edits c t refl))
            ]
          ];
  }

  add_unless_there-Keeps :
      (c : CommentTuple) → T c.account_id → Keeps (IsReached T s₀) (add_unless_there c)
  unfolding add_unless_there
  add_unless_there-Keeps c t = record {
    kept = λ db p.
        elim (Option-cases (
          find_where (has_identity c.social_account_id c.external_comment_id) db.tables.comments)) [
            | inr (d, e) ↦ rw (e, add_unless_there) p
            | inl e ↦
                rw (e, add_unless_there)
                  (rw (bind-pure-state some (add_comment c) db) (add_comment-kept c db t e p))
          ];
  }

  module _ (t : Text) (own : T t) where
    upsert_at-Keeps :
        (r : ReadObservation) (post : Option PostTuple)
        → Keeps (IsReached T s₀) (upsert_at t r post)
    upsert_at-Keeps r none = Keeps-pure _
    upsert_at-Keeps r (some p) =
        Keeps-bind _ _ gen_random_uuid-Keeps
          λ id. Keeps-bind _ _ (add_or_overwrite-Keeps (tuple_of t p r id) own) λ i. Keeps-pure _

    upsert_rows-Keeps : (rs : List ReadObservation) → Keeps (IsReached T s₀) (upsert_rows t rs)
    unfolding upsert_rows upsert_row
    upsert_rows-Keeps [] = Keeps-pure _
    upsert_rows-Keeps (r ∷ rs) =
        Keeps-bind _ _ (Keeps-bind _ _ (gets-Keeps _) (upsert_at-Keeps r))
          λ i. Keeps-bind _ _ (upsert_rows-Keeps rs) λ is. Keeps-pure _

    upsert_batch-Keeps :
        (e : Engine) (rs : List ReadObservation) → Keeps (IsReached T s₀) (upsert_batch e t rs)
    unfolding upsert_batch
    upsert_batch-Keeps e [] = Keeps-pure _
    upsert_batch-Keeps e (r ∷ rs) =
        Keeps-bind _ _ (upsert_rows-Keeps (r ∷ rs))
          λ i. Keeps-if _ _ _ (Keeps-throw _) (Keeps-bind _ _ (gets-Keeps _) λ rows. Keeps-lift _)

    insert_at-Keeps :
        (r : ReadObservation) (post : Option PostTuple)
        → Keeps (IsReached T s₀) (insert_at t r post)
    insert_at-Keeps r none = Keeps-pure _
    insert_at-Keeps r (some p) =
        Keeps-bind _ _ gen_random_uuid-Keeps λ id. add_unless_there-Keeps (tuple_of t p r id) own

    existing_or_refuse-Keeps :
        (r : ReadObservation) → Keeps (IsReached T s₀) (existing_or_refuse t r)
    unfolding existing_or_refuse read_back
    existing_or_refuse-Keeps r = search transaction_rules

    inserted_row-Keeps :
        (r : ReadObservation) (row : Option CommentRow)
        → Keeps (IsReached T s₀) (inserted_row t r row)
    inserted_row-Keeps r none = existing_or_refuse-Keeps r
    inserted_row-Keeps r (some row) = Keeps-lift _

    inserted_or_existing-Keeps :
        (r : ReadObservation) (id : Option Text)
        → Keeps (IsReached T s₀) (inserted_or_existing t r id)
    unfolding inserted_or_existing read_back
    inserted_or_existing-Keeps r none = existing_or_refuse-Keeps r
    inserted_or_existing-Keeps r (some id) =
        Keeps-bind _ _ (gets-Keeps _) λ row. inserted_row-Keeps r row

  module _ (e : Engine) (c : TenantContext)
      (tenant : (t : Text) → as_uuid e c.account_id ≡ ok t → T t) where
    pub select_page-Keeps : (q : ListCommentsQuery) → Keeps (IsReached T s₀) (select_page e c q)
    unfolding select_page select_page_rows
    select_page-Keeps q =
        Keeps-if _ _ _ (Keeps-pure _) (with_tenant-Keeps e _ _ λ t x. search transaction_rules)

    pub select_by_id-Keeps : (i : Text) → Keeps (IsReached T s₀) (select_by_id e c i)
    unfolding select_by_id
    select_by_id-Keeps i =
        Keeps-if _ _ _ (Keeps-pure _) (with_tenant-Keeps e _ _ λ t x. search transaction_rules)

    pub select_reply-Keeps : (i x : Text) → Keeps (IsReached T s₀) (select_reply e c i x)
    unfolding select_reply
    select_reply-Keeps i x =
        Keeps-if _ _ _ (Keeps-pure _) (with_tenant-Keeps e _ _ λ t y. search transaction_rules)

    pub select_external_id-Keeps : (i : Text) → Keeps (IsReached T s₀) (select_external_id e c i)
    unfolding select_external_id
    select_external_id-Keeps i =
        Keeps-if _ _ _ (Keeps-pure _) (with_tenant-Keeps e _ _ λ t x. search transaction_rules)

    pub upsert_comments-Keeps :
        (os : List ObservedComment) → Keeps (IsReached T s₀) (upsert_comments e c os)
    unfolding upsert_comments
    upsert_comments-Keeps [] = Keeps-pure _
    upsert_comments-Keeps (o ∷ os) =
        with_tenant-Keeps e _ _
          λ t x. Keeps-bind _ _ (Keeps-lift _) λ rs. upsert_batch-Keeps t (tenant t x) e rs

    pub insert_published_reply-Keeps :
        (o : ObservedComment) → Keeps (IsReached T s₀) (insert_published_reply e c o)
    unfolding insert_published_reply insert_reply
    insert_published_reply-Keeps o = with_tenant-Keeps e _ _ λ t x.
        Keeps-bind _ _ (Keeps-lift _) λ r.
          Keeps-bind _ _ (Keeps-bind _ _ (gets-Keeps _) (insert_at-Keeps t (tenant t x) r))
            (inserted_or_existing-Keeps t (tenant t x) r)

    pub select_published-Keeps : (i : Text) → Keeps (IsReached T s₀) (select_published e c i)
    unfolding select_published
    select_published-Keeps i =
        Keeps-if _ _ _ (Keeps-pure _) (with_tenant-Keeps e _ _ λ t x. search transaction_rules)

    pub update_snapshot-Keeps :
        (i : Text) (s expected : PostSnapshotState)
        → Keeps (IsReached T s₀) (update_snapshot e c i s expected)
    unfolding update_snapshot
    update_snapshot-Keeps i s expected = with_tenant-Keeps e _ _ λ t x.
        Keeps-bind _ _ (Keeps-lift _) λ id.
          Keeps-bind _ _ (Keeps-lift _)
            λ at. record { kept = λ db p. changed p (saves t id expected s at (tenant t x) refl) }
