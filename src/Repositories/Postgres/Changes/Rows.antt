-- ===== src/Repositories/Postgres/Changes/Rows.antt =====
-- What changes leave of comments, and of another tenant's rows.
use social_comments_service.Base.{
  Bool-cases, List, Option, arith, false, inl, inr, refl, some, true, ◌∙◌, ◌≡◌, ◌≢◌,
}
use social_comments_service.Repositories.InMemory.Comments.{keep_if}
use social_comments_service.Repositories.Postgres.{
  CommentTuple, OperationRow, PostTuple, Tables, find_where,
}
use social_comments_service.Repositories.Postgres.Changes.{
  Change, Changes, adds, changed, claims, edits, moves, saves, unchanged,
}
use social_comments_service.Repositories.Postgres.Changes.Followed.{Moves-SameClaim}
use social_comments_service.Repositories.Postgres.Changes.Lookups.{
  changed_where, find_where-map_where, any-find_where, keep_if-map_where,
}
use social_comments_service.Repositories.Postgres.Operations.{in_state}
use social_comments_service.Repositories.Postgres.Posts.{stands_as, with_snapshot}
use social_comments_service.Repositories.Postgres.Statements.{is_overwritten, overwrite}
use social_comments_service.Shared.Text.{Text, text_eq}
use social_comments_service.Shared.Text.Order.{text_eq-false, text_eq_sound}
use social_comments_service.Shared.Types.{PostSnapshotState, ReplyOperationStatus}

-- What no statement changes of a comment.
pub record SameComment (c d : CommentTuple) : Type 0 where
  pub id : d.id ≡ c.id
  pub account_id : d.account_id ≡ c.account_id
  pub post_id : d.post_id ≡ c.post_id
  pub social_account_id : d.social_account_id ≡ c.social_account_id
  pub external_comment_id : d.external_comment_id ≡ c.external_comment_id
  pub author_external_id : d.author_external_id ≡ c.author_external_id
  pub published_at : d.published_at ≡ c.published_at

pub SameComment-refl : (c : CommentTuple) → SameComment c c
SameComment-refl c = record {
  id = refl;
  account_id = refl;
  post_id = refl;
  social_account_id = refl;
  external_comment_id = refl;
  author_external_id = refl;
  published_at = refl;
}

SameComment-trans : {c d f : CommentTuple} → SameComment c d → SameComment d f → SameComment c f
SameComment-trans a b = record {
  id = b.id ∙ a.id;
  account_id = b.account_id ∙ a.account_id;
  post_id = b.post_id ∙ a.post_id;
  social_account_id = b.social_account_id ∙ a.social_account_id;
  external_comment_id = b.external_comment_id ∙ a.external_comment_id;
  author_external_id = b.author_external_id ∙ a.author_external_id;
  published_at = b.published_at ∙ a.published_at;
}

overwrite_same :
    (n c : CommentTuple) → SameComment c (changed_where (is_overwritten n) (overwrite n) c)
overwrite_same n c = elim (Bool-cases (is_overwritten n c)) [
  | inl x ↦ rw x (record {
    id = refl;
    account_id = refl;
    post_id = refl;
    social_account_id = refl;
    external_comment_id = refl;
    author_external_id = refl;
    published_at = refl;
  })
  | inr x ↦ rw x (SameComment-refl c)
]

-- The row with an identifier.
unfoldable pub comment_by_id : Tables → Text → Option CommentTuple
unfolding find_where
comment_by_id s id = find_where (λ c. text_eq c.id id) s.comments

module _ {T : Text → Type 0} where
  Change-comment :
      {s s' : Tables} (id : Text) (c : CommentTuple)
      → Change T s s'
      → comment_by_id s id ≡ some c
      → (c' : CommentTuple) × (comment_by_id s' id ≡ some c') × SameComment c c'
  unfolding comment_by_id
  Change-comment id c (claims _ _ _ e) h = (c, rw e h, SameComment-refl c)
  Change-comment id c (moves _ _ _ _ _ _ e) h = (c, rw e h, SameComment-refl c)
  Change-comment id c (saves _ _ _ _ _ _ e) h = (c, rw e h, SameComment-refl c)
  Change-comment {s} id c (edits n _ e) h = (
    changed_where (is_overwritten n) (overwrite n) c,
    rw e (
        rw
          (
            find_where-map_where (is_overwritten n) (overwrite n) (λ d. text_eq d.id id)
                (λ d x. refl) s.comments,
            h,
          )
          refl),
    overwrite_same n c,
  )
  Change-comment {s} id c (adds n _ _ fresh e) h = elim (Bool-cases (text_eq n.id id)) [
    | inr x ↦ (c, rw (e, x) h, SameComment-refl c)
    | inl x ↦
        let same = text_eq_sound n.id id x in
        let there = any-find_where (λ d. text_eq d.id id) s.comments c h in
        absurd (cc (rw same at fresh, there))
  ]

  -- A comment that has been stored stays stored, as what it was.
  pub Changes-comment :
      {s s' : Tables} (id : Text) (c : CommentTuple)
      → Changes T s s'
      → comment_by_id s id ≡ some c
      → (c' : CommentTuple) × (comment_by_id s' id ≡ some c') × SameComment c c'
  Changes-comment id c unchanged h = (c, h, SameComment-refl c)
  Changes-comment id c (changed cs one) h =
      let (mid, g, f) = Changes-comment id c cs h in
      let (last, g', f') = Change-comment id mid one g in (last, g', SameComment-trans f f')

-- The rows of a tenant.
pub record SameRows (b : Text) (s s' : Tables) : Type 0 where
  pub posts :
      keep_if (λ p. text_eq p.account_id b) s'.posts ≡ keep_if (λ p. text_eq p.account_id b) s.posts
  pub comments :
      keep_if (λ c. text_eq c.account_id b) s'.comments
      ≡ keep_if (λ c. text_eq c.account_id b) s.comments
  pub reply_operations :
      keep_if (λ o. text_eq o.account_id b) s'.reply_operations
      ≡ keep_if (λ o. text_eq o.account_id b) s.reply_operations

other_account : (t b account : Text) → text_eq account t ≡ true → t ≢ b → text_eq account b ≡ false
other_account t b account x other = rw (text_eq_sound account t x) (text_eq-false t b other)

in_state_tenant :
    (t id : Text) (from : List ReplyOperationStatus) (o : OperationRow)
    → in_state t id from o ≡ true
    → text_eq o.account_id t ≡ true
in_state_tenant t id from o x = ground arith

is_overwritten_tenant :
    (c d : CommentTuple) → is_overwritten c d ≡ true → text_eq d.account_id c.account_id ≡ true
is_overwritten_tenant c d x = ground arith

stands_as_tenant :
    (t id : Text) (y : PostSnapshotState) (p : PostTuple)
    → stands_as t id y p ≡ true
    → text_eq p.account_id t ≡ true
stands_as_tenant t id y p x = ground arith

module _ {T : Text → Type 0} (b : Text) (foreign' : (t : Text) → T t → t ≢ b) where
  -- A change for other tenants leaves the rows of a tenant.
  Change-SameRows : {s s' : Tables} → Change T s s' → SameRows b s s'
  unfolding keep_if
  Change-SameRows (claims row t free e) = record {
    posts = rw e refl;
    comments = rw e refl;
    reply_operations = rw (e, keep_if, text_eq-false row.account_id b (foreign' _ t)) refl;
  }
  Change-SameRows (adds c t _ _ e) = record {
    posts = rw e refl;
    comments = rw (e, keep_if, text_eq-false c.account_id b (foreign' _ t)) refl;
    reply_operations = rw e refl;
  }
  Change-SameRows {s} (moves t id from change own m e) = record {
    posts = rw e refl;
    comments = rw e refl;
    reply_operations = rw e (
        keep_if-map_where (in_state t id from) change _ s.reply_operations
          (λ o x. other_account t b _ (in_state_tenant t id from o x) (foreign' t own))
          (λ o x.
            rw ((Moves-SameClaim (m o x)).account_id)
              (other_account t b _ (in_state_tenant t id from o x) (foreign' t own))));
  }
  Change-SameRows {s} (edits c own e) = record {
    posts = rw e refl;
    comments = rw e (
        keep_if-map_where (is_overwritten c) (overwrite c) _ s.comments
          (λ d x. other_account _ b _ (is_overwritten_tenant c d x) (foreign' _ own))
          (λ d x. other_account _ b _ (is_overwritten_tenant c d x) (foreign' _ own)));
    reply_operations = rw e refl;
  }
  Change-SameRows {s} (saves t id x y at own e) = record {
    posts = rw e (
        keep_if-map_where (stands_as t id x) (with_snapshot y at) _ s.posts
          (λ p z. other_account t b _ (stands_as_tenant t id x p z) (foreign' t own))
          (λ p z. other_account t b _ (stands_as_tenant t id x p z) (foreign' t own)));
    comments = rw e refl;
    reply_operations = rw e refl;
  }

  pub Changes-SameRows : {s s' : Tables} → Changes T s s' → SameRows b s s'
  Changes-SameRows unchanged = record { posts = refl; comments = refl; reply_operations = refl }
  Changes-SameRows (changed cs c) =
      let p = Changes-SameRows cs in
      let q = Change-SameRows c in
      record {
        posts = q.posts ∙ p.posts;
        comments = q.comments ∙ p.comments;
        reply_operations = q.reply_operations ∙ p.reply_operations;
      }
